-- ===== src/Bindings/Iterator/Progress.antt =====
-- That a loop over an iterator of bindings/BlobstreamX.go ends, and with what.
use blobstreamx.Base.{
  ℕ, zero, suc, ◌<◌, Bool, true, false, String, none, some, List, [], ◌∷◌, map, length, ◌≡◌, ap,
  arith,
}
use blobstreamx.Bindings.Geth.{Geth}
use blobstreamx.Bindings.Iterator.{Iterator, event_of, next, collect, error, resumed}

module _ (g : Geth) {E : Type 0} (zero_event : E) (set_raw : E → g.Log → E) where
  -- Every log can be unpacked as the event.
  abbrev pub Unpacks : g.BoundContract → String → List g.Log → Type 0
  Unpacks contract name [] = Unit
  Unpacks contract name (log ∷ logs) =
      ((g.unpack_log E contract zero_event name log).1 ≡ none) × Unpacks contract name logs

  -- `Next` called on an iterator that is done or whose subscription ended with nil.
  next-more :
      (b : Bool) (it : Iterator g E) (log : g.Log) (rest : List g.Log)
      → it.fail ≡ none
      → it.feed.ended ≡ some none
      → it.feed.logs ≡ log ∷ rest
      → (g.unpack_log E it.contract zero_event it.name log).1 ≡ none
      → (it' : Iterator g E) × (next g zero_event set_raw b it ≡ some (true, it'))
        × (it'.event ≡ some (event_of g zero_event set_raw it.contract it.name log))
        × (it'.fail ≡ none)
        × (it'.feed ≡ record { logs = rest; ended = some none })
        × (it'.contract ≡ it.contract)
        × (it'.name ≡ it.name)
  unfolding next
  next-more b it log rest f e l u = (
    resumed g zero_event set_raw it (next g zero_event set_raw b it),
    ground arith,
    ground arith,
    ground arith,
    ground arith,
    ground arith,
    ground arith,
  )

  next-end :
      (b : Bool) (it : Iterator g E)
      → it.fail ≡ none
      → it.feed.ended ≡ some none
      → it.feed.logs ≡ []
      → (it' : Iterator g E) × (next g zero_event set_raw b it ≡ some (false, it'))
        × (it'.fail ≡ none)
  unfolding next
  next-end b it f e l =
      (resumed g zero_event set_raw it (next g zero_event set_raw b it), ground arith, ground arith)

  collect-more :
      (fuel : ℕ) (choices : ℕ → Bool) (it it' last : Iterator g E) (event : E) (events : List E)
      → next g zero_event set_raw (choices fuel) it ≡ some (true, it')
      → it'.event ≡ some event
      → collect g zero_event set_raw fuel choices it' ≡ (events, some last)
      → collect g zero_event set_raw (suc fuel) choices it ≡ (event ∷ events, some last)
  unfolding collect
  collect-more fuel choices it it' last event events q shows rest = ground arith

  -- On an iterator that has not failed, once its subscription has ended with nil and every log that
  -- waits can be unpacked, the loop ends, whatever its selects choose, within one call of `Next` more
  -- than there are logs; it shows the events of all of them, in order, and `Error` then gives nil.
  pub collect_all :
      (fuel : ℕ) (choices : ℕ → Bool) (it : Iterator g E) (logs : List g.Log)
      → it.fail ≡ none
      → it.feed ≡ record { logs = logs; ended = some none }
      → Unpacks it.contract it.name logs
      → length logs < fuel
      → (it' : Iterator g E) × (collect g zero_event set_raw fuel choices it
          ≡ (map (event_of g zero_event set_raw it.contract it.name) logs, some it'))
        × (error g zero_event set_raw it' ≡ none)
  unfolding collect error
  collect_all zero choices it logs f e u n = absurd (omega arith)
  collect_all (suc fuel) choices it [] f e u n =
      let (it', q, ok) = next-end (choices fuel) it f (ap (λ t. t.ended) e) (ap (λ t. t.logs) e) in
      (it', ground arith, ok)
  collect_all (suc fuel) choices it (log ∷ logs) f e u n =
      let (it', q, shows, ok, feed, c, m) =
        next-more (choices fuel) it log logs f (ap (λ t. t.ended) e) (ap (λ t. t.logs) e) u.0 in
      let (last, rest, end) =
        collect_all fuel choices it' logs ok feed (rw (c, m) u.1) (omega arith) in
      let events = map (event_of g zero_event set_raw it.contract it.name) logs in
      (
        last,
        collect-more fuel choices it it' last
            (event_of g zero_event set_raw it.contract it.name log) events q shows
            (rw (c, m) at rest),
        end,
      )
