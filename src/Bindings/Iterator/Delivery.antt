-- ===== src/Bindings/Iterator/Delivery.antt =====
-- What the iterators of bindings/BlobstreamX.go deliver: the logs, in order, none twice and none left
-- out.
use blobstreamx.Base.{
  Bool, false, String, none, some, List, [], ◌∷◌, ◌++◌, map, ◌≡◌, refl, sym, ap, ◌∙◌, arith,
  Option-cases, inl, inr,
}
use mathlib.Core.List.{append_assoc, map-append, append-nil}
use blobstreamx.Bindings.Geth.{Geth}
use blobstreamx.Bindings.Iterator.{
  Iterator, event_of, next, Action, sends, ends, advances, shown, resumed, run, error,
}

module _ (g : Geth) {E : Type 0} (zero_event : E) (set_raw : E → g.Log → E) where
  -- The logs that a history sends, in order.
  abbrev pub sent : List (Action g zero_event set_raw) → List g.Log
  sent [] = []
  sent (sends log ∷ acts) = log ∷ sent acts
  sent (ends err ∷ acts) = sent acts
  sent (advances b ∷ acts) = sent acts

  -- Between `it` and `it'` the events `es` have been delivered.
  record Delivers (it : Iterator g E) (es : List E) (it' : Iterator g E) : Type 0 where
    same_contract : it'.contract ≡ it.contract
    same_name : it'.name ≡ it.name
    in_order :
        it'.fail ≡ none
        → map (event_of g zero_event set_raw it.contract it.name) it.feed.logs
          ≡ es ++ map (event_of g zero_event set_raw it.contract it.name) it'.feed.logs

  next-Delivers :
      (b : Bool) (it : Iterator g E)
      → let r = next g zero_event set_raw b it in
        Delivers it (shown g zero_event set_raw r) (resumed g zero_event set_raw it r)
  unfolding next
  next-Delivers b it = record {
    same_contract = ground arith;
    same_name = ground arith;
    in_order = λ f. ground arith;
  }

  -- A failed iterator shows nothing more, and does not change.
  next-failed :
      (b : Bool) (e : g.Error) (it : Iterator g E)
      → it.fail ≡ some e
      → next g zero_event set_raw b it ≡ some (false, it)
  unfolding next
  next-failed b e it f = rw f

  run-failed :
      (acts : List (Action g zero_event set_raw)) (e : g.Error) (it : Iterator g E)
      → it.fail ≡ some e
      → ((run g zero_event set_raw acts it).0 ≡ [])
        × ((run g zero_event set_raw acts it).1.fail ≡ some e)
  unfolding run
  run-failed [] e it f = (refl, f)
  run-failed (sends log ∷ acts) e it f =
      run-failed acts e
        (record it { feed = record { logs = it.feed.logs ++ log ∷ []; ended = it.feed.ended } }) f
  run-failed (ends err ∷ acts) e it f =
      run-failed acts e (record it { feed = record { logs = it.feed.logs; ended = some err } }) f
  run-failed (advances b ∷ acts) e it f = rw (next-failed b e it f) (run-failed acts e it f)

  module _ (contract : g.BoundContract) (name : String) where
    abbrev events : List g.Log → List E
    events = map (event_of g zero_event set_raw contract name)

    Delivers-append :
        (it it' : Iterator g E) (es out left : List E) (logs : List g.Log)
        → it.contract ≡ contract
        → it.name ≡ name
        → it'.fail ≡ none
        → Delivers it es it'
        → events (it'.feed.logs ++ logs) ≡ out ++ left
        → events (it.feed.logs ++ logs) ≡ (es ++ out) ++ left
    Delivers-append it it' es out left logs c n f d h =
        let front : events it.feed.logs ≡ es ++ events it'.feed.logs =
          rw (c, n) at (d.in_order f) in
        let back : events it'.feed.logs ++ events logs ≡ out ++ left = rw map-append at h in
        rw (map-append, front, append_assoc, back) (sym (append_assoc es out left))

    -- A run that has not failed at its end had not failed after its first action.
    not_failed :
        (acts : List (Action g zero_event set_raw)) (it : Iterator g E)
        → (run g zero_event set_raw acts it).1.fail ≡ none
        → it.fail ≡ none
    not_failed acts it f = elim (Option-cases it.fail) [
      | inl q ↦ q
      | inr (e, q) ↦ absurd (ground (arith, run-failed acts e it q))
    ]

    run-in_order :
        (acts : List (Action g zero_event set_raw)) (it : Iterator g E)
        → it.contract ≡ contract
        → it.name ≡ name
        → (run g zero_event set_raw acts it).1.fail ≡ none
        → events (it.feed.logs ++ sent acts)
          ≡ (run g zero_event set_raw acts it).0
            ++ events (run g zero_event set_raw acts it).1.feed.logs
    unfolding run
    run-in_order [] it c n f = simp append-nil
    run-in_order (sends log ∷ acts) it c n f =
        let it' : Iterator g E = record it {
          feed = record { logs = it.feed.logs ++ log ∷ []; ended = it.feed.ended };
        } in
        rw (← append_assoc it.feed.logs (log ∷ []) (sent acts)) (run-in_order acts it' c n f)
    run-in_order (ends err ∷ acts) it c n f =
        run-in_order acts (record it { feed = record { logs = it.feed.logs; ended = some err } }) c
          n f
    run-in_order (advances b ∷ acts) it c n f =
        let r = next g zero_event set_raw b it in
        let it' = resumed g zero_event set_raw it r in
        let d = next-Delivers b it in
        let q = run g zero_event set_raw acts it' in
        Delivers-append it it' (shown g zero_event set_raw r) q.0 (events q.1.feed.logs) (sent acts)
          c n (not_failed acts it' f) d
          (run-in_order acts it' (d.same_contract ∙ c) (d.same_name ∙ n) f)

  -- Whatever the order in which logs arrive, the subscription ends, `Next` is called and its selects
  -- choose: as long as the iterator has not failed, the events it has shown, followed by those of
  -- the logs that still wait, are those of the logs that waited at first or were sent, in order.
  pub run-Delivers :
      (acts : List (Action g zero_event set_raw)) (it : Iterator g E)
      → (run g zero_event set_raw acts it).1.fail ≡ none
      → let ev = event_of g zero_event set_raw it.contract it.name in
        map ev (it.feed.logs ++ sent acts)
        ≡ (run g zero_event set_raw acts it).0
          ++ map ev (run g zero_event set_raw acts it).1.feed.logs
  run-Delivers acts it f = run-in_order it.contract it.name acts it refl refl f

  next-exhausted :
      (b : Bool) (it it' : Iterator g E)
      → next g zero_event set_raw b it ≡ some (false, it')
      → it'.fail ≡ none
      → (it.fail ≡ none) × (it.feed.logs ≡ [])
  unfolding next
  next-exhausted b it it' e f = (ground arith, ground arith)

  -- Where `Next` returns false and `Error` then gives nil, every log that waited at first or was
  -- sent has been shown as an event, in order.
  pub run_complete :
      (acts : List (Action g zero_event set_raw)) (b : Bool) (it it' : Iterator g E)
      → next g zero_event set_raw b (run g zero_event set_raw acts it).1 ≡ some (false, it')
      → error g zero_event set_raw it' ≡ none
      → (run g zero_event set_raw acts it).0
        ≡ map (event_of g zero_event set_raw it.contract it.name) (it.feed.logs ++ sent acts)
  unfolding error
  run_complete acts b it it' e f =
      let end = (run g zero_event set_raw acts it).1 in
      let (alive, empty) = next-exhausted b end it' e f in
      let ev = event_of g zero_event set_raw it.contract it.name in
      let out = (run g zero_event set_raw acts it).0 in
      sym (run-Delivers acts it alive ∙ ap (λ l. out ++ map ev l) empty ∙ append-nil out)
