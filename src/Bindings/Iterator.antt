-- ===== src/Bindings/Iterator.antt =====
-- The event iterators of bindings/BlobstreamX.go: one for each event, with one and the same body.
-- `E` is the event's struct, `zero_event` a new one, and `set_raw` the write to its field `Raw`.
pub mod Delivery
pub mod Progress
use blobstreamx.Base.{
  Bool, true, false, String, Option, none, some, List, [], ◌∷◌, ◌++◌, if◌then◌else◌, ℕ, zero, suc,
}
use blobstreamx.Bindings.Geth.{Geth, Feed}

pub record Iterator (g : Geth) (E : Type 0) : Type 0 where
  pub event : Option E
  pub contract : g.BoundContract
  pub name : String
  -- the field `logs`, and the error channel of the field `sub`
  pub feed : Feed g.Log g.Error
  pub unsubscribed : Bool
  pub done : Bool
  pub fail : Option g.Error

module _ (g : Geth) {E : Type 0} (zero_event : E) (set_raw : E → g.Log → E) where
  -- The event that a log stands for.
  abbrev pub event_of : g.BoundContract → String → g.Log → E
  event_of contract name log = set_raw (g.unpack_log E contract zero_event name log).0 log

  -- `case log := <-it.logs`, with the logs that are left.
  unfoldable pub deliver : g.Log → List g.Log → Iterator g E → Bool × Iterator g E
  deliver log rest it =
      let (event, err) = g.unpack_log E it.contract zero_event it.name log in
      let left : Feed g.Log g.Error = record { logs = rest; ended = it.feed.ended } in
      elim err [
        | some e ↦ (false, record it { event = some event; fail = some e; feed = left })
        | none ↦ (true, record it { event = some (set_raw event log); feed = left })
      ]

  -- The select with a default, on the logs that wait.
  unfoldable pub drain : List g.Log → Iterator g E → Bool × Iterator g E
  unfolding deliver
  drain [] it = (false, it)
  drain (log ∷ rest) it = deliver log rest it

  -- `Next` on an iterator that is done.
  unfoldable pub next_done : Iterator g E → Bool × Iterator g E
  unfolding drain
  next_done it = elim it.fail [ some e ↦ (false, it) | none ↦ drain it.feed.logs it ]

  -- `case err := <-it.sub.Err()`, which ends in a call of `Next`.
  unfoldable pub finish : Option g.Error → Iterator g E → Bool × Iterator g E
  unfolding next_done
  finish err it = next_done (record it { done = true; fail = err })

  -- The select that waits; where both channels are ready it takes the log if `prefers_log`.
  unfoldable pub wait :
      (prefers_log : Bool)
      → List g.Log
      → Option (Option g.Error)
      → Iterator g E
      → Option (Bool × Iterator g E)
  unfolding deliver finish
  wait prefers_log [] none it = none
  wait prefers_log [] (some err) it = some (finish err it)
  wait prefers_log (log ∷ rest) none it = some (deliver log rest it)
  wait prefers_log (log ∷ rest) (some err) it =
      some (if prefers_log then deliver log rest it else finish err it)

  -- `Next`; `none` says that it waits, since neither channel is ready.
  unfoldable pub next : Bool → Iterator g E → Option (Bool × Iterator g E)
  unfolding next_done wait
  next prefers_log it = elim it.fail [
    | some e ↦ some (false, it)
    | none ↦ if it.done then some (next_done it) else wait prefers_log it.feed.logs it.feed.ended it
  ]

  -- `Error`
  unfoldable pub error : Iterator g E → Option g.Error
  error it = it.fail

  -- `Close`
  unfoldable pub close : Iterator g E → Option g.Error × Iterator g E
  close it = (none, record it { unsubscribed = true })

  -- What happens to an iterator: the producer sends a log or ends the subscription, or the consumer
  -- calls `Next`.
  pub data Action : Type 0 where
    sends : g.Log → Action
    ends : Option g.Error → Action
    advances : (prefers_log : Bool) → Action

  abbrev pub appended : Option E → List E → List E
  appended none es = es
  appended (some e) es = e ∷ es

  -- The event that a call of `Next` shows: that of an iterator for which it returned true.
  abbrev pub shown : Option (Bool × Iterator g E) → List E
  shown none = []
  shown (some (true, it)) = appended it.event []
  shown (some (false, it)) = []

  abbrev pub resumed : Iterator g E → Option (Bool × Iterator g E) → Iterator g E
  resumed it none = it
  resumed it (some (b, it')) = it'

  -- The events shown by a history of actions, in order, and the iterator after it.
  unfoldable pub run : List Action → Iterator g E → List E × Iterator g E
  run [] it = ([], it)
  run (sends log ∷ acts) it =
      run acts
        (record it { feed = record { logs = it.feed.logs ++ log ∷ []; ended = it.feed.ended } })
  run (ends err ∷ acts) it =
      run acts (record it { feed = record { logs = it.feed.logs; ended = some err } })
  run (advances b ∷ acts) it =
      let r = next b it in let (events, it') = run acts (resumed it r) in (shown r ++ events, it')

  -- `for it.Next() { … }` with fuel, where the choices of the waiting selects are given: the events
  -- shown, and the iterator if the loop has ended.
  unfoldable pub collect : ℕ → (ℕ → Bool) → Iterator g E → List E × Option (Iterator g E)
  collect zero choices it = ([], none)
  collect (suc fuel) choices it = elim (next (choices fuel) it) [
    | none ↦ ([], none)
    | some (false, it') ↦ ([], some it')
    | some (true, it') ↦
        (appended it'.event (collect fuel choices it').0, (collect fuel choices it').1)
  ]
