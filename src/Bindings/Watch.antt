-- ===== src/Bindings/Watch.antt =====
-- The goroutine that each `Watch…` function of bindings/BlobstreamX.go starts: a loop of selects, as
-- a step relation in which the environment and the choice between ready channels are free.
pub mod Order
use blobstreamx.Base.{Bool, true, false, String, Option, none, some, List, [], ◌∷◌, ◌++◌, ◌≡◌, ◌⊎◌}
use blobstreamx.Bindings.Geth.{Geth, Feed}

-- The outer select, the inner select with an event in hand, and the end with the result.
pub data Phase (E Error : Type 0) : Type 0 where
  receiving : Phase E Error
  sending : E → Phase E Error
  stopped : Option Error → Phase E Error

pub record Watch (g : Geth) (E : Type 0) : Type 0 where
  pub phase : Phase E g.Error
  pub contract : g.BoundContract
  pub name : String
  pub feed : Feed g.Log g.Error
  -- whether the channel `quit` is ready
  pub quit : Bool
  -- what the user has received from `sink`, in order
  pub sunk : List E
  -- whether the deferred `sub.Unsubscribe()` has run
  pub unsubscribed : Bool

module _ (g : Geth) {E : Type 0} (zero_event : E) (set_raw : E → g.Log → E) where
  abbrev pub event_of : g.BoundContract → String → g.Log → E
  event_of contract name log = set_raw (g.unpack_log E contract zero_event name log).0 log

  abbrev pub unpack_error : g.BoundContract → String → g.Log → Option g.Error
  unpack_error contract name log = (g.unpack_log E contract zero_event name log).1

  -- Whether the goroutine runs.
  abbrev pub is_running : Phase E g.Error → Bool
  is_running (stopped e) = false
  is_running _ = true

  -- `return err`, with what is deferred.
  abbrev pub stop : Option g.Error → Watch g E → Watch g E
  stop err w = record w { phase = stopped err; unsubscribed = true }

  abbrev pub with_logs : List g.Log → Watch g E → Watch g E
  with_logs logs w = record w { feed = record { logs = logs; ended = w.feed.ended } }

  pub data Step (w w' : Watch g E) : Type 0 where
    -- `case log := <-logs`, where the log can be unpacked
    receives :
        (log : g.Log) (rest : List g.Log)
        → w.phase ≡ receiving
        → w.feed.logs ≡ log ∷ rest
        → unpack_error w.contract w.name log ≡ none
        → w' ≡ record (with_logs rest w) { phase = sending (event_of w.contract w.name log) }
        → Step w w'
    -- and where it cannot
    rejects :
        (log : g.Log) (rest : List g.Log) (e : g.Error)
        → w.phase ≡ receiving
        → w.feed.logs ≡ log ∷ rest
        → unpack_error w.contract w.name log ≡ some e
        → w' ≡ stop (some e) (with_logs rest w)
        → Step w w'
    -- `case sink <- event`
    forwards :
        (event : E)
        → w.phase ≡ sending event
        → w' ≡ record w { phase = receiving; sunk = w.sunk ++ event ∷ [] }
        → Step w w'
    -- `case err := <-sub.Err()`, in both selects
    fails :
        (err : Option g.Error)
        → is_running w.phase ≡ true
        → w.feed.ended ≡ some err
        → w' ≡ stop err w
        → Step w w'
    -- `case <-quit`, in both selects
    quits : is_running w.phase ≡ true → w.quit ≡ true → w' ≡ stop none w → Step w w'
    -- the environment: a log arrives, the subscription ends, the user unsubscribes
    arrives : (log : g.Log) → w' ≡ with_logs (w.feed.logs ++ log ∷ []) w → Step w w'
    ends :
        (err : Option g.Error)
        → w' ≡ record w { feed = record { logs = w.feed.logs; ended = some err } }
        → Step w w'
    unsubscribes : w' ≡ record w { quit = true } → Step w w'

  -- The log that a step lets in.
  abbrev pub arrived : {w w' : Watch g E} → Step w w' → List g.Log
  arrived (arrives log e) = log ∷ []
  arrived _ = []

  -- A run of the goroutine; `logs` are those that arrived on the way, in order.
  pub data Run (w : Watch g E) : List g.Log → Watch g E → Type 0 where
    start : Run w [] w
    more :
        {logs all : List g.Log} {v x : Watch g E}
        → Run w logs v
        → (s : Step v x) → all ≡ logs ++ arrived s
        → Run w all x
