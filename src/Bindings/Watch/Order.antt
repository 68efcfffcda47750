-- ===== src/Bindings/Watch/Order.antt =====
-- What a goroutine of a `Watch…` function of bindings/BlobstreamX.go forwards to the user.
use blobstreamx.Base.{false, not, String, List, [], ◌∷◌, ◌++◌, map, ◌≡◌, refl, arith}
use mathlib.Core.List.{append_assoc, map-append, append-nil}
use blobstreamx.Bindings.Geth.{Geth}
use blobstreamx.Bindings.Watch.{
  Watch, Phase, receiving, sending, stopped, event_of, is_running, Step, receives, rejects,
  forwards, fails, quits, arrives, ends, unsubscribes, arrived, Run, start, more,
}

module _ (g : Geth) {E : Type 0} (zero_event : E) (set_raw : E → g.Log → E) where
  -- The sink holds the first of the events `all`, in order; a goroutine that still runs has the next
  -- one in hand, if it is sending, and the rest among the logs that wait.
  abbrev pub Forwarded : List E → List E → List E → Phase E g.Error → Type 0
  Forwarded all sunk waiting receiving = all ≡ sunk ++ waiting
  Forwarded all sunk waiting (sending event) = all ≡ sunk ++ event ∷ waiting
  Forwarded all sunk waiting (stopped err) = (lost : List E) × (all ≡ sunk ++ lost)

  Forwarded-lost :
      (all sunk waiting : List E) (phase : Phase E g.Error)
      → Forwarded all sunk waiting phase
      → (lost : List E) × (all ≡ sunk ++ lost)
  Forwarded-lost all sunk waiting receiving f = (waiting, f)
  Forwarded-lost all sunk waiting (sending event) f = (event ∷ waiting, f)
  Forwarded-lost all sunk waiting (stopped err) f = f

  Forwarded-append :
      (all sunk waiting : List E) (phase : Phase E g.Error) (new : List E)
      → Forwarded all sunk waiting phase
      → Forwarded (all ++ new) sunk (waiting ++ new) phase
  Forwarded-append all sunk waiting receiving new f = rw f (append_assoc sunk waiting new)
  Forwarded-append all sunk waiting (sending event) new f =
      rw f (append_assoc sunk (event ∷ waiting) new)
  Forwarded-append all sunk waiting (stopped err) new f =
      (f.0 ++ new, rw f.1 (append_assoc sunk f.0 new))

  module _ (contract : g.BoundContract) (name : String) where
    abbrev events : List g.Log → List E
    events = map (event_of g zero_event set_raw contract name)

    record InOrder (logs : List g.Log) (w : Watch g E) : Type 0 where
      same_contract : w.contract ≡ contract
      same_name : w.name ≡ name
      forwarded : Forwarded (events logs) w.sunk (events w.feed.logs) w.phase
      released : w.unsubscribed ≡ not (is_running g zero_event set_raw w.phase)

    Step-InOrder :
        (logs : List g.Log) {w w' : Watch g E}
        → InOrder logs w
        → (s : Step g zero_event set_raw w w') → InOrder (logs ++ arrived g zero_event set_raw s) w'
    Step-InOrder logs v (receives log rest p l u e) =
        let before = rw p at v.forwarded in
        rw (append-nil, e)
          (record {
            same_contract = v.same_contract;
            same_name = v.same_name;
            forwarded = ground arith;
            released = ground arith;
          })
    Step-InOrder logs {w} v (rejects log rest x p l u e) =
        rw (append-nil, e)
          (record {
            same_contract = v.same_contract;
            same_name = v.same_name;
            forwarded = Forwarded-lost _ _ _ w.phase v.forwarded;
            released = refl;
          })
    Step-InOrder logs v (forwards event p e) =
        let before = rw p at v.forwarded in
        rw (append-nil, e)
          (record {
            same_contract = v.same_contract;
            same_name = v.same_name;
            forwarded = rw append_assoc before;
            released = ground arith;
          })
    Step-InOrder logs {w} v (fails err p q e) =
        rw (append-nil, e)
          (record {
            same_contract = v.same_contract;
            same_name = v.same_name;
            forwarded = Forwarded-lost _ _ _ w.phase v.forwarded;
            released = refl;
          })
    Step-InOrder logs {w} v (quits p q e) =
        rw (append-nil, e)
          (record {
            same_contract = v.same_contract;
            same_name = v.same_name;
            forwarded = Forwarded-lost _ _ _ w.phase v.forwarded;
            released = refl;
          })
    Step-InOrder logs {w} v (arrives log e) = rw e (record {
      same_contract = v.same_contract;
      same_name = v.same_name;
      forwarded =
          rw (map-append, map-append)
            (Forwarded-append _ _ _ w.phase (events (log ∷ [])) v.forwarded);
      released = v.released;
    })
    Step-InOrder logs v (ends err e) =
        rw (append-nil, e)
          (record {
            same_contract = v.same_contract;
            same_name = v.same_name;
            forwarded = v.forwarded;
            released = v.released;
          })
    Step-InOrder logs v (unsubscribes e) =
        rw (append-nil, e)
          (record {
            same_contract = v.same_contract;
            same_name = v.same_name;
            forwarded = v.forwarded;
            released = v.released;
          })

    Run-InOrder :
        {w x : Watch g E} {logs : List g.Log}
        → InOrder w.feed.logs w
        → Run g zero_event set_raw w logs x
        → InOrder (w.feed.logs ++ logs) x
    Run-InOrder v start = rw append-nil v
    Run-InOrder {w} v (more {logs} r s e) =
        rw (e, ← append_assoc) (Step-InOrder (w.feed.logs ++ logs) (Run-InOrder v r) s)

  -- The goroutine of a watch, started on an empty sink: at every point of every run, whatever its
  -- selects choose and the environment does, the sink has received the first of the events of the
  -- logs that waited or arrived, in order and unpacked as the watched event, and while it runs the
  -- goroutine holds all the others; and it has released its subscription exactly if it has stopped.
  pub Run-Forwarded :
      (w x : Watch g E) (logs : List g.Log)
      → w.phase ≡ receiving
      → w.sunk ≡ []
      → w.unsubscribed ≡ false
      → Run g zero_event set_raw w logs x
      → Forwarded
          (map (event_of g zero_event set_raw w.contract w.name) (w.feed.logs ++ logs))
          x.sunk
          (map (event_of g zero_event set_raw w.contract w.name) x.feed.logs)
          x.phase
        × (x.unsubscribed ≡ not (is_running g zero_event set_raw x.phase))
  Run-Forwarded w x logs p k u r =
      let first : InOrder w.contract w.name w.feed.logs w = record {
        same_contract = refl;
        same_name = refl;
        forwarded = rw (p, k);
        released = rw (p, u);
      } in
      let v = Run-InOrder w.contract w.name first r in (v.forwarded, v.released)
