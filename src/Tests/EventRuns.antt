-- ===== src/Tests/EventRuns.antt =====
-- Runs of the iterators, watches, filters and parsers of bindings/BlobstreamX.go over the logs 5 and
-- 7 at the heights 11 and 12.
use blobstreamx.Base.{
  ℕ, ◌≡◌, refl, Bool, true, false, not, none, some, List, [], ◌∷◌, ◌++◌, map, arith,
}
use blobstreamx.Bindings.Values.{returned}
use blobstreamx.Bindings.Instance.{BlobstreamXFilterer}
use blobstreamx.Bindings.Iterator.{
  Iterator, Action, sends, ends, advances, next, run, collect, error,
}
use blobstreamx.Bindings.Iterator.Delivery.{run-Delivers, run_complete}
use blobstreamx.Bindings.Iterator.Progress.{collect_all}
use blobstreamx.Bindings.Watch.{
  Watch, Run, start, more, arrives, receives, forwards, receiving, sending, is_running,
}
use blobstreamx.Bindings.Watch.Order.{Forwarded, Run-Forwarded}
use blobstreamx.Bindings.Filterer.{filter_logs, parse_log}
use blobstreamx.Bindings.Filterer.Agreement.{filter_logs-collect, parse_log-next, parsed}
use blobstreamx.Bindings.Events.HeadUpdate.{HeadUpdate, new_head_update, set_raw}
use blobstreamx.Tests.ContractRuns.{client}
use blobstreamx.Tests.Simulated.{simulated}

abbrev filterer : BlobstreamXFilterer simulated
filterer = record { contract = some 8 }

-- The event of the log (11, 5), and so on.
abbrev head_event : ℕ × ℕ → HeadUpdate simulated
head_event log = record { block_number = 0; header_hash = 0; raw = some log }

abbrev idle : Iterator simulated (HeadUpdate simulated)
idle = record {
  event = none;
  contract = 8;
  name = "HeadUpdate";
  feed = record { logs = []; ended = none };
  unsubscribed = false;
  done = false;
  fail = none;
}

abbrev actions : List (Action simulated (new_head_update simulated) (set_raw simulated))
actions = sends (11, 5) ∷ advances true ∷ sends (12, 7) ∷ ends none ∷ advances false ∷ []

run-Delivers_example :
    map head_event ((11, 5) ∷ (12, 7) ∷ [])
    ≡ (run simulated (new_head_update simulated) (set_raw simulated) actions idle).0
      ++ map head_event
          (run simulated (new_head_update simulated) (set_raw simulated) actions idle).1.feed.logs
unfolding run next
run-Delivers_example =
    run-Delivers simulated (new_head_update simulated) (set_raw simulated) actions idle refl

abbrev finished : Iterator simulated (HeadUpdate simulated)
finished = record idle {
  event = some (head_event (12, 7));
  feed = record { logs = []; ended = some none };
  done = true;
}

run_complete_example :
    (run simulated (new_head_update simulated) (set_raw simulated) actions idle).0
    ≡ map head_event ((11, 5) ∷ (12, 7) ∷ [])
unfolding next run error
run_complete_example =
    run_complete simulated (new_head_update simulated) (set_raw simulated) actions true idle
      finished refl refl

abbrev filtered : Iterator simulated (HeadUpdate simulated)
filtered = record idle { feed = record { logs = (11, 5) ∷ (12, 7) ∷ []; ended = some none } }

collect_all_example :
    (it : Iterator simulated (HeadUpdate simulated)) × (collect simulated
        (new_head_update simulated)
        (set_raw simulated)
        3
        (λ k. true)
        filtered
      ≡ (map head_event ((11, 5) ∷ (12, 7) ∷ []), some it))
    × (error simulated (new_head_update simulated) (set_raw simulated) it ≡ none)
collect_all_example =
    collect_all simulated (new_head_update simulated) (set_raw simulated) 3 (λ k. true) filtered
      ((11, 5) ∷ (12, 7) ∷ []) refl refl (refl, (refl, tt)) (omega arith)

filter_logs-collect_example :
    (it it' : Iterator simulated (HeadUpdate simulated)) × (filter_logs simulated
        (HeadUpdate simulated)
        filterer
        tt
        "HeadUpdate"
        []
        client
      ≡ returned (some it, none))
    × (collect simulated (new_head_update simulated) (set_raw simulated) 3 (λ k. false) it
        ≡ (map head_event ((11, 5) ∷ (12, 7) ∷ []), some it'))
    × (error simulated (new_head_update simulated) (set_raw simulated) it' ≡ none)
filter_logs-collect_example =
    filter_logs-collect simulated (new_head_update simulated) (set_raw simulated) (λ k. false)
      filterer 8 tt "HeadUpdate" [] client ((11, 5) ∷ (12, 7) ∷ []) refl refl (refl, (refl, tt))

parse_log-next_example :
    (more : Bool) × (it : Iterator simulated (HeadUpdate simulated)) × (next simulated
        (new_head_update simulated)
        (set_raw simulated)
        true
        (record idle { feed = record { logs = (11, 5) ∷ []; ended = none } })
      ≡ some (more, it))
    × (parse_log simulated
          (new_head_update simulated)
          (set_raw simulated)
          filterer
          "HeadUpdate"
          (11, 5)
        ≡ returned (parsed simulated (new_head_update simulated) (set_raw simulated) more it))
    × (it.feed.logs ≡ [])
parse_log-next_example =
    parse_log-next simulated (new_head_update simulated) (set_raw simulated) true filterer
      (record idle { feed = record { logs = (11, 5) ∷ []; ended = none } }) (11, 5) [] refl refl
      refl refl

abbrev watch : Watch simulated (HeadUpdate simulated)
watch = record {
  phase = receiving;
  contract = 8;
  name = "HeadUpdate";
  feed = record { logs = []; ended = none };
  quit = false;
  sunk = [];
  unsubscribed = false;
}

abbrev watch_arrived : Watch simulated (HeadUpdate simulated)
watch_arrived = record watch { feed = record { logs = (11, 5) ∷ []; ended = none } }

abbrev watch_received : Watch simulated (HeadUpdate simulated)
watch_received = record watch { phase = sending (head_event (11, 5)) }

abbrev watch_forwarded : Watch simulated (HeadUpdate simulated)
watch_forwarded = record watch { sunk = head_event (11, 5) ∷ [] }

abbrev watch_run :
    Run simulated
      (new_head_update simulated)
      (set_raw simulated)
      watch
      ((11, 5) ∷ [])
      watch_forwarded
watch_run =
    more {v = watch_received}
      (more {v = watch_arrived} (more start (arrives (11, 5) refl) refl)
        (receives (11, 5) [] refl refl refl refl) refl)
      (forwards (head_event (11, 5)) refl refl) refl

Run-Forwarded_example :
    Forwarded simulated
      (new_head_update simulated)
      (set_raw simulated)
      (map head_event ((11, 5) ∷ []))
      (head_event (11, 5) ∷ [])
      []
      receiving
    × (false ≡ not (is_running simulated (new_head_update simulated) (set_raw simulated) receiving))
Run-Forwarded_example =
    Run-Forwarded simulated (new_head_update simulated) (set_raw simulated) watch watch_forwarded
      ((11, 5) ∷ []) refl refl refl watch_run
