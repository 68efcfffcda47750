-- ===== src/Bindings/Filterer.antt =====
-- The bodies that the `Filter…`, `Watch…` and `Parse…` functions of bindings/BlobstreamX.go share.
pub mod Agreement
use blobstreamx.Base.{Bool, true, false, String, Option, none, some, List, [], ◌∷◌, ◌++◌}
use blobstreamx.Bindings.Values.{Value, Go, returned, ◌>>=◌, or_panic}
use blobstreamx.Bindings.Geth.{Geth, Feed}
use blobstreamx.Bindings.Instance.{BlobstreamXFilterer, OrError}
use blobstreamx.Bindings.Iterator.{Iterator}
use blobstreamx.Bindings.Watch.{Watch, receiving}

-- `for _, item := range items { rule = append(rule, item) }`
abbrev append_items {ℓ} : {A : Type ℓ} → (A → Value) → List Value → List A → List Value
append_items box acc [] = acc
append_items box acc (item ∷ items) = append_items box (acc ++ box item ∷ []) items

unfoldable pub rule {ℓ} : {A : Type ℓ} → (A → Value) → List A → List Value
rule box items = append_items box [] items

module _ (g : Geth) where
  unfoldable pub filter_logs :
      (E : Type 0)
      → BlobstreamXFilterer g
      → g.FilterOpts
      → String
      → List (List Value)
      → g.Chain
      → Go (OrError g (Iterator g E))
  filter_logs E f opts name rules chain = do
    contract ← or_panic f.contract
    let (feed, err) = g.filter_logs contract opts name rules chain
    elim err [
      | some e ↦ returned (none, some e)
      | none ↦ returned (
        some (record {
          event = none;
          contract = contract;
          name = name;
          feed = feed;
          unsubscribed = false;
          done = false;
          fail = none;
        }),
        none,
      )
    ]

  unfoldable pub watch_logs :
      (E : Type 0)
      → BlobstreamXFilterer g
      → g.WatchOpts
      → String
      → List (List Value)
      → g.Chain
      → Go (OrError g (Watch g E))
  watch_logs E f opts name rules chain = do
    contract ← or_panic f.contract
    let (feed, err) = g.watch_logs contract opts name rules chain
    elim err [
      | some e ↦ returned (none, some e)
      | none ↦ returned (
        some (record {
          phase = receiving;
          contract = contract;
          name = name;
          feed = feed;
          quit = false;
          sunk = [];
          unsubscribed = false;
        }),
        none,
      )
    ]

  unfoldable pub parse_log :
      {E : Type 0} → E → (E → g.Log → E) → BlobstreamXFilterer g → String → g.Log → Go (OrError g E)
  parse_log {E} zero_event set_raw f name log = do
    contract ← or_panic f.contract
    let (event, err) = g.unpack_log E contract zero_event name log
    elim err [ some e ↦ returned (none, some e) | none ↦ returned (some (set_raw event log), none) ]
