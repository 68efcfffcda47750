-- ===== src/Bindings/Events/Upgraded.antt =====
-- The event `Upgraded` of bindings/BlobstreamX.go.
use blobstreamx.Base.{ℕ, Bool, Option, none, some, List, [], ◌∷◌}
use blobstreamx.Bindings.Values.{address, Go}
use blobstreamx.Bindings.Geth.{Geth}
use blobstreamx.Bindings.Instance.{BlobstreamXFilterer, OrError}
use blobstreamx.Bindings.Iterator
use blobstreamx.Bindings.Iterator.{Iterator}
use blobstreamx.Bindings.Watch.{Watch}
use blobstreamx.Bindings.Filterer.{rule, filter_logs, watch_logs, parse_log}

module _ (g : Geth) where
  -- The field `raw` is `none` where the struct's `Raw` is the zero log.
  pub record Upgraded : Type 0 where
    pub implementation : ℕ
    pub raw : Option g.Log

  -- `new(BlobstreamXUpgraded)`
  abbrev pub new_upgraded : Upgraded
  new_upgraded = record { implementation = 0; raw = none }

  abbrev pub set_raw : Upgraded → g.Log → Upgraded
  set_raw event log = record event { raw = some log }

  abbrev pub Iter : Type 0
  Iter = Iterator g Upgraded

  unfoldable pub next : Bool → Iter → Option (Bool × Iter)
  unfolding Iterator.next
  next = Iterator.next g new_upgraded set_raw

  unfoldable pub error : Iter → Option g.Error
  unfolding Iterator.error
  error = Iterator.error g new_upgraded set_raw

  unfoldable pub close : Iter → Option g.Error × Iter
  unfolding Iterator.close
  close = Iterator.close g new_upgraded set_raw

  unfoldable pub filter_upgraded :
      BlobstreamXFilterer g → g.FilterOpts → List ℕ → g.Chain → Go (OrError g Iter)
  unfolding filter_logs
  filter_upgraded f opts implementation =
      filter_logs g Upgraded f opts "Upgraded" (rule address implementation ∷ [])

  unfoldable pub watch_upgraded :
      BlobstreamXFilterer g → g.WatchOpts → List ℕ → g.Chain → Go (OrError g (Watch g Upgraded))
  unfolding watch_logs
  watch_upgraded f opts implementation =
      watch_logs g Upgraded f opts "Upgraded" (rule address implementation ∷ [])

  unfoldable pub parse_upgraded : BlobstreamXFilterer g → g.Log → Go (OrError g Upgraded)
  unfolding parse_log
  parse_upgraded f = parse_log g new_upgraded set_raw f "Upgraded"
