-- ===== src/Bindings/Events/BeaconUpgraded.antt =====
-- The event `BeaconUpgraded` of bindings/BlobstreamX.go.
use blobstreamx.Base.{ℕ, Bool, Option, none, some, List, [], ◌∷◌}
use blobstreamx.Bindings.Values.{address, Go}
use blobstreamx.Bindings.Geth.{Geth}
use blobstreamx.Bindings.Instance.{BlobstreamXFilterer, OrError}
use blobstreamx.Bindings.Iterator
use blobstreamx.Bindings.Iterator.{Iterator}
use blobstreamx.Bindings.Watch.{Watch}
use blobstreamx.Bindings.Filterer.{rule, filter_logs, watch_logs, parse_log}

module _ (g : Geth) where
  -- The field `raw` is `none` where the struct's `Raw` is the zero log.
  pub record BeaconUpgraded : Type 0 where
    pub beacon : ℕ
    pub raw : Option g.Log

  -- `new(BlobstreamXBeaconUpgraded)`
  abbrev pub new_beacon_upgraded : BeaconUpgraded
  new_beacon_upgraded = record { beacon = 0; raw = none }

  abbrev pub set_raw : BeaconUpgraded → g.Log → BeaconUpgraded
  set_raw event log = record event { raw = some log }

  abbrev pub Iter : Type 0
  Iter = Iterator g BeaconUpgraded

  unfoldable pub next : Bool → Iter → Option (Bool × Iter)
  unfolding Iterator.next
  next = Iterator.next g new_beacon_upgraded set_raw

  unfoldable pub error : Iter → Option g.Error
  unfolding Iterator.error
  error = Iterator.error g new_beacon_upgraded set_raw

  unfoldable pub close : Iter → Option g.Error × Iter
  unfolding Iterator.close
  close = Iterator.close g new_beacon_upgraded set_raw

  unfoldable pub filter_beacon_upgraded :
      BlobstreamXFilterer g → g.FilterOpts → List ℕ → g.Chain → Go (OrError g Iter)
  unfolding filter_logs
  filter_beacon_upgraded f opts beacon =
      filter_logs g BeaconUpgraded f opts "BeaconUpgraded" (rule address beacon ∷ [])

  unfoldable pub watch_beacon_upgraded :
      BlobstreamXFilterer g
      → g.WatchOpts
      → List ℕ
      → g.Chain
      → Go (OrError g (Watch g BeaconUpgraded))
  unfolding watch_logs
  watch_beacon_upgraded f opts beacon =
      watch_logs g BeaconUpgraded f opts "BeaconUpgraded" (rule address beacon ∷ [])

  unfoldable pub parse_beacon_upgraded :
      BlobstreamXFilterer g → g.Log → Go (OrError g BeaconUpgraded)
  unfolding parse_log
  parse_beacon_upgraded f = parse_log g new_beacon_upgraded set_raw f "BeaconUpgraded"
