-- ===== src/Bindings/Events/AdminChanged.antt =====
-- The event `AdminChanged` of bindings/BlobstreamX.go.
use blobstreamx.Base.{ℕ, Bool, Option, none, some, []}
use blobstreamx.Bindings.Values.{Go}
use blobstreamx.Bindings.Geth.{Geth}
use blobstreamx.Bindings.Instance.{BlobstreamXFilterer, OrError}
use blobstreamx.Bindings.Iterator
use blobstreamx.Bindings.Iterator.{Iterator}
use blobstreamx.Bindings.Watch.{Watch}
use blobstreamx.Bindings.Filterer.{filter_logs, watch_logs, parse_log}

module _ (g : Geth) where
  -- The field `raw` is `none` where the struct's `Raw` is the zero log.
  pub record AdminChanged : Type 0 where
    pub previous_admin : ℕ
    pub new_admin : ℕ
    pub raw : Option g.Log

  -- `new(BlobstreamXAdminChanged)`
  abbrev pub new_admin_changed : AdminChanged
  new_admin_changed = record { previous_admin = 0; new_admin = 0; raw = none }

  abbrev pub set_raw : AdminChanged → g.Log → AdminChanged
  set_raw event log = record event { raw = some log }

  abbrev pub Iter : Type 0
  Iter = Iterator g AdminChanged

  unfoldable pub next : Bool → Iter → Option (Bool × Iter)
  unfolding Iterator.next
  next = Iterator.next g new_admin_changed set_raw

  unfoldable pub error : Iter → Option g.Error
  unfolding Iterator.error
  error = Iterator.error g new_admin_changed set_raw

  unfoldable pub close : Iter → Option g.Error × Iter
  unfolding Iterator.close
  close = Iterator.close g new_admin_changed set_raw

  unfoldable pub filter_admin_changed :
      BlobstreamXFilterer g → g.FilterOpts → g.Chain → Go (OrError g Iter)
  unfolding filter_logs
  filter_admin_changed f opts = filter_logs g AdminChanged f opts "AdminChanged" []

  unfoldable pub watch_admin_changed :
      BlobstreamXFilterer g → g.WatchOpts → g.Chain → Go (OrError g (Watch g AdminChanged))
  unfolding watch_logs
  watch_admin_changed f opts = watch_logs g AdminChanged f opts "AdminChanged" []

  unfoldable pub parse_admin_changed : BlobstreamXFilterer g → g.Log → Go (OrError g AdminChanged)
  unfolding parse_log
  parse_admin_changed f = parse_log g new_admin_changed set_raw f "AdminChanged"
