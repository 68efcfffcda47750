-- ===== src/Bindings/Events/Initialized.antt =====
-- The event `Initialized` of bindings/BlobstreamX.go.
use blobstreamx.Base.{ℕ, Bool, Option, none, some, []}
use blobstreamx.Bindings.Values.{Go}
use blobstreamx.Bindings.Geth.{Geth}
use blobstreamx.Bindings.Instance.{BlobstreamXFilterer, OrError}
use blobstreamx.Bindings.Iterator
use blobstreamx.Bindings.Iterator.{Iterator}
use blobstreamx.Bindings.Watch.{Watch}
use blobstreamx.Bindings.Filterer.{filter_logs, watch_logs, parse_log}

module _ (g : Geth) where
  -- The field `raw` is `none` where the struct's `Raw` is the zero log.
  pub record Initialized : Type 0 where
    pub version : ℕ
    pub raw : Option g.Log

  -- `new(BlobstreamXInitialized)`
  abbrev pub new_initialized : Initialized
  new_initialized = record { version = 0; raw = none }

  abbrev pub set_raw : Initialized → g.Log → Initialized
  set_raw event log = record event { raw = some log }

  abbrev pub Iter : Type 0
  Iter = Iterator g Initialized

  unfoldable pub next : Bool → Iter → Option (Bool × Iter)
  unfolding Iterator.next
  next = Iterator.next g new_initialized set_raw

  unfoldable pub error : Iter → Option g.Error
  unfolding Iterator.error
  error = Iterator.error g new_initialized set_raw

  unfoldable pub close : Iter → Option g.Error × Iter
  unfolding Iterator.close
  close = Iterator.close g new_initialized set_raw

  unfoldable pub filter_initialized :
      BlobstreamXFilterer g → g.FilterOpts → g.Chain → Go (OrError g Iter)
  unfolding filter_logs
  filter_initialized f opts = filter_logs g Initialized f opts "Initialized" []

  unfoldable pub watch_initialized :
      BlobstreamXFilterer g → g.WatchOpts → g.Chain → Go (OrError g (Watch g Initialized))
  unfolding watch_logs
  watch_initialized f opts = watch_logs g Initialized f opts "Initialized" []

  unfoldable pub parse_initialized : BlobstreamXFilterer g → g.Log → Go (OrError g Initialized)
  unfolding parse_log
  parse_initialized f = parse_log g new_initialized set_raw f "Initialized"
