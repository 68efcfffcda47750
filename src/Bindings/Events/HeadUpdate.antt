-- ===== src/Bindings/Events/HeadUpdate.antt =====
-- The event `HeadUpdate` of bindings/BlobstreamX.go.
use blobstreamx.Base.{ℕ, Bool, Option, none, some, []}
use blobstreamx.Bindings.Values.{Go}
use blobstreamx.Bindings.Geth.{Geth}
use blobstreamx.Bindings.Instance.{BlobstreamXFilterer, OrError}
use blobstreamx.Bindings.Iterator
use blobstreamx.Bindings.Iterator.{Iterator}
use blobstreamx.Bindings.Watch.{Watch}
use blobstreamx.Bindings.Filterer.{filter_logs, watch_logs, parse_log}

module _ (g : Geth) where
  -- The field `raw` is `none` where the struct's `Raw` is the zero log.
  pub record HeadUpdate : Type 0 where
    pub block_number : ℕ
    pub header_hash : ℕ
    pub raw : Option g.Log

  -- `new(BlobstreamXHeadUpdate)`
  abbrev pub new_head_update : HeadUpdate
  new_head_update = record { block_number = 0; header_hash = 0; raw = none }

  abbrev pub set_raw : HeadUpdate → g.Log → HeadUpdate
  set_raw event log = record event { raw = some log }

  abbrev pub Iter : Type 0
  Iter = Iterator g HeadUpdate

  unfoldable pub next : Bool → Iter → Option (Bool × Iter)
  unfolding Iterator.next
  next = Iterator.next g new_head_update set_raw

  unfoldable pub error : Iter → Option g.Error
  unfolding Iterator.error
  error = Iterator.error g new_head_update set_raw

  unfoldable pub close : Iter → Option g.Error × Iter
  unfolding Iterator.close
  close = Iterator.close g new_head_update set_raw

  unfoldable pub filter_head_update :
      BlobstreamXFilterer g → g.FilterOpts → g.Chain → Go (OrError g Iter)
  unfolding filter_logs
  filter_head_update f opts = filter_logs g HeadUpdate f opts "HeadUpdate" []

  unfoldable pub watch_head_update :
      BlobstreamXFilterer g → g.WatchOpts → g.Chain → Go (OrError g (Watch g HeadUpdate))
  unfolding watch_logs
  watch_head_update f opts = watch_logs g HeadUpdate f opts "HeadUpdate" []

  unfoldable pub parse_head_update : BlobstreamXFilterer g → g.Log → Go (OrError g HeadUpdate)
  unfolding parse_log
  parse_head_update f = parse_log g new_head_update set_raw f "HeadUpdate"
