-- ===== src/Bindings/Events/HeaderRangeRequested.antt =====
-- The event `HeaderRangeRequested` of bindings/BlobstreamX.go.
use blobstreamx.Base.{ℕ, Bool, Option, none, some, List, [], ◌∷◌}
use blobstreamx.Bindings.Values.{bytes32, uint64, Go}
use blobstreamx.Bindings.Geth.{Geth}
use blobstreamx.Bindings.Instance.{BlobstreamXFilterer, OrError}
use blobstreamx.Bindings.Iterator
use blobstreamx.Bindings.Iterator.{Iterator}
use blobstreamx.Bindings.Watch.{Watch}
use blobstreamx.Bindings.Filterer.{rule, filter_logs, watch_logs, parse_log}

module _ (g : Geth) where
  -- The field `raw` is `none` where the struct's `Raw` is the zero log.
  pub record HeaderRangeRequested : Type 0 where
    pub trusted_block : ℕ
    pub trusted_header : ℕ
    pub target_block : ℕ
    pub raw : Option g.Log

  -- `new(BlobstreamXHeaderRangeRequested)`
  abbrev pub new_header_range_requested : HeaderRangeRequested
  new_header_range_requested = record {
    trusted_block = 0;
    trusted_header = 0;
    target_block = 0;
    raw = none;
  }

  abbrev pub set_raw : HeaderRangeRequested → g.Log → HeaderRangeRequested
  set_raw event log = record event { raw = some log }

  abbrev pub Iter : Type 0
  Iter = Iterator g HeaderRangeRequested

  unfoldable pub next : Bool → Iter → Option (Bool × Iter)
  unfolding Iterator.next
  next = Iterator.next g new_header_range_requested set_raw

  unfoldable pub error : Iter → Option g.Error
  unfolding Iterator.error
  error = Iterator.error g new_header_range_requested set_raw

  unfoldable pub close : Iter → Option g.Error × Iter
  unfolding Iterator.close
  close = Iterator.close g new_header_range_requested set_raw

  unfoldable pub filter_header_range_requested :
      BlobstreamXFilterer g
      → g.FilterOpts
      → List ℕ
      → List ℕ
      → List ℕ
      → g.Chain
      → Go (OrError g Iter)
  unfolding filter_logs
  filter_header_range_requested f opts trusted_block trusted_header target_block =
      filter_logs g HeaderRangeRequested f opts "HeaderRangeRequested"
        (rule uint64 trusted_block ∷ rule bytes32 trusted_header ∷ rule uint64 target_block ∷ [])

  unfoldable pub watch_header_range_requested :
      BlobstreamXFilterer g
      → g.WatchOpts
      → List ℕ
      → List ℕ
      → List ℕ
      → g.Chain
      → Go (OrError g (Watch g HeaderRangeRequested))
  unfolding watch_logs
  watch_header_range_requested f opts trusted_block trusted_header target_block =
      watch_logs g HeaderRangeRequested f opts "HeaderRangeRequested"
        (rule uint64 trusted_block ∷ rule bytes32 trusted_header ∷ rule uint64 target_block ∷ [])

  unfoldable pub parse_header_range_requested :
      BlobstreamXFilterer g → g.Log → Go (OrError g HeaderRangeRequested)
  unfolding parse_log
  parse_header_range_requested f =
      parse_log g new_header_range_requested set_raw f "HeaderRangeRequested"
