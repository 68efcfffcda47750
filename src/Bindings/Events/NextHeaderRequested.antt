-- ===== src/Bindings/Events/NextHeaderRequested.antt =====
-- The event `NextHeaderRequested` of bindings/BlobstreamX.go.
use blobstreamx.Base.{ℕ, Bool, Option, none, some, List, [], ◌∷◌}
use blobstreamx.Bindings.Values.{bytes32, uint64, Go}
use blobstreamx.Bindings.Geth.{Geth}
use blobstreamx.Bindings.Instance.{BlobstreamXFilterer, OrError}
use blobstreamx.Bindings.Iterator
use blobstreamx.Bindings.Iterator.{Iterator}
use blobstreamx.Bindings.Watch.{Watch}
use blobstreamx.Bindings.Filterer.{rule, filter_logs, watch_logs, parse_log}

module _ (g : Geth) where
  -- The field `raw` is `none` where the struct's `Raw` is the zero log.
  pub record NextHeaderRequested : Type 0 where
    pub trusted_block : ℕ
    pub trusted_header : ℕ
    pub raw : Option g.Log

  -- `new(BlobstreamXNextHeaderRequested)`
  abbrev pub new_next_header_requested : NextHeaderRequested
  new_next_header_requested = record { trusted_block = 0; trusted_header = 0; raw = none }

  abbrev pub set_raw : NextHeaderRequested → g.Log → NextHeaderRequested
  set_raw event log = record event { raw = some log }

  abbrev pub Iter : Type 0
  Iter = Iterator g NextHeaderRequested

  unfoldable pub next : Bool → Iter → Option (Bool × Iter)
  unfolding Iterator.next
  next = Iterator.next g new_next_header_requested set_raw

  unfoldable pub error : Iter → Option g.Error
  unfolding Iterator.error
  error = Iterator.error g new_next_header_requested set_raw

  unfoldable pub close : Iter → Option g.Error × Iter
  unfolding Iterator.close
  close = Iterator.close g new_next_header_requested set_raw

  unfoldable pub filter_next_header_requested :
      BlobstreamXFilterer g → g.FilterOpts → List ℕ → List ℕ → g.Chain → Go (OrError g Iter)
  unfolding filter_logs
  filter_next_header_requested f opts trusted_block trusted_header =
      filter_logs g NextHeaderRequested f opts "NextHeaderRequested"
        (rule uint64 trusted_block ∷ rule bytes32 trusted_header ∷ [])

  unfoldable pub watch_next_header_requested :
      BlobstreamXFilterer g
      → g.WatchOpts
      → List ℕ
      → List ℕ
      → g.Chain
      → Go (OrError g (Watch g NextHeaderRequested))
  unfolding watch_logs
  watch_next_header_requested f opts trusted_block trusted_header =
      watch_logs g NextHeaderRequested f opts "NextHeaderRequested"
        (rule uint64 trusted_block ∷ rule bytes32 trusted_header ∷ [])

  unfoldable pub parse_next_header_requested :
      BlobstreamXFilterer g → g.Log → Go (OrError g NextHeaderRequested)
  unfolding parse_log
  parse_next_header_requested f =
      parse_log g new_next_header_requested set_raw f "NextHeaderRequested"
