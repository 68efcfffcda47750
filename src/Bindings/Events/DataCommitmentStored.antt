-- ===== src/Bindings/Events/DataCommitmentStored.antt =====
-- The event `DataCommitmentStored` of bindings/BlobstreamX.go.
use blobstreamx.Base.{ℕ, Bool, Option, none, some, List, [], ◌∷◌}
use blobstreamx.Base.Int.{ℤ}
use blobstreamx.Bindings.Values.{bytes32, uint64, Go}
use blobstreamx.Bindings.Geth.{Geth}
use blobstreamx.Bindings.Instance.{BlobstreamXFilterer, OrError}
use blobstreamx.Bindings.Iterator
use blobstreamx.Bindings.Iterator.{Iterator}
use blobstreamx.Bindings.Watch.{Watch}
use blobstreamx.Bindings.Filterer.{rule, filter_logs, watch_logs, parse_log}

module _ (g : Geth) where
  -- The field `raw` is `none` where the struct's `Raw` is the zero log.
  pub record DataCommitmentStored : Type 0 where
    pub proof_nonce : Option ℤ
    pub start_block : ℕ
    pub end_block : ℕ
    pub data_commitment : ℕ
    pub raw : Option g.Log

  -- `new(BlobstreamXDataCommitmentStored)`
  abbrev pub new_data_commitment_stored : DataCommitmentStored
  new_data_commitment_stored = record {
    proof_nonce = none;
    start_block = 0;
    end_block = 0;
    data_commitment = 0;
    raw = none;
  }

  abbrev pub set_raw : DataCommitmentStored → g.Log → DataCommitmentStored
  set_raw event log = record event { raw = some log }

  abbrev pub Iter : Type 0
  Iter = Iterator g DataCommitmentStored

  unfoldable pub next : Bool → Iter → Option (Bool × Iter)
  unfolding Iterator.next
  next = Iterator.next g new_data_commitment_stored set_raw

  unfoldable pub error : Iter → Option g.Error
  unfolding Iterator.error
  error = Iterator.error g new_data_commitment_stored set_raw

  unfoldable pub close : Iter → Option g.Error × Iter
  unfolding Iterator.close
  close = Iterator.close g new_data_commitment_stored set_raw

  unfoldable pub filter_data_commitment_stored :
      BlobstreamXFilterer g
      → g.FilterOpts
      → List ℕ
      → List ℕ
      → List ℕ
      → g.Chain
      → Go (OrError g Iter)
  unfolding filter_logs
  filter_data_commitment_stored f opts start_block end_block data_commitment =
      filter_logs g DataCommitmentStored f opts "DataCommitmentStored"
        (rule uint64 start_block ∷ rule uint64 end_block ∷ rule bytes32 data_commitment ∷ [])

  unfoldable pub watch_data_commitment_stored :
      BlobstreamXFilterer g
      → g.WatchOpts
      → List ℕ
      → List ℕ
      → List ℕ
      → g.Chain
      → Go (OrError g (Watch g DataCommitmentStored))
  unfolding watch_logs
  watch_data_commitment_stored f opts start_block end_block data_commitment =
      watch_logs g DataCommitmentStored f opts "DataCommitmentStored"
        (rule uint64 start_block ∷ rule uint64 end_block ∷ rule bytes32 data_commitment ∷ [])

  unfoldable pub parse_data_commitment_stored :
      BlobstreamXFilterer g → g.Log → Go (OrError g DataCommitmentStored)
  unfolding parse_log
  parse_data_commitment_stored f =
      parse_log g new_data_commitment_stored set_raw f "DataCommitmentStored"
