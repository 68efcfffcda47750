-- ===== src/Circuits/Programs.antt =====
-- The two circuits whose proofs the contract accepts, `CombinedSkipCircuit` of
-- circuits/header_range.rs and `CombinedStepCircuit` of circuits/next_header.rs, and the standalone
-- `DataCommitmentCircuit` of circuits/data_commitment.rs, from the bytes of their input to those of
-- their output.
pub mod Soundness
pub mod Acceptance
pub mod Standalone
use blobstreamx.Base.{ℕ, ◌*◌, ◌^◌, ◌≡◌, ◌≤◌, ◌<◌, Option, none, some, List, ◌++◌, leb, length}
use blobstreamx.Base.Bytes.{Bytes, be_bytes}
use blobstreamx.Circuits.{Gadgets, DataCommitmentProof, ◌>>=◌, ◌>>◌, assert, add}
use blobstreamx.Circuits.Chain.{HasLastBlock}
use blobstreamx.Circuits.DataCommitment.{
  MapReduce, MapReduceLaws, prove_data_commitment, prove_next_header_data_commitment,
}
use blobstreamx.Circuits.DataCommitment.Leaves.{GadgetLaws}

-- What the circuits take from the proving library and from tendermintx.
pub record Library : Type 0 where
  pub gadgets : Gadgets
  pub mapreduce : MapReduce
  -- `evm_read` of a `U64Variable` and of a `Bytes32Variable`, with what is left of the input
  pub evm_read_u64 : Bytes → Option (ℕ × Bytes)
  pub evm_read_bytes32 : Bytes → Option (ℕ × Bytes)
  -- what `evm_write` appends to the output
  pub evm_write_bytes32 : ℕ → Bytes
  -- `skip` with `SKIP_MAX`: the header hash of the target block
  pub skip : (skip_max trusted_block trusted_header_hash target_block : ℕ) → Option ℕ
  -- `step`: the header hash of the next block
  pub step : (prev_block_number prev_header_hash : ℕ) → Option ℕ
  -- `DataCommitmentOffchainInputs` with the arrays' length
  pub hint : (max_leaves start_block end_block : ℕ) → DataCommitmentProof

-- Numbers are read and written big-endian, hashes have 256 bits, arrays have their length, and a
-- step goes to a header that names the previous one.
pub record LibraryLaws (lib : Library) : Type 0 where
  pub gadget_laws : GadgetLaws lib.gadgets
  pub mapreduce_laws : MapReduceLaws lib.mapreduce
  pub evm_read_u64_lem :
      (n : ℕ) (rest : Bytes) → n < 2 ^ 64 → lib.evm_read_u64 (be_bytes 8 n ++ rest) ≡ some (n, rest)
  pub evm_read_bytes32_lem :
      (n : ℕ) (rest : Bytes)
      → n < 2 ^ 256
      → lib.evm_read_bytes32 (be_bytes 32 n ++ rest) ≡ some (n, rest)
  pub evm_write_bytes32_lem : (n : ℕ) → n < 2 ^ 256 → lib.evm_write_bytes32 n ≡ be_bytes 32 n
  pub sha256-lt : (bytes : Bytes) → lib.gadgets.sha256 bytes < 2 ^ 256
  pub leaf_hash-lt : (bytes : Bytes) → lib.gadgets.leaf_hash bytes < 2 ^ 256
  pub skip-lt : (m b h t hash : ℕ) → lib.skip m b h t ≡ some hash → hash < 2 ^ 256
  pub step-lt : (b h hash : ℕ) → lib.step b h ≡ some hash → hash < 2 ^ 256
  pub step_links : (b h hash : ℕ) → lib.step b h ≡ some hash → HasLastBlock lib.gadgets hash h
  pub length-hint : (n s e : ℕ) → length (lib.hint n s e).data_hash_proofs ≡ n

module _ (lib : Library) where
  -- `CombinedSkipCircuit::define`, with `NB_MAP_JOBS = 2 ^ depth`.
  unfoldable pub combined_skip : (skip_max depth batch_size : ℕ) → Bytes → Option Bytes
  combined_skip skip_max depth batch_size input = do
    (trusted_block, input') ← lib.evm_read_u64 input
    (trusted_header_hash, input'') ← lib.evm_read_bytes32 input'
    (target_block, rest) ← lib.evm_read_u64 input''
    assert (leb (2 ^ depth * batch_size) skip_max)
    target_header_hash ← lib.skip skip_max trusted_block trusted_header_hash target_block
    data_commitment ←
        prove_data_commitment lib.gadgets lib.mapreduce (lib.hint batch_size) depth batch_size
          trusted_block trusted_header_hash target_block target_header_hash
    some (lib.evm_write_bytes32 target_header_hash ++ lib.evm_write_bytes32 data_commitment)

  -- `CombinedStepCircuit::define`
  unfoldable pub combined_step : Bytes → Option Bytes
  combined_step input = do
    (prev_block_number, input') ← lib.evm_read_u64 input
    (prev_header_hash, rest) ← lib.evm_read_bytes32 input'
    let next_block_number = add prev_block_number 1
    next_header_hash ← lib.step prev_block_number prev_header_hash
    data_commitment ←
        prove_next_header_data_commitment lib.gadgets (lib.hint 1) prev_block_number
          prev_header_hash next_block_number
    some (lib.evm_write_bytes32 next_header_hash ++ lib.evm_write_bytes32 data_commitment)

  -- `DataCommitmentCircuit::define`
  unfoldable pub data_commitment_circuit : (depth batch_size : ℕ) → Bytes → Option Bytes
  data_commitment_circuit depth batch_size input = do
    (start_block_number, after_start) ← lib.evm_read_u64 input
    (start_header_hash, after_header) ← lib.evm_read_bytes32 after_start
    (end_block_number, after_end) ← lib.evm_read_u64 after_header
    (end_header_hash, rest) ← lib.evm_read_bytes32 after_end
    data_commitment ←
        prove_data_commitment lib.gadgets lib.mapreduce (lib.hint batch_size) depth batch_size
          start_block_number start_header_hash end_block_number end_header_hash
    some (lib.evm_write_bytes32 data_commitment)
