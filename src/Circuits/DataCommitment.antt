-- ===== src/Circuits/DataCommitment.antt =====
-- `prove_data_commitment` and `prove_next_header_data_commitment` of circuits/builder.rs. What the
-- offchain hint supplies is free: a function of the blocks that it is asked for.
pub mod Ranges
pub mod Leaves
pub mod Segments
pub mod Whole
use blobstreamx.Base.{
  ℕ, zero, suc, ◌+◌, ◌-◌, ◌*◌, ◌^◌, ◌≡◌, Option, none, some, List, [], ◌∷◌, ◌++◌, leb, ◌==◌, length,
  get_elem?,
}
use blobstreamx.Base.Bytes.{Bytes}
use blobstreamx.Circuits.{
  Gadgets, DataCommitmentProof, Subchain, ◌>>=◌, ◌>>◌, assert, add, hash_in, data_hash_path,
  encode_data_root_tuple, prove_subchain, reduce,
}
use blobstreamx.Circuits.Merkle.{merkle_root}

-- `(a..a + n).collect()`
abbrev pub range_from : (a n : ℕ) → List ℕ
range_from a zero = []
range_from a (suc n) = a ∷ range_from (a + 1) n

-- `CircuitBuilder::mapreduce` on `2 ^ depth` batches of `batch_size` inputs each.
abbrev pub MapReduce : Type 0
MapReduce =
    (depth batch_size : ℕ)
    → (List ℕ → Option Subchain)
    → (Subchain → Subchain → Option Subchain)
    → List ℕ
    → Option Subchain

-- It maps each batch, and reduces the results of the two halves of the inputs.
pub record MapReduceLaws (mapreduce : MapReduce) : Type 0 where
  pub mapreduce_batch :
      (size : ℕ) (map_stage : List ℕ → Option Subchain)
      (reduce_stage : Subchain → Subchain → Option Subchain) (inputs : List ℕ)
      → length inputs ≡ size
      → mapreduce 0 size map_stage reduce_stage inputs ≡ map_stage inputs
  pub mapreduce_halves :
      (depth size : ℕ) (map_stage : List ℕ → Option Subchain)
      (reduce_stage : Subchain → Subchain → Option Subchain) (left right : List ℕ)
      → length left ≡ 2 ^ depth * size
      → length right ≡ 2 ^ depth * size
      → mapreduce (suc depth) size map_stage reduce_stage (left ++ right) ≡ (
          mapreduce depth size map_stage reduce_stage left >>= λ l.
          mapreduce depth size map_stage reduce_stage right >>= λ r. reduce_stage l r)

module _ (g : Gadgets) where
  -- The closure of the map stage.
  unfoldable pub map_stage :
      (hint : ℕ → ℕ → DataCommitmentProof)
      → (batch_size start_block end_block end_header_hash : ℕ) → List ℕ
      → Option Subchain
  map_stage hint batch_size start_block end_block end_header_hash relative_block_nums = do
    first ← get_elem? relative_block_nums 0
    let batch_start_block = add start_block first
    last ← get_elem? relative_block_nums (batch_size - 1)
    let last_block = add start_block last
    let batch_end_block = add last_block 1
    prove_subchain g (hint batch_start_block batch_end_block) batch_start_block batch_end_block
        end_block end_header_hash

  -- `NB_MAP_JOBS` is `2 ^ depth`.
  unfoldable pub prove_data_commitment :
      MapReduce
      → (hint : ℕ → ℕ → DataCommitmentProof) → (depth batch_size : ℕ)
      → (start_block start_header_hash end_block end_header_hash : ℕ) → Option ℕ
  prove_data_commitment mapreduce hint depth batch_size start_block start_header_hash end_block
        end_header_hash =
      do
        let max_num_blocks = 2 ^ depth * batch_size
        assert (leb end_block (add start_block max_num_blocks))
        result ←
            mapreduce depth batch_size
              (map_stage hint batch_size start_block end_block end_header_hash) (reduce g)
              (range_from 0 max_num_blocks)
        assert (result.start_block == start_block)
        assert (result.start_header == start_header_hash)
        assert (result.end_block == end_block)
        assert (result.end_header == end_header_hash)
        some result.data_merkle_root

  unfoldable pub prove_next_header_data_commitment :
      (hint : ℕ → ℕ → DataCommitmentProof)
      → (prev_block_number prev_header_hash next_block_number : ℕ) → Option ℕ
  prove_next_header_data_commitment hint prev_block_number prev_header_hash next_block_number = do
    let data_comm_proof = hint prev_block_number next_block_number
    data_hash_proof ← get_elem? data_comm_proof.data_hash_proofs 0
    assert (g.root_from_proof data_hash_proof data_hash_path == prev_header_hash)
    some (g.leaf_hash (encode_data_root_tuple (hash_in data_hash_proof) prev_block_number))
