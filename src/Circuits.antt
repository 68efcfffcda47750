-- ===== src/Circuits.antt =====
-- The circuits of circuits/builder.rs, as functions on the values of their wires: a circuit whose
-- assertions hold gives its output, and one with an assertion that fails gives `none`. A
-- `Bytes32Variable` is a number, a `U64Variable` one whose operations wrap.
pub mod Chain
pub mod Soundness
pub mod Reduction
pub mod Tuples
pub mod Merkle
pub mod DataCommitment
pub mod Programs
pub mod Entrypoints
pub mod Completeness
use blobstreamx.Base.{
  ℕ, zero, suc, ◌+◌, ◌-◌, ◌%◌, ◌^◌, Bool, true, false, not, ◌||◌, ◌&&◌, Option, none, some, List,
  [], ◌∷◌, ◌++◌, map, ◌==◌, ltb, leb, if◌then◌else◌, take, drop, length,
}
use blobstreamx.Base.Bytes.{Bytes, be_bytes, of_be_bytes}

-- `MerkleInclusionProofVariable`
pub record MerkleProof : Type 0 where
  pub leaf : Bytes
  pub aunts : List ℕ

-- The gadgets of the circuit builder that the circuits call.
pub record Gadgets : Type 0 where
  -- `get_root_from_merkle_proof`, with the path from the leaf up
  pub root_from_proof : MerkleProof → List Bool → ℕ
  -- `compute_root_from_leaves` over the first of the leaves, as many as are enabled
  pub root_from_leaves : List Bytes → ℕ → ℕ
  pub sha256 : Bytes → ℕ
  pub leaf_hash : Bytes → ℕ

-- `DataCommitmentProofVariable`
pub record DataCommitmentProof : Type 0 where
  pub start_header : ℕ
  pub end_header : ℕ
  pub data_hash_proofs : List MerkleProof
  pub last_block_id_proofs : List MerkleProof

-- `MapReduceSubchainVariable`
pub record Subchain : Type 0 where
  pub is_enabled : Bool
  pub start_block : ℕ
  pub start_header : ℕ
  pub end_block : ℕ
  pub end_header : ℕ
  pub data_merkle_root : ℕ

infixl 5 ◌>>=◌ ◌>>◌
abbrev pub ◌>>=◌ {ℓ κ} : {A : Type ℓ} {B : Type κ} → Option A → (A → Option B) → Option B
none >>= f = none
some a >>= f = f a

abbrev pub ◌>>◌ {ℓ} : {B : Type ℓ} → Option (Unit {0}) → Option B → Option B
m >> k = m >>= λ _. k

-- `assert_is_equal(b, true)`
abbrev pub assert : Bool → Option (Unit {0})
assert true = some tt
assert false = none

-- Addition and subtraction of `U64Variable`s.
abbrev pub add : ℕ → ℕ → ℕ
add a b = (a + b) % 2 ^ 64

abbrev pub sub : ℕ → ℕ → ℕ
sub a b = (a + (2 ^ 64 - b)) % 2 ^ 64

-- `encode_data_root_tuple`: 24 zeros, the height and the data hash.
unfoldable pub encode_data_root_tuple : (data_hash height : ℕ) → Bytes
encode_data_root_tuple data_hash height =
    be_bytes 24 0 ++ (be_bytes 8 height ++ be_bytes 32 data_hash)

-- The hash in a leaf, `leaf[2..2 + HASH_SIZE]`.
abbrev pub hash_in : MerkleProof → ℕ
hash_in p = of_be_bytes (take 32 (drop 2 p.leaf))

abbrev pub data_hash_path : List Bool
data_hash_path = false ∷ true ∷ true ∷ false ∷ []

abbrev pub last_block_id_path : List Bool
last_block_id_path = false ∷ false ∷ true ∷ false ∷ []

-- The leaves of the data hashes, the first at the block `start_block + i`.
abbrev pub leaves_from : ℕ → ℕ → List ℕ → List Bytes
leaves_from start_block i [] = []
leaves_from start_block i (d ∷ ds) =
    encode_data_root_tuple d (add start_block i) ∷ leaves_from start_block (i + 1) ds

module _ (g : Gadgets) where
  unfoldable pub get_data_commitment : List ℕ → (start_block end_block : ℕ) → Option ℕ
  get_data_commitment data_hashes start_block end_block = do
    assert (leb start_block end_block)
    let nb_blocks_in_batch = sub end_block start_block
    assert (ltb nb_blocks_in_batch (2 ^ 32))
    some (g.root_from_leaves (leaves_from start_block 0 data_hashes) nb_blocks_in_batch)

  module _ (batch_start_block last_block_to_process global_end_header_hash : ℕ) where
    -- One round of the loop of `prove_subchain`, from the flag `curr_block_enabled` and the hash
    -- `curr_header` to the next.
    unfoldable pub verify_block :
        (i : ℕ)
        → (data_hash_proof last_block_id_proof : MerkleProof) → (curr_block_enabled : Bool)
        → (curr_header : ℕ) → Option (Bool × ℕ)
    verify_block i data_hash_proof last_block_id_proof curr_block_enabled curr_header = do
      let is_last_block = last_block_to_process == add batch_start_block i
      let data_hash_proof_root = g.root_from_proof data_hash_proof data_hash_path
      let last_block_id_proof_root = g.root_from_proof last_block_id_proof last_block_id_path
      let header_hash = hash_in last_block_id_proof
      assert (not curr_block_enabled || curr_header == header_hash)
      assert (not curr_block_enabled || data_hash_proof_root == header_hash)
      assert (not is_last_block || last_block_id_proof_root == global_end_header_hash)
      some (
        curr_block_enabled && not is_last_block,
        if curr_block_enabled then last_block_id_proof_root else curr_header,
      )

    -- The loop, from its round `i`; the two arrays have the length `BATCH_SIZE`.
    unfoldable pub verify_blocks :
        ℕ
        → (data_hash_proofs last_block_id_proofs : List MerkleProof) → Bool
        → ℕ
        → Option (Bool × ℕ)
    unfolding verify_block
    verify_blocks i [] [] enabled header = some (enabled, header)
    verify_blocks i (p ∷ ps) (q ∷ qs) enabled header = do
      (enabled', header') ← verify_block i p q enabled header
      verify_blocks (i + 1) ps qs enabled' header'
    verify_blocks i _ _ enabled header = none

  unfoldable pub prove_subchain :
      DataCommitmentProof
      → (batch_start_block batch_end_block global_end_block global_end_header_hash : ℕ)
      → Option Subchain
  unfolding verify_blocks get_data_commitment
  prove_subchain proof batch_start_block batch_end_block global_end_block global_end_header_hash =
      do
        let is_batch_enabled = ltb batch_start_block global_end_block
        let last_block_to_process = sub global_end_block 1
        (curr_block_enabled, curr_header) ←
            verify_blocks batch_start_block last_block_to_process global_end_header_hash 0
              proof.data_hash_proofs proof.last_block_id_proofs is_batch_enabled proof.start_header
        assert (not curr_block_enabled || curr_header == proof.end_header)
        let temp_end_block_num =
            if ltb batch_end_block global_end_block then batch_end_block else global_end_block
        let end_block_num =
            if ltb temp_end_block_num batch_start_block
            then batch_start_block
            else temp_end_block_num
        data_merkle_root ←
            get_data_commitment (map hash_in proof.data_hash_proofs) batch_start_block end_block_num
        some (record {
          is_enabled = is_batch_enabled;
          start_block = batch_start_block;
          start_header = proof.start_header;
          end_block = end_block_num;
          end_header = curr_header;
          data_merkle_root = data_merkle_root;
        })

  -- The reduce stage of `prove_data_commitment`.
  unfoldable pub reduce : (left_subchain right_subchain : Subchain) → Option Subchain
  reduce left_subchain right_subchain = do
    let disabled = not right_subchain.is_enabled
    assert (
        disabled
        || (left_subchain.end_header == right_subchain.start_header
            && left_subchain.end_block == right_subchain.start_block))
    let computed = g.sha256 (
        1 ∷ be_bytes 32 left_subchain.data_merkle_root
        ++ be_bytes 32 right_subchain.data_merkle_root)
    some (record {
      is_enabled = left_subchain.is_enabled;
      start_block = left_subchain.start_block;
      start_header = left_subchain.start_header;
      end_block = if disabled then left_subchain.end_block else right_subchain.end_block;
      end_header = if disabled then left_subchain.end_header else right_subchain.end_header;
      data_merkle_root = if disabled then left_subchain.data_merkle_root else computed;
    })
