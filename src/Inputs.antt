-- ===== src/Inputs.antt =====
-- The inputs of the data commitment circuits: the fetcher of circuits/input.rs and the hint of
-- circuits/data_commitment.rs that calls it. A panic is `none`.
pub mod Fetched
pub mod Shape
pub mod Supplied
pub mod Accepted
use Prim.Native.Nat.{min}
use blobstreamx.Base.{
  ℕ, zero, suc, ◌+◌, ◌-◌, Bool, Option, none, some, List, [], ◌∷◌, ◌++◌, map, length, get_elem?,
  leb, ltb, if◌then◌else◌,
}
use blobstreamx.Base.Bytes.{Bytes, be_bytes}
use blobstreamx.Circuits.{MerkleProof, DataCommitmentProof, ◌>>=◌, ◌>>◌, assert, add, sub}
use blobstreamx.Circuits.DataCommitment.{range_from}

-- What the fetcher takes from the RPC client and from tendermintx, where `H` is a signed header.
pub record Source (H : Type 0) : Type 0 where
  pub latest_block_number : ℕ
  pub signed_header_from_number : ℕ → H
  pub hash : H → ℕ
  -- the data hash and the last block id, encoded as leaves of the header's tree
  pub data_hash : H → Option Bytes
  pub last_block_id : H → Bytes
  pub inclusion_proof : H → (index : ℕ) → Bytes → MerkleProof
  -- the route `data_commitment`
  pub request_data_commitment : (start_block end_block : ℕ) → Option ℕ

pub record DataCommitmentInputs : Type 0 where
  pub start_header_hash : ℕ
  pub end_header_hash : ℕ
  pub data_hash_proofs : List MerkleProof
  pub last_block_id_proofs : List MerkleProof
  pub expected_data_commitment : ℕ

abbrev pub max_batch_size : ℕ
max_batch_size = 200

abbrev pub last_block_id_index : ℕ
last_block_id_index = 4

abbrev pub data_hash_index : ℕ
data_hash_index = 6

-- A proof of zeros with a leaf of `size` bytes.
abbrev pub zero_proof : (size : ℕ) → MerkleProof
zero_proof size = record { leaf = be_bytes size 0; aunts = 0 ∷ 0 ∷ 0 ∷ 0 ∷ [] }

abbrev pub replicate {ℓ} : {A : Type ℓ} → ℕ → A → List A
replicate zero x = []
replicate (suc n) x = x ∷ replicate n x

module _ {H : Type 0} (source : Source H) where
  unfoldable pub get_data_commitment : (start_block end_block : ℕ) → Option ℕ
  get_data_commitment start_block end_block =
      if leb end_block start_block
      then some 0
      else source.request_data_commitment start_block end_block

  -- The loop of `get_signed_header_range`.
  unfoldable pub get_signed_headers : (fuel curr_block end_block_number : ℕ) → Option (List H)
  get_signed_headers zero curr_block end_block_number = none
  get_signed_headers (suc fuel) curr_block end_block_number =
      let rest = get_signed_headers fuel (add curr_block max_batch_size) end_block_number in
      let batch_end_block = min (add curr_block max_batch_size) (add end_block_number 1) in
      let batch =
        map source.signed_header_from_number
          (range_from curr_block (batch_end_block - curr_block)) in
      if leb curr_block end_block_number
      then (rest >>= λ signed_headers. some (batch ++ signed_headers))
      else some []

  unfoldable pub get_signed_header_range :
      (start_block_number end_block_number : ℕ) → Option (List H)
  unfolding get_signed_headers
  get_signed_header_range start_block_number end_block_number =
      get_signed_headers (suc (end_block_number + 1 - start_block_number)) start_block_number
        end_block_number

  abbrev pub data_hash_proof : H → Option MerkleProof
  data_hash_proof header = do
    data_hash ← source.data_hash header
    some (source.inclusion_proof header data_hash_index data_hash)

  abbrev pub last_block_id_proof : H → MerkleProof
  last_block_id_proof header =
      source.inclusion_proof header last_block_id_index (source.last_block_id header)

  -- The loop of `get_data_commitment_inputs` over `n` blocks from `i` on.
  unfoldable pub get_proofs :
      List H
      → (start_block_number request_end_block_number i n : ℕ)
      → Option (List MerkleProof × List MerkleProof)
  get_proofs signed_headers start request_end i zero = some ([], [])
  get_proofs signed_headers start request_end i (suc n) = do
    signed_header ← get_elem? signed_headers (i - start)
    data_hash_proofs ←
        (if ltb i request_end
          then (data_hash_proof signed_header >>= λ p. some (p ∷ []))
          else some [])
    let last_block_id_proofs = if ltb start i then last_block_id_proof signed_header ∷ [] else []
    (ps, qs) ← get_proofs signed_headers start request_end (i + 1) n
    some (data_hash_proofs ++ ps, last_block_id_proofs ++ qs)

  -- The hashes of the first and the last header, zeros for an empty range.
  unfoldable pub header_hashes :
      List H → (start_block_number request_end_block_number : ℕ) → Option (ℕ × ℕ)
  header_hashes signed_headers start request_end = do
    let first = get_elem? signed_headers 0
    let last = get_elem? signed_headers (length signed_headers - 1)
    if ltb start request_end
        then (first >>= λ f. last >>= λ l. some (source.hash f, source.hash l))
        else some (0, 0)

  unfoldable pub get_data_commitment_inputs :
      (max_leaves start_block_number end_block_number : ℕ) → Option DataCommitmentInputs
  unfolding get_data_commitment get_signed_header_range get_proofs header_hashes
  get_data_commitment_inputs max_leaves start_block_number end_block_number = do
    assert (leb (sub end_block_number start_block_number) max_leaves)
    let latest_safe_block_number = sub source.latest_block_number 2
    let request_end_block_number = min end_block_number latest_safe_block_number
    signed_headers ← get_signed_header_range start_block_number request_end_block_number
    (data_hash_proofs, last_block_id_proofs) ←
        get_proofs signed_headers start_block_number request_end_block_number start_block_number
          (add request_end_block_number 1 - start_block_number)
    let num_missing = max_leaves - length data_hash_proofs
    expected ← get_data_commitment start_block_number request_end_block_number
    (start_header, end_header) ←
        header_hashes signed_headers start_block_number request_end_block_number
    some (record {
      start_header_hash = start_header;
      end_header_hash = end_header;
      data_hash_proofs = data_hash_proofs ++ replicate num_missing (zero_proof 34);
      last_block_id_proofs = last_block_id_proofs ++ replicate num_missing (zero_proof 72);
      expected_data_commitment = expected;
    })

  -- `DataCommitmentOffchainInputs::hint`
  unfoldable pub hint : (max_leaves start_block end_block : ℕ) → Option DataCommitmentProof
  unfolding get_data_commitment_inputs
  hint max_leaves start_block end_block = do
    result ← get_data_commitment_inputs max_leaves start_block end_block
    some (record {
      start_header = result.start_header_hash;
      end_header = result.end_header_hash;
      data_hash_proofs = result.data_hash_proofs;
      last_block_id_proofs = result.last_block_id_proofs;
    })
