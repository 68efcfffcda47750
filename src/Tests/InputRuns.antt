-- ===== src/Tests/InputRuns.antt =====
-- Runs of the fetcher of circuits/input.rs against a source that knows the chain of Prover up to the
-- block 20.
use blobstreamx.Base.{ℕ, ◌-◌, ◌≡◌, refl, none, some, List, [], ◌∷◌, arith, length, drop}
use mathlib.Core.Option
use blobstreamx.Circuits.{MerkleProof, DataCommitmentProof}
use blobstreamx.Circuits.Completeness.Roots.{blocks_root}
use blobstreamx.Circuits.DataCommitment.{prove_data_commitment}
use blobstreamx.Inputs.{
  Source, hint, get_data_commitment_inputs, get_signed_header_range, zero_proof, get_signed_headers,
  get_data_commitment, get_proofs, header_hashes,
}
use blobstreamx.Inputs.Fetched.{headers_from, get_signed_header_range-all}
use blobstreamx.Inputs.Shape.{hint-IsFull}
use blobstreamx.Inputs.Accepted.{fetched_accepts}
use blobstreamx.Tests.Headers.{leaf, data_hash, source as headers_source, source-Knows}
use blobstreamx.Tests.Prover.{gadgets, gadget_laws, tree, tree_laws}

abbrev hash : ℕ → ℕ
hash h = h - 5

abbrev source : Source ℕ
source = headers_source hash

-- The hint, with zeros where the fetcher panics.
abbrev hints : ℕ → ℕ → DataCommitmentProof
hints s e = elim (hint source 2 s e) [
  | none ↦ record {
    start_header = 0;
    end_header = 0;
    data_hash_proofs = [];
    last_block_id_proofs = [];
  }
  | some p ↦ p
]

supplied : hint source 2 18 20 ≡ some (hints 18 20)
unfolding hint get_data_commitment_inputs get_signed_header_range get_signed_headers
    get_data_commitment get_proofs header_hashes
supplied = refl

fetched_accepts_example :
    prove_data_commitment gadgets tree hints 1 2 10 5 13 8
    ≡ some (blocks_root gadgets data_hash 10 3)
fetched_accepts_example =
    fetched_accepts gadgets source hash leaf data_hash (source-Knows hash (λ h l. omega arith))
      gadget_laws tree tree_laws hints 1 1 10 13 (λ s e p l m q. ground arith) (omega arith)
      (omega arith) (omega arith) (omega arith) (omega arith) (omega arith) (omega arith)

-- Past the latest safe block, 18, there are zeros, and a range of too many blocks is refused.
near_head :
    Option.map {B = ℕ × List MerkleProof}
      (λ i. (i.end_header_hash, drop 2 i.data_hash_proofs))
      (get_data_commitment_inputs source 3 16 19)
    ≡ some (13, zero_proof 34 ∷ [])
unfolding get_data_commitment_inputs get_signed_header_range get_signed_headers get_data_commitment
    get_proofs header_hashes
near_head = refl

too_long : get_data_commitment_inputs source 2 10 13 ≡ none
unfolding get_data_commitment_inputs
too_long = refl

hint-IsFull_example :
    (length (hints 18 20).data_hash_proofs ≡ 2) × (length (hints 18 20).last_block_id_proofs ≡ 2)
hint-IsFull_example = hint-IsFull source 2 18 20 (hints 18 20) (omega arith) (omega arith) supplied

get_signed_header_range-all_example :
    get_signed_header_range source 10 12 ≡ some (headers_from source 10 3)
get_signed_header_range-all_example = get_signed_header_range-all source 10 12 (omega arith)
