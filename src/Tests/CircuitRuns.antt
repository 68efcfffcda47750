-- ===== src/Tests/CircuitRuns.antt =====
-- Runs of the circuits of circuits/builder.rs with gadgets that read the root of a Merkle proof off
-- its first aunt: the headers 5, 6 and 7 at the heights 10, 11 and 12 with the data hashes 100 and
-- 101.
use blobstreamx.Base.{ℕ, ◌≡◌, ◌≤◌, ◌<◌, ◌⊎◌, refl, true, some, List, [], ◌∷◌, arith}
use blobstreamx.Base.Bytes.{be_bytes, le_bytes, of_be_bytes, of_le_bytes}
use blobstreamx.Circuits
use blobstreamx.Circuits.{
  MerkleProof, Gadgets, DataCommitmentProof, Subchain, prove_subchain, reduce, leaves_from,
}
use blobstreamx.Circuits.Chain.{Chain}
use blobstreamx.Circuits.Soundness.{prove_subchain-Chain}
use blobstreamx.Circuits.Tuples.{encode_data_root_tuple_agrees}
use blobstreamx.Contract.Abi

abbrev first : List ℕ → ℕ
first [] = 0
first (n ∷ ns) = n

abbrev gadgets : Gadgets
gadgets = record {
  root_from_proof = λ p path. first p.aunts;
  root_from_leaves = λ leaves enabled. enabled;
  sha256 = λ bytes. 8;
  leaf_hash = λ bytes. 4;
}

abbrev merkle_proof : (hash root : ℕ) → MerkleProof
merkle_proof hash root = record { leaf = 10 ∷ 32 ∷ be_bytes 32 hash; aunts = root ∷ [] }

abbrev batch : DataCommitmentProof
batch = record {
  start_header = 5;
  end_header = 7;
  data_hash_proofs = merkle_proof 100 5 ∷ merkle_proof 101 6 ∷ [];
  last_block_id_proofs = merkle_proof 5 6 ∷ merkle_proof 6 7 ∷ [];
}

abbrev subchain : Subchain
subchain = record {
  is_enabled = true;
  start_block = 10;
  start_header = 5;
  end_block = 12;
  end_header = 7;
  data_merkle_root = 2;
}

batch_proved : prove_subchain gadgets batch 10 12 12 7 ≡ some subchain
unfolding prove_subchain be_bytes le_bytes of_be_bytes of_le_bytes
batch_proved = refl

prove_subchain-Chain_example :
    Chain gadgets 5 (100 ∷ 101 ∷ []) 7
    × (((12 < 12) × (subchain.end_block ≡ 12))
        ⊎ ((12 ≤ 12) × (subchain.end_block ≡ 12) × (subchain.end_header ≡ 7)))
    × (subchain.data_merkle_root ≡ 2)
unfolding be_bytes le_bytes of_be_bytes of_le_bytes
prove_subchain-Chain_example =
    prove_subchain-Chain gadgets batch 10 12 7 subchain (omega arith) batch_proved refl

abbrev left : Subchain
left = record {
  is_enabled = true;
  start_block = 10;
  start_header = 5;
  end_block = 11;
  end_header = 6;
  data_merkle_root = 1;
}

abbrev right : Subchain
right = record {
  is_enabled = true;
  start_block = 11;
  start_header = 6;
  end_block = 12;
  end_header = 7;
  data_merkle_root = 1;
}

abbrev joined : Subchain
joined = record subchain { data_merkle_root = 8 }

reduced : reduce gadgets left right ≡ some joined
unfolding reduce
reduced = refl

encode_data_root_tuple_agrees_example :
    Circuits.encode_data_root_tuple 77 10
    ≡ Abi.encode_data_root_tuple (record { height = 10; data_root = 77 })
encode_data_root_tuple_agrees_example = encode_data_root_tuple_agrees 77 10 (omega arith)
