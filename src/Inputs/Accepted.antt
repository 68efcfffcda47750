-- ===== src/Inputs/Accepted.antt =====
-- That the circuit of circuits/builder.rs accepts what the hint of circuits/data_commitment.rs
-- supplies for a chain that its source knows.
use blobstreamx.Base.{ℕ, ◌+◌, ◌-◌, ◌*◌, ◌≡◌, ◌≤◌, ◌<◌, ◌^◌, some, arith}
use blobstreamx.Base.Bytes.{Bytes}
use blobstreamx.Circuits.{Gadgets, DataCommitmentProof}
use blobstreamx.Circuits.Completeness.Roots.{blocks_root}
use blobstreamx.Circuits.Completeness.Whole.{prove_data_commitment_accepts}
use blobstreamx.Circuits.Merkle.{two_pow_pos}
use blobstreamx.Circuits.DataCommitment.{MapReduce, MapReduceLaws, prove_data_commitment}
use blobstreamx.Circuits.DataCommitment.Leaves.{GadgetLaws}
use blobstreamx.Inputs.{Source, hint}
use blobstreamx.Inputs.Supplied.{Knows, hint-Supplied}

module _ {H : Type 0} (g : Gadgets) (source : Source H) (hash : ℕ → ℕ) (leaf : ℕ → Bytes)
    (data_hash : ℕ → ℕ) where
  -- The source knows a chain up to its latest block, with valid proofs, and the builder's gadgets
  -- obey their laws. A range of the chain that is not empty, starts above block 0, is at most as long
  -- as all batches together and ends at least 2 blocks below the source's latest block is accepted
  -- with the hashes of its two ends, when the hint of the circuit is the fetcher of the source, and
  -- the result is the Merkle root of the tuples of the chain's heights and data hashes in this range.
  -- Batches and jobs are powers of two, a batch has fewer than 2 ^ 32 blocks, and nothing overflows.
  pub fetched_accepts :
      Knows g source hash leaf data_hash
      → GadgetLaws g
      → (mapreduce : MapReduce) (laws : MapReduceLaws mapreduce)
        (hints : ℕ → ℕ → DataCommitmentProof) (depth b start end : ℕ)
      → ((s e : ℕ) (p : DataCommitmentProof)
          → s < 2 ^ 64
          → e < 2 ^ 64
          → hint source (2 ^ b) s e ≡ some p
          → hints s e ≡ p)
      → 2 ^ b < 2 ^ 32
      → 0 < start
      → start < end
      → end ≤ start + 2 ^ depth * 2 ^ b
      → start + 2 ^ depth * 2 ^ b < 2 ^ 64
      → end + 2 ≤ source.latest_block_number
      → source.latest_block_number + 200 < 2 ^ 64
      → prove_data_commitment g mapreduce hints depth (2 ^ b) start (hash start) end (hash end)
        ≡ some (blocks_root g data_hash start (end - start))
  fetched_accepts k gadget_laws mapreduce laws hints depth b start end runs small z l m o n n' =
      let pos = two_pow_pos b in
      prove_data_commitment_accepts g gadget_laws mapreduce laws hash data_hash hints b start end
        (omega arith) (omega arith) small
        (λ s a c.
          let (p, q, sup) =
            hint-Supplied g source hash leaf data_hash k (2 ^ b) s end (omega arith) pos c n n' in
          rw (runs s (s + 2 ^ b) p (omega arith) c q) sup)
        depth l m o
