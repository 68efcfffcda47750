-- ===== src/Circuits/Programs/Standalone.antt =====
-- What an output of `DataCommitmentCircuit` of circuits/data_commitment.rs says about its input.
use blobstreamx.Base.{
  ℕ, ◌-◌, ◌*◌, ◌^◌, ◌≡◌, ◌≤◌, ◌<◌, ◌∙◌, some, List, [], ◌++◌, length, arith, inl, inr, Option-cases,
}
use mathlib.Core.List.{append-nil}
use blobstreamx.Base.Bytes.{Bytes, be_bytes}
use blobstreamx.Circuits.Chain.{Chain}
use blobstreamx.Circuits.Merkle.{merkle_root}
use blobstreamx.Circuits.DataCommitment.{prove_data_commitment}
use blobstreamx.Circuits.DataCommitment.Leaves.{tuples}
use blobstreamx.Circuits.DataCommitment.Whole.{prove_data_commitment-Chain}
use blobstreamx.Circuits.Programs.{Library, LibraryLaws, data_commitment_circuit}
use blobstreamx.Circuits.Programs.Soundness.{merkle_root-lt}

-- The input: the two blocks, each followed by the hash of its header.
abbrev pub range_input : (start start_header end end_header : ℕ) → Bytes
range_input start start_header end end_header =
    be_bytes 8 start ++ (be_bytes 32 start_header ++ (be_bytes 8 end ++ be_bytes 32 end_header))

module _ (lib : Library) (laws : LibraryLaws lib) where
  data_commitment_circuit-inputs :
      (depth size start start_header end end_header : ℕ) (output : Bytes)
      → start < 2 ^ 64
      → start_header < 2 ^ 256
      → end < 2 ^ 64
      → end_header < 2 ^ 256
      → data_commitment_circuit lib depth size (range_input start start_header end end_header)
        ≡ some output
      → (root : ℕ) × (prove_data_commitment lib.gadgets lib.mapreduce
            (lib.hint size)
            depth
            size
            start
            start_header
            end
            end_header
          ≡ some root)
        × (output ≡ lib.evm_write_bytes32 root)
  unfolding data_commitment_circuit
  data_commitment_circuit-inputs depth size start start_header end end_header output s h t k e =
      let a =
        laws.evm_read_u64_lem start
          (be_bytes 32 start_header ++ (be_bytes 8 end ++ be_bytes 32 end_header)) s in
      let b = laws.evm_read_bytes32_lem start_header (be_bytes 8 end ++ be_bytes 32 end_header) h in
      let c = laws.evm_read_u64_lem end (be_bytes 32 end_header) t in
      let d : lib.evm_read_bytes32 (be_bytes 32 end_header) ≡ some (end_header, []) =
        rw (append-nil (be_bytes 32 end_header)) at (laws.evm_read_bytes32_lem end_header [] k) in
      elim (Option-cases (
        prove_data_commitment lib.gadgets lib.mapreduce (lib.hint size) depth size start
          start_header end end_header)) [
            | inl m ↦ absurd (ground (arith, a, b, c, d))
            | inr (root, m) ↦ (root, m, ground (arith, a, b, c, d))
          ]

  -- An output of the standalone circuit, in batches and jobs of powers of two with at most 2 ^ 64
  -- blocks in all, for two blocks of 64 bits, the second after the first, and two header hashes of
  -- 256: the first header is linked to the second by one header for each block between, and the
  -- output is the word of the Merkle root of these blocks' heights and data hashes.
  pub data_commitment_circuit-Chain :
      (depth b start start_header end end_header : ℕ) (output : Bytes)
      → 2 ^ depth * 2 ^ b ≤ 2 ^ 64
      → end < 2 ^ 64
      → start_header < 2 ^ 256
      → end_header < 2 ^ 256
      → start < end
      → data_commitment_circuit lib depth (2 ^ b) (range_input start start_header end end_header)
        ≡ some output
      → (hashes : List ℕ) × (length hashes ≡ end - start)
        × Chain lib.gadgets start_header hashes end_header
        × (output ≡ be_bytes 32 (merkle_root lib.gadgets (tuples start hashes)))
  data_commitment_circuit-Chain depth b start start_header end end_header output m t h k l e =
      let (root, q, w) =
        data_commitment_circuit-inputs depth (2 ^ b) start start_header end end_header output
          (omega arith) h t k e in
      let (hashes, size, most, chain, r) =
        prove_data_commitment-Chain lib.gadgets laws.gadget_laws lib.mapreduce laws.mapreduce_laws
          (lib.hint (2 ^ b)) b (laws.length-hint (2 ^ b)) start end end_header t depth start_header
          root m l q in
      (
        hashes,
        size,
        chain,
        w
            ∙ rw r (
                laws.evm_write_bytes32_lem (merkle_root lib.gadgets (tuples start hashes))
                  (merkle_root-lt lib laws (tuples start hashes))),
      )
