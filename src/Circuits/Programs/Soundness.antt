-- ===== src/Circuits/Programs/Soundness.antt =====
-- What the outputs of the circuits in circuits/header_range.rs and circuits/next_header.rs say about
-- the inputs that the contract of contracts/src/BlobstreamX.sol encodes.
use blobstreamx.Base.{
  ℕ, zero, suc, ◌+◌, ◌*◌, ◌^◌, ◌≡◌, ◌≤◌, ◌<◌, refl, sym, get_elem?, ◌∙◌, ap, some, List, [], ◌∷◌,
  ◌++◌, length, arith, inl, inr, Option-cases, take, drop,
}
use mathlib.Core.List.{append-nil}
use blobstreamx.Base.Bytes.{Bytes, be_bytes}
use blobstreamx.Circuits.{Gadgets, add, encode_data_root_tuple, hash_in}
use blobstreamx.Circuits.Chain.{Chain, alone, linked}
use blobstreamx.Circuits.Merkle.{levels, merkle_root, merkle_root-single}
use blobstreamx.Circuits.DataCommitment.{prove_data_commitment, prove_next_header_data_commitment}
use blobstreamx.Circuits.DataCommitment.Leaves.{tuples}
use blobstreamx.Circuits.DataCommitment.Whole.{prove_data_commitment-Chain}
use blobstreamx.Circuits.Programs.{Library, LibraryLaws, combined_skip, combined_step}
use blobstreamx.Contract.Abi.{
  encode_header_range_input, encode_next_header_input, decode_result, decode_result-words,
}

-- A result of a circuit, as the contract decodes it, tells of a chain of headers from the start
-- block on, whose data hashes make up the data commitment.
pub record Proven (g : Gadgets) (start_block end_block start_header : ℕ) (output : Bytes)
    : Type 0 where
  pub end_header : ℕ
  pub hashes : List ℕ
  pub headers : Chain g start_header hashes end_header
  pub blocks : start_block + length hashes ≡ end_block
  pub end_header-lt : end_header < 2 ^ 256
  pub decoded : decode_result output ≡ some (end_header, merkle_root g (tuples start_block hashes))

module _ (lib : Library) (laws : LibraryLaws lib) where
  levels-lt : (k : ℕ) (leaves : List Bytes) → levels lib.gadgets k leaves < 2 ^ 256
  unfolding levels
  levels-lt zero [] = laws.sha256-lt []
  levels-lt zero (leaf ∷ leaves) = laws.leaf_hash-lt leaf
  levels-lt (suc k) leaves =
      let left = levels lib.gadgets k (take (2 ^ k) leaves) in
      let right = levels lib.gadgets k (drop (2 ^ k) leaves) in
      ground (arith, levels-lt k leaves, laws.sha256-lt (1 ∷ be_bytes 32 left ++ be_bytes 32 right))

  pub merkle_root-lt : (leaves : List Bytes) → merkle_root lib.gadgets leaves < 2 ^ 256
  unfolding merkle_root
  merkle_root-lt leaves = levels-lt (length leaves) leaves

  -- What is written of two hashes decodes to them.
  written :
      (header commitment : ℕ)
      → header < 2 ^ 256
      → commitment < 2 ^ 256
      → decode_result (lib.evm_write_bytes32 header ++ lib.evm_write_bytes32 commitment)
        ≡ some (header, commitment)
  written header commitment h c =
      let e = append-nil (be_bytes 32 commitment) in
      let w : decode_result (be_bytes 32 header ++ be_bytes 32 commitment)
          ≡ some (header, commitment) =
        rw e at (decode_result-words header commitment [] h c) in
      rw (laws.evm_write_bytes32_lem header h, laws.evm_write_bytes32_lem commitment c) w

  pub combined_skip-inputs :
      (skip_max depth size start header target : ℕ) (output : Bytes)
      → start < 2 ^ 64
      → header < 2 ^ 256
      → target < 2 ^ 64
      → combined_skip lib skip_max depth size (encode_header_range_input start header target)
        ≡ some output
      → (end_header root : ℕ) × (lib.skip skip_max start header target ≡ some end_header)
        × (prove_data_commitment lib.gadgets lib.mapreduce
              (lib.hint size)
              depth
              size
              start
              header
              target
              end_header
            ≡ some root)
        × (output ≡ lib.evm_write_bytes32 end_header ++ lib.evm_write_bytes32 root)
  unfolding combined_skip encode_header_range_input
  combined_skip-inputs skip_max depth size start header target output s h t e =
      let a = laws.evm_read_u64_lem start (be_bytes 32 header ++ be_bytes 8 target) s in
      let b = laws.evm_read_bytes32_lem header (be_bytes 8 target) h in
      let c : lib.evm_read_u64 (be_bytes 8 target) ≡ some (target, []) =
        rw (append-nil (be_bytes 8 target)) at (laws.evm_read_u64_lem target [] t) in
      elim (Option-cases (lib.skip skip_max start header target)) [
        | inl n ↦ absurd (ground (arith, a, b, c))
        | inr (hash, n) ↦
            elim (Option-cases (
              prove_data_commitment lib.gadgets lib.mapreduce (lib.hint size) depth size start
                header target hash)) [
                  | inl m ↦ absurd (ground (arith, a, b, c))
                  | inr (root, m) ↦ (hash, root, n, m, ground (arith, a, b, c))
                ]
      ]

  combined_step-inputs :
      (start header : ℕ) (output : Bytes)
      → start < 2 ^ 64
      → header < 2 ^ 256
      → combined_step lib (encode_next_header_input start header) ≡ some output
      → (end_header root : ℕ) × (lib.step start header ≡ some end_header)
        × (prove_next_header_data_commitment lib.gadgets (lib.hint 1) start header (add start 1)
            ≡ some root)
        × (output ≡ lib.evm_write_bytes32 end_header ++ lib.evm_write_bytes32 root)
  unfolding combined_step encode_next_header_input
  combined_step-inputs start header output s h e =
      let a = laws.evm_read_u64_lem start (be_bytes 32 header) s in
      let b : lib.evm_read_bytes32 (be_bytes 32 header) ≡ some (header, []) =
        rw (append-nil (be_bytes 32 header)) at (laws.evm_read_bytes32_lem header [] h) in
      elim (Option-cases (lib.step start header)) [
        | inl n ↦ absurd (ground (arith, a, b))
        | inr (hash, n) ↦
            elim (Option-cases (
              prove_next_header_data_commitment lib.gadgets (lib.hint 1) start header
                (add start 1))) [
                  | inl m ↦ absurd (ground (arith, a, b))
                  | inr (root, m) ↦ (hash, root, n, m, ground (arith, a, b))
                ]
      ]

  -- The next header circuit proves one block.
  next_header-Chain :
      (start header next next_header root : ℕ)
      → lib.step start header ≡ some next_header
      → prove_next_header_data_commitment lib.gadgets (lib.hint 1) start header next ≡ some root
      → (hash : ℕ) × Chain lib.gadgets header (hash ∷ []) next_header
        × (root ≡ merkle_root lib.gadgets (tuples start (hash ∷ [])))
  unfolding prove_next_header_data_commitment
  next_header-Chain start header next next_header root s h =
      elim (Option-cases (get_elem? (lib.hint 1 start next).data_hash_proofs 0)) [
        | inl n ↦ absurd (ground arith)
        | inr (p, n) ↦
            let tuple = encode_data_root_tuple (hash_in p) start in
            let r : root ≡ lib.gadgets.leaf_hash tuple = ground arith in
            (
              hash_in p,
              linked (p, ground arith, refl) (laws.step_links start header next_header s) alone,
              r ∙ sym (merkle_root-single lib.gadgets tuple),
            )
      ]

  -- An output of the header range circuit, in batches and jobs of powers of two with at most 2 ^ 64
  -- blocks in all, on the input that the contract encodes for a start block and header and a target
  -- block after it, the header of 256 bits and the target of 64: it decodes to a header that is linked
  -- to the start header by one header for each block up to the target, and to the Merkle root of
  -- these blocks' heights and data hashes.
  pub combined_skip-Proven :
      (skip_max depth b start header target : ℕ) (output : Bytes)
      → 2 ^ depth * 2 ^ b ≤ 2 ^ 64
      → target < 2 ^ 64
      → header < 2 ^ 256
      → start < target
      → combined_skip lib skip_max depth (2 ^ b) (encode_header_range_input start header target)
        ≡ some output
      → Proven lib.gadgets start target header output
  combined_skip-Proven skip_max depth b start header target output m t h l e =
      let (hash, root, n, q, w) =
        combined_skip-inputs skip_max depth (2 ^ b) start header target output (omega arith) h t
          e in
      let (hashes, size, most, chain, r) =
        prove_data_commitment-Chain lib.gadgets laws.gadget_laws lib.mapreduce laws.mapreduce_laws
          (lib.hint (2 ^ b)) b (laws.length-hint (2 ^ b)) start target hash t depth header root m l
          q in
      let bound = merkle_root-lt (tuples start hashes) in
      record {
        end_header = hash;
        hashes = hashes;
        headers = chain;
        blocks = omega arith;
        end_header-lt = laws.skip-lt skip_max start header target hash n;
        decoded =
            ap decode_result w
            ∙ written hash root (laws.skip-lt skip_max start header target hash n) (rw r bound)
            ∙ ap (λ x. some (hash, x)) r;
      }

  -- An output of the next header circuit on the input that the contract encodes for a block of 64
  -- bits and its header of 256: it decodes to a header that is linked to it, and to the Merkle root of
  -- this one block's height and data hash.
  pub combined_step-Proven :
      (start header : ℕ) (output : Bytes)
      → start < 2 ^ 64
      → header < 2 ^ 256
      → combined_step lib (encode_next_header_input start header) ≡ some output
      → Proven lib.gadgets start (start + 1) header output
  combined_step-Proven start header output s h e =
      let (hash, root, n, q, w) = combined_step-inputs start header output s h e in
      let (d, chain, r) = next_header-Chain start header (add start 1) hash root n q in
      let bound = merkle_root-lt (tuples start (d ∷ [])) in
      record {
        end_header = hash;
        hashes = d ∷ [];
        headers = chain;
        blocks = refl;
        end_header-lt = laws.step-lt start header hash n;
        decoded =
            ap decode_result w
            ∙ written hash root (laws.step-lt start header hash n) (rw r bound)
            ∙ ap (λ x. some (hash, x)) r;
      }
