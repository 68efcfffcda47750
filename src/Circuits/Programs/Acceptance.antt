-- ===== src/Circuits/Programs/Acceptance.antt =====
-- That the circuits of circuits/header_range.rs and circuits/next_header.rs accept the input of the
-- contract of contracts/src/BlobstreamX.sol when the parts that they call do, and what they write.
use blobstreamx.Base.{ℕ, ◌+◌, ◌*◌, ◌^◌, ◌≡◌, ◌≤◌, ◌<◌, refl, some, [], ◌++◌, arith, get_elem?}
use mathlib.Core.List.{append-nil}
use blobstreamx.Base.Bytes.{be_bytes}
use blobstreamx.Circuits.{add, hash_in, encode_data_root_tuple, data_hash_path, MerkleProof}
use blobstreamx.Circuits.DataCommitment.{prove_data_commitment, prove_next_header_data_commitment}
use blobstreamx.Circuits.Programs.{Library, LibraryLaws, combined_skip, combined_step}
use blobstreamx.Contract.Requests.{answer}
use blobstreamx.Contract.Abi.{encode_header_range_input, encode_next_header_input}

module _ (lib : Library) (laws : LibraryLaws lib) where
  written_words :
      (header commitment : ℕ)
      → header < 2 ^ 256
      → commitment < 2 ^ 256
      → lib.evm_write_bytes32 header ++ lib.evm_write_bytes32 commitment ≡ answer header commitment
  written_words header commitment h c =
      rw
        (
          laws.evm_write_bytes32_lem header h,
          laws.evm_write_bytes32_lem commitment c,
          append-nil (be_bytes 32 commitment),
        )
        refl

  pub combined_skip_accepts :
      (skip_max depth size start header target hash root : ℕ)
      → start < 2 ^ 64
      → header < 2 ^ 256
      → target < 2 ^ 64
      → 2 ^ depth * size ≤ skip_max
      → lib.skip skip_max start header target ≡ some hash
      → root < 2 ^ 256
      → prove_data_commitment lib.gadgets lib.mapreduce
          (lib.hint size)
          depth
          size
          start
          header
          target
          hash
        ≡ some root
      → combined_skip lib skip_max depth size (encode_header_range_input start header target)
        ≡ some (answer hash root)
  unfolding combined_skip encode_header_range_input
  combined_skip_accepts skip_max depth size start header target hash root s h t m k r p =
      let a = laws.evm_read_u64_lem start (be_bytes 32 header ++ be_bytes 8 target) s in
      let b = laws.evm_read_bytes32_lem header (be_bytes 8 target) h in
      let c : lib.evm_read_u64 (be_bytes 8 target) ≡ some (target, []) =
        rw (append-nil (be_bytes 8 target)) at (laws.evm_read_u64_lem target [] t) in
      let w = written_words hash root (laws.skip-lt skip_max start header target hash k) r in
      ground (arith, a, b, c, w)

  pub combined_step_accepts :
      (start header hash : ℕ) (p : MerkleProof)
      → start + 1 < 2 ^ 64
      → header < 2 ^ 256
      → lib.step start header ≡ some hash
      → get_elem? (lib.hint 1 start (start + 1)).data_hash_proofs 0 ≡ some p
      → lib.gadgets.root_from_proof p data_hash_path ≡ header
      → combined_step lib (encode_next_header_input start header)
        ≡ some (answer hash (lib.gadgets.leaf_hash (encode_data_root_tuple (hash_in p) start)))
  unfolding combined_step encode_next_header_input prove_next_header_data_commitment
  combined_step_accepts start header hash p s h k e q =
      let a = laws.evm_read_u64_lem start (be_bytes 32 header) (omega arith) in
      let b : lib.evm_read_bytes32 (be_bytes 32 header) ≡ some (header, []) =
        rw (append-nil (be_bytes 32 header)) at (laws.evm_read_bytes32_lem header [] h) in
      let n : add start 1 ≡ start + 1 = omega arith in
      let tuple = encode_data_root_tuple (hash_in p) start in
      let w =
        written_words hash (lib.gadgets.leaf_hash tuple) (laws.step-lt start header hash k)
          (laws.leaf_hash-lt tuple) in
      ground (arith, a, b, n, w)
