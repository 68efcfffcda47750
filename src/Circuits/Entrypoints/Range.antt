-- ===== src/Circuits/Entrypoints/Range.antt =====
-- Which ranges of blocks the programs bin/header_range_1024.rs, bin/header_range_2048.rs and
-- bin/header_range_mocha.rs prove.
use blobstreamx.Base.{ℕ, ◌+◌, ◌*◌, ◌^◌, ◌≡◌, ◌≤◌, ◌<◌, Option, refl, some, arith}
use blobstreamx.Base.Bytes.{Bytes}
use blobstreamx.Circuits.DataCommitment.Whole.{prove_data_commitment-Chain}
use blobstreamx.Circuits.Programs.{Library, LibraryLaws, combined_skip}
use blobstreamx.Circuits.Programs.Soundness.{combined_skip-inputs}
use blobstreamx.Circuits.Entrypoints.{
  Config, header_range_1024, header_range_2048, header_range_mocha, HeaderRange, celestia_1024,
  celestia_2048, mocha_1024,
}
use blobstreamx.Contract.Abi.{encode_header_range_input}

module _ (lib : Library) (laws : LibraryLaws lib) where
  -- The circuit of a program, whose jobs and batches are powers of two and make up `SKIP_MAX`.
  HeaderRange-combined_skip :
      {c : Config} {program : Bytes → Option Bytes}
      → HeaderRange lib c program
      → (depth b : ℕ) × (2 ^ depth * 2 ^ b ≡ c.skip_max)
        × (c.skip_max ≤ 2 ^ 64)
        × (program ≡ combined_skip lib c.skip_max depth (2 ^ b))
  unfolding header_range_1024 header_range_2048 header_range_mocha
  HeaderRange-combined_skip celestia_1024 = (5, 5, omega arith, omega arith, refl)
  HeaderRange-combined_skip celestia_2048 = (5, 6, omega arith, omega arith, refl)
  HeaderRange-combined_skip mocha_1024 = (5, 5, omega arith, omega arith, refl)

  pub HeaderRange-within :
      {c : Config} {program : Bytes → Option Bytes}
      → HeaderRange lib c program
      → (start header target : ℕ) (output : Bytes) → target < 2 ^ 64
      → header < 2 ^ 256
      → start < target
      → program (encode_header_range_input start header target) ≡ some output
      → target ≤ start + c.skip_max
  HeaderRange-within {c = c} x start header target output t h l e =
      let (depth, b, size, small, run) = HeaderRange-combined_skip x in
      let e' : combined_skip lib c.skip_max depth (2 ^ b)
            (encode_header_range_input start header target)
          ≡ some output =
        rw run at e in
      let (hash, root, n, q, w) =
        combined_skip-inputs lib laws c.skip_max depth (2 ^ b) start header target output
          (omega arith) h t e' in
      let (hashes, count, most, chain, r) =
        prove_data_commitment-Chain lib.gadgets laws.gadget_laws lib.mapreduce laws.mapreduce_laws
          (lib.hint (2 ^ b)) b (laws.length-hint (2 ^ b)) start target hash t depth header root
          (omega arith) l q in
      omega arith
