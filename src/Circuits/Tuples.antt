-- ===== src/Circuits/Tuples.antt =====
-- That circuits/builder.rs and contracts/src/BlobstreamX.sol encode data root tuples alike.
use blobstreamx.Base.{ℕ, ◌/◌, ◌≡◌, refl, ◌<◌, ◌^◌, ◌∙◌, ap, arith, ◌++◌, reverse}
use mathlib.Core.List.{append_assoc, reverse-append}
use blobstreamx.Base.Bytes.{be_bytes, le_bytes}
use blobstreamx.Circuits
use blobstreamx.Contract.Abi

le_bytes-split : (n : ℕ) → n < 2 ^ 64 → le_bytes 32 n ≡ le_bytes 8 n ++ le_bytes 24 0
unfolding le_bytes
le_bytes-split n h =
    let z : n / 256 / 256 / 256 / 256 / 256 / 256 / 256 / 256 ≡ 0 = omega arith in
    ap (λ k. le_bytes 8 n ++ le_bytes 24 k) z

be_bytes-split : (n : ℕ) → n < 2 ^ 64 → be_bytes 32 n ≡ be_bytes 24 0 ++ be_bytes 8 n
unfolding be_bytes
be_bytes-split n h = ap reverse (le_bytes-split n h) ∙ reverse-append (le_bytes 8 n) (le_bytes 24 0)

-- For a height of 64 bits, the leaf that the circuits commit to is what `verifyAttestation` of the
-- contract encodes of the tuple of that height and data hash.
pub encode_data_root_tuple_agrees :
    (data_hash height : ℕ)
    → height < 2 ^ 64
    → Circuits.encode_data_root_tuple data_hash height
      ≡ Abi.encode_data_root_tuple (record { height = height; data_root = data_hash })
unfolding Circuits.encode_data_root_tuple Abi.encode_data_root_tuple
encode_data_root_tuple_agrees data_hash height h = rw (be_bytes-split height h, append_assoc) refl
