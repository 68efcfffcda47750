-- ===== src/Tests/Headers.antt =====
-- A source for circuits/input.rs that knows a chain up to the block 20.
use blobstreamx.Base.{
  ℕ, ◌+◌, ◌-◌, ◌^◌, ◌≡◌, ◌≤◌, ◌<◌, refl, ap, ◌∙◌, some, arith, ◌==◌, if◌then◌else◌,
}
use blobstreamx.Base.Bytes.{Bytes, be_bytes}
use blobstreamx.Circuits.{hash_in}
use blobstreamx.Inputs.{Source}
use blobstreamx.Inputs.Supplied.{Knows}
use blobstreamx.Tests.Prover.{gadgets, merkle_proof, hash_in-merkle_proof}

abbrev pub leaf : ℕ → Bytes
leaf h = be_bytes 34 (h + 100)

abbrev pub data_hash : ℕ → ℕ
data_hash h = h + 100

-- A header is its height, and has the hash `hash h` and the data hash `data_hash h`.
abbrev pub source : (ℕ → ℕ) → Source ℕ
source hash = record {
  latest_block_number = 20;
  signed_header_from_number = λ h. h;
  hash = hash;
  data_hash = λ h. some (leaf h);
  last_block_id = λ h. be_bytes 72 (hash (h - 1));
  inclusion_proof = λ h index bytes.
      if index == 6
      then merkle_proof (data_hash h) (hash h)
      else merkle_proof (hash (h - 1)) (hash h);
  request_data_commitment = λ a b. some (a + b);
}

module _ (hash : ℕ → ℕ) (bound : (h : ℕ) → h ≤ 20 → hash h < 2 ^ 256) where
  source-linked :
      (h : ℕ) → h + 1 ≤ 20 → hash_in (merkle_proof (hash (h + 1 - 1)) (hash (h + 1))) ≡ hash h
  source-linked h l =
      let e : h + 1 - 1 ≡ h = omega arith in
      hash_in-merkle_proof (hash (h + 1 - 1)) (hash (h + 1)) (rw e (bound h (omega arith)))
      ∙ ap hash e

  pub source-Knows : Knows gadgets (source hash) hash leaf data_hash
  source-Knows = record {
    hashed = λ h. refl;
    known = λ h l. refl;
    data_hash_valid = λ h l. refl;
    data_hash_held = λ h l. hash_in-merkle_proof (h + 100) (hash h) (omega arith);
    last_block_id_valid = λ h p l. refl;
    linked = λ h p l. source-linked h l;
    served = λ a b l m. (a + b, refl);
  }
