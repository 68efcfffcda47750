-- ===== src/Circuits/Completeness/Roots.antt =====
-- The roots that circuits/builder.rs computes over the blocks of a chain with the data hashes
-- `data_hash`.
use mathlib.Core.List.{map-append}
use blobstreamx.Base.{ℕ, ◌+◌, ◌^◌, ◌≡◌, ◌≤◌, ◌<◌, sym, ◌∙◌, ap, List, ◌++◌, map, length, arith}
use blobstreamx.Circuits.{Gadgets, encode_data_root_tuple}
use blobstreamx.Circuits.DataCommitment.{range_from}
use blobstreamx.Circuits.DataCommitment.Leaves.{tuples, length-tuples, tuples-append}
use blobstreamx.Circuits.DataCommitment.Ranges.{length-range_from, range_from-append}
use blobstreamx.Circuits.Merkle.{inner_hash, merkle_root, merkle_root-append, merkle_root-single}
use blobstreamx.Circuits.Soundness.{length-map}

module _ (g : Gadgets) (data_hash : ℕ → ℕ) where
  abbrev hashes : (s n : ℕ) → List ℕ
  hashes s n = map data_hash (range_from s n)

  length-hashes : (s n : ℕ) → length (hashes s n) ≡ n
  length-hashes s n = length-map data_hash (range_from s n) ∙ length-range_from s n

  -- The Merkle root of the tuples of the `n` blocks from `s` on.
  unfoldable pub blocks_root : (s n : ℕ) → ℕ
  blocks_root s n = merkle_root g (tuples s (hashes s n))

  pub blocks_root-one :
      (s : ℕ) → blocks_root s 1 ≡ g.leaf_hash (encode_data_root_tuple (data_hash s) s)
  unfolding blocks_root
  blocks_root-one s = merkle_root-single g (encode_data_root_tuple (data_hash s) s)

  pub blocks_root-add :
      (k s m n : ℕ)
      → m ≡ s + 2 ^ k
      → 0 < n
      → n ≤ 2 ^ k
      → inner_hash g (blocks_root s (2 ^ k)) (blocks_root m n) ≡ blocks_root s (2 ^ k + n)
  unfolding blocks_root
  blocks_root-add k s m n e p l =
      let ls = tuples s (hashes s (2 ^ k)) in
      let rs = tuples m (hashes m n) in
      let u : length ls ≡ 2 ^ k = length-tuples s (hashes s (2 ^ k)) ∙ length-hashes s (2 ^ k) in
      let v : length rs ≡ n = length-tuples m (hashes m n) ∙ length-hashes m n in
      let full = length-hashes s (2 ^ k) in
      let both : hashes s (2 ^ k + n) ≡ hashes s (2 ^ k) ++ hashes m n =
        ap (map data_hash) (range_from-append s m (2 ^ k) n e)
        ∙ map-append data_hash (range_from s (2 ^ k)) (range_from m n) in
      sym (merkle_root-append g k ls rs u (omega arith) (omega arith))
      ∙ ap (merkle_root g) (
          sym (tuples-append s m (hashes s (2 ^ k)) (hashes m n) (omega arith))
          ∙ ap (tuples s) (sym both))
