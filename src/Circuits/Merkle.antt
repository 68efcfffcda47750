-- ===== src/Circuits/Merkle.antt =====
-- The Merkle tree of Tendermint, to which the roots of circuits/builder.rs are compared: a list of
-- leaves is cut after the largest power of two that leaves something over.
use native.Mathlib.Nat.{pow-suc, one-le-pow, pow-le-pow_right}
use blobstreamx.Base.{
  ℕ, zero, suc, ◌+◌, ◌^◌, ◌≡◌, ◌≤◌, ◌<◌, refl, sym, ◌∙◌, ap, true, false, List, [], ◌∷◌, ◌++◌, leb,
  take, drop, length, arith, length-append, take-append, drop-append,
}
use blobstreamx.Base.Bytes.{Bytes, be_bytes}
use blobstreamx.Circuits.{Gadgets}

pub two_pow_pos : (k : ℕ) → 0 < 2 ^ k
two_pow_pos k = one-le-pow k 2 (omega arith)

lt_two_pow : (n : ℕ) → n < 2 ^ n
lt_two_pow zero = omega arith
lt_two_pow (suc n) = rw pow-suc (omega (arith, lt_two_pow n))

two_pow_mono : (k i : ℕ) → 2 ^ k ≤ 2 ^ (k + i)
two_pow_mono k i = pow-le-pow_right {n = 2} (omega arith) {i = k} {j = k + i} (omega arith)

module _ (g : Gadgets) where
  -- `0x01 || left || right`
  abbrev pub inner_hash : ℕ → ℕ → ℕ
  inner_hash left right = g.sha256 (1 ∷ be_bytes 32 left ++ be_bytes 32 right)

  -- The root of at most `2 ^ k` leaves.
  unfoldable pub levels : ℕ → List Bytes → ℕ
  levels zero [] = g.sha256 []
  levels zero (leaf ∷ leaves) = g.leaf_hash leaf
  levels (suc k) leaves = elim (leb (length leaves) (2 ^ k)) [
    | true ↦ levels k leaves
    | false ↦ inner_hash (levels k (take (2 ^ k) leaves)) (levels k (drop (2 ^ k) leaves))
  ]

  unfoldable pub merkle_root : List Bytes → ℕ
  unfolding levels
  merkle_root leaves = levels (length leaves) leaves

  levels-suc :
      (k : ℕ) (leaves : List Bytes)
      → length leaves ≤ 2 ^ k
      → levels (suc k) leaves ≡ levels k leaves
  unfolding levels
  levels-suc k leaves h = ground arith

  levels-add :
      (k i : ℕ) (leaves : List Bytes)
      → length leaves ≤ 2 ^ k
      → levels (k + i) leaves ≡ levels k leaves
  levels-add k zero leaves h = let e : k + 0 ≡ k = omega arith in rw e
  levels-add k (suc i) leaves h =
      let e : k + suc i ≡ suc (k + i) = omega arith in
      rw e (levels-suc (k + i) leaves (omega (arith, two_pow_mono k i)) ∙ levels-add k i leaves h)

  -- Any number of levels that is enough gives the root.
  pub levels-merkle_root :
      (k : ℕ) (leaves : List Bytes) → length leaves ≤ 2 ^ k → levels k leaves ≡ merkle_root leaves
  unfolding merkle_root
  levels-merkle_root k leaves h =
      let n = length leaves in
      let e : k + n ≡ n + k = omega arith in
      sym (levels-add k n leaves h)
      ∙ ap (λ j. levels j leaves) e
      ∙ levels-add n k leaves (omega (arith, lt_two_pow n))

  pub merkle_root-single : (leaf : Bytes) → merkle_root (leaf ∷ []) ≡ g.leaf_hash leaf
  unfolding merkle_root levels
  merkle_root-single leaf = refl

  levels-append :
      (k : ℕ) (left right : List Bytes)
      → length left ≡ 2 ^ k
      → 0 < length right
      → levels (suc k) (left ++ right) ≡ inner_hash (levels k left) (levels k right)
  unfolding levels
  levels-append k left right l r =
      let t = take-append (2 ^ k) left right l in
      let d = drop-append (2 ^ k) left right l in ground (arith, length-append left right, t, d)

  -- A full tree on the left, and on the right a tree of at most the same size.
  pub merkle_root-append :
      (k : ℕ) (left right : List Bytes)
      → length left ≡ 2 ^ k
      → 0 < length right
      → length right ≤ 2 ^ k
      → merkle_root (left ++ right) ≡ inner_hash (merkle_root left) (merkle_root right)
  merkle_root-append k left right l p r =
      let fits : length (left ++ right) ≤ 2 ^ suc k = rw (pow-suc, length-append) (omega arith) in
      rw
        (
          ← levels-merkle_root (suc k) (left ++ right) fits,
          ← levels-merkle_root k left (omega arith),
          ← levels-merkle_root k right r,
        )
        (levels-append k left right l p)
