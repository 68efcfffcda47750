-- ===== src/Circuits/DataCommitment/Leaves.antt =====
-- The leaves of the trees of circuits/builder.rs: the tuples of blocks with their data hashes.
use blobstreamx.Base.{
  ℕ, zero, suc, ◌+◌, ◌^◌, ◌≡◌, ◌≤◌, ◌<◌, refl, ap, ◌∙◌, List, [], ◌∷◌, ◌++◌, take, length, arith,
}
use blobstreamx.Base.Bytes.{Bytes}
use blobstreamx.Circuits.{Gadgets, add, leaves_from, encode_data_root_tuple}
use blobstreamx.Circuits.Merkle.{merkle_root}

-- The tuples of the blocks from the height `h` on that have these data hashes.
abbrev pub tuples : (h : ℕ) → List ℕ → List Bytes
tuples h [] = []
tuples h (d ∷ ds) = encode_data_root_tuple d h ∷ tuples (h + 1) ds

pub length-tuples : (h : ℕ) (ds : List ℕ) → length (tuples h ds) ≡ length ds
length-tuples h [] = refl
length-tuples h (d ∷ ds) = ap suc (length-tuples (h + 1) ds)

pub tuples-append :
    (h k : ℕ) (ds es : List ℕ)
    → k ≡ h + length ds
    → tuples h (ds ++ es) ≡ tuples h ds ++ tuples k es
tuples-append h k [] es e = let e' : k ≡ h = omega arith in rw e' refl
tuples-append h k (d ∷ ds) es e =
    ap (◌∷◌ (encode_data_root_tuple d h)) (tuples-append (h + 1) k ds es (omega arith))

take-tuples : (n h : ℕ) (ds : List ℕ) → take n (tuples h ds) ≡ tuples h (take n ds)
take-tuples zero h ds = refl
take-tuples (suc n) h [] = refl
take-tuples (suc n) h (d ∷ ds) = ap (◌∷◌ (encode_data_root_tuple d h)) (take-tuples n (h + 1) ds)

-- Heights below 2 ^ 64 do not wrap.
leaves_from-tuples :
    (s i h : ℕ) (ds : List ℕ)
    → h ≡ s + i
    → h + length ds ≤ 2 ^ 64
    → leaves_from s i ds ≡ tuples h ds
leaves_from-tuples s i h [] e b = refl
leaves_from-tuples s i h (d ∷ ds) e b =
    let a : add s i ≡ h = omega arith in
    rw (a, leaves_from-tuples s (i + 1) (h + 1) ds (omega arith) (omega arith)) refl

pub length-take {ℓ} : {A : Type ℓ} (n : ℕ) (xs : List A) → n ≤ length xs → length (take n xs) ≡ n
length-take zero xs h = refl
length-take (suc n) [] h = absurd (omega arith)
length-take (suc n) (x ∷ xs) h = ap suc (length-take n xs (omega arith))

-- The root of the first leaves is that of the Merkle tree over them.
pub record GadgetLaws (g : Gadgets) : Type 0 where
  pub root_from_leaves_lem :
      (leaves : List Bytes) (enabled : ℕ)
      → 0 < enabled
      → enabled ≤ length leaves
      → g.root_from_leaves leaves enabled ≡ merkle_root g (take enabled leaves)

module _ (g : Gadgets) where
  -- The root over the first leaves, which is not that of no leaves and does not wrap.
  pub root_from_leaves-tuples :
      GadgetLaws g
      → (ps : List ℕ) (s count : ℕ) → 0 < count
      → count ≤ length ps
      → s + length ps ≤ 2 ^ 64
      → g.root_from_leaves (leaves_from s 0 ps) count ≡ merkle_root g (tuples s (take count ps))
  root_from_leaves-tuples laws ps s count p m b =
      let leaves = leaves_from-tuples s 0 s ps (omega arith) b in
      let all = length-tuples s ps in
      rw leaves (
        laws.root_from_leaves_lem (tuples s ps) count p (omega arith)
        ∙ ap (merkle_root g) (take-tuples count s ps))
