-- ===== src/Circuits/DataCommitment/Ranges.antt =====
-- Lemmas on the blocks that circuits/builder.rs spreads over its jobs and batches.
use native.Mathlib.Nat.{pow-suc}
use blobstreamx.Base.{
  ℕ, zero, suc, ◌+◌, ◌*◌, ◌^◌, ◌≡◌, ◌<◌, refl, ◌∙◌, ap, some, ◌∷◌, ◌++◌, length, get_elem?, arith,
}
use blobstreamx.Circuits.DataCommitment.{range_from}

pub length-range_from : (a n : ℕ) → length (range_from a n) ≡ n
length-range_from a zero = refl
length-range_from a (suc n) = ap suc (length-range_from (a + 1) n)

pub get_elem?-range_from : (i a n : ℕ) → i < n → get_elem? (range_from a n) i ≡ some (a + i)
get_elem?-range_from i a zero h = absurd (omega arith)
get_elem?-range_from zero a (suc n) h = ap some (omega arith)
get_elem?-range_from (suc i) a (suc n) h =
    get_elem?-range_from i (a + 1) n (omega arith) ∙ ap some (omega arith)

pub range_from-append :
    (a b n m : ℕ) → b ≡ a + n → range_from a (n + m) ≡ range_from a n ++ range_from b m
range_from-append a b zero m e =
    let (p, q) : (b ≡ a) × (0 + m ≡ m) = (omega arith, omega arith) in rw (p, q) refl
range_from-append a b (suc n) m e =
    let q : suc n + m ≡ suc (n + m) = omega arith in
    rw q (ap (◌∷◌ a) (range_from-append (a + 1) b n m (omega arith)))

pub two_pow_add : (b d : ℕ) → 2 ^ d * 2 ^ b ≡ 2 ^ (b + d)
two_pow_add b zero = let e : b + 0 ≡ b = omega arith in rw e (omega arith)
two_pow_add b (suc d) =
    let e : b + suc d ≡ suc (b + d) = omega arith in
    let ih = two_pow_add b d in rw (e, pow-suc, pow-suc, ← ih) (grind arith)
