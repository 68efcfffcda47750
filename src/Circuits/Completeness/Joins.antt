-- ===== src/Circuits/Completeness/Joins.antt =====
-- That the reduce stage of circuits/builder.rs accepts two adjacent results for a chain.
use Prim.Native.Nat.{min}
use blobstreamx.Base.{
  ℕ, ◌+◌, ◌-◌, ◌≡◌, ◌<◌, ◌≤◌, ◌^◌, ap, ◌∙◌, refl, true, false, some, arith, ltb, Bool-cases,
  Option-cases, inl, inr,
}
use blobstreamx.Circuits.Completeness.Batches.{Batch}
use blobstreamx.Circuits.Completeness.Roots.{blocks_root, blocks_root-add}
use blobstreamx.Circuits.Merkle.{two_pow_pos}
use blobstreamx.Circuits.Reduction.{reduce-Joined}
use blobstreamx.Circuits.{Gadgets, Subchain, reduce}

module _ (g : Gadgets) (hash data_hash : ℕ → ℕ) where
  reduce_root :
      (k end s m e : ℕ) (l r t : Subchain)
      → m ≡ s + 2 ^ k
      → e ≡ m + 2 ^ k
      → m < end
      → r.is_enabled ≡ true
      → reduce g l r ≡ some t
      → Batch g hash data_hash end s m l
      → Batch g hash data_hash end m e r
      → t.data_merkle_root ≡ blocks_root g data_hash s (min e end - s)
  reduce_root k end s m e l r t a b below on h x y =
      let pos = two_pow_pos k in
      let left : l.data_merkle_root ≡ blocks_root g data_hash s (2 ^ k) =
        x.root (omega arith) ∙ ap (blocks_root g data_hash s) (omega arith) in
      (reduce-Joined g l r t on h).data_merkle_root
      ∙ (rw (left, y.root below) refl)
      ∙ blocks_root-add g data_hash k s m (min e end - m) a (omega arith) (omega arith)
      ∙ ap (blocks_root g data_hash s) (omega arith)

  -- The reduce stage accepts two adjacent results of `2 ^ k` blocks.
  pub reduce_accepts :
      (k end s m e : ℕ) (l r : Subchain)
      → m ≡ s + 2 ^ k
      → e ≡ m + 2 ^ k
      → Batch g hash data_hash end s m l
      → Batch g hash data_hash end m e r
      → (t : Subchain) × (reduce g l r ≡ some t) × Batch g hash data_hash end s e t
  unfolding reduce
  reduce_accepts k end s m e l r a a' x y =
      let pos = two_pow_pos k in
      elim (Bool-cases (ltb m end)) [
        | inl on ↦
            let b : m < end = ground arith in
            let (i, j) : (s < end) × (min m end ≡ m) = (omega arith, omega arith) in
            let on' : r.is_enabled ≡ true = y.enabled ∙ on in
            let ends = x.last_block i ∙ j in
            let header = x.last_header i ∙ ap hash j in
            let starts = y.first_header b in
            let n = y.started in
            elim (Option-cases (reduce g l r)) [
              | inl n' ↦ absurd (ground arith)
              | inr (t, n') ↦ (
                t,
                n',
                record {
                  enabled = ground (arith, x.enabled);
                  started = ground (arith, x.started);
                  first_header = λ z. ground (arith, x.first_header z);
                  last_block = λ z. ground (arith, y.last_block b);
                  last_header = λ z. ground (arith, y.last_header b);
                  root = λ z. reduce_root k end s m e l r t a a' b on' n' x y;
                },
              )
            ]
        | inr off ↦
            let b : end ≤ m = ground arith in
            let off' : r.is_enabled ≡ false = y.enabled ∙ off in
            let j : min m end ≡ min e end = omega arith in
            let w = ap hash j in
            elim (Option-cases (reduce g l r)) [
              | inl n ↦ absurd (ground arith)
              | inr (t, n) ↦ (
                t,
                n,
                record {
                  enabled = ground (arith, x.enabled);
                  started = ground (arith, x.started);
                  first_header = λ z. ground (arith, x.first_header z);
                  last_block = λ z. ground (arith, x.last_block z);
                  last_header = λ z. ground (arith, x.last_header z);
                  root =
                      λ z. ground (arith, x.root z) ∙ ap (λ i. blocks_root g data_hash s (i - s)) j;
                },
              )
            ]
      ]
