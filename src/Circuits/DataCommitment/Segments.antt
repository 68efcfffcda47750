-- ===== src/Circuits/DataCommitment/Segments.antt =====
-- The subchains of the tree that `prove_data_commitment` of circuits/builder.rs reduces: what one of
-- them says of the blocks that it stands for.
use native.Mathlib.Nat.{pow-suc}
use blobstreamx.Base.{
  ℕ, suc, ◌+◌, ◌-◌, ◌*◌, ◌^◌, ◌≡◌, ◌≤◌, ◌<◌, refl, sym, ◌∙◌, ap, true, some, List, ◌++◌, map, take,
  length, ltb, arith, inl, inr, Bool-cases, length-append,
}
use blobstreamx.Circuits.{
  Gadgets, DataCommitmentProof, Subchain, hash_in, leaves_from, prove_subchain, reduce,
}
use blobstreamx.Circuits.Chain.{Chain}
use blobstreamx.Circuits.Merkle.{merkle_root, merkle_root-append, two_pow_pos}
use blobstreamx.Circuits.Reduction.{Chain-append, Joined, reduce-Joined, reduce_kept}
use blobstreamx.Circuits.DataCommitment.Leaves.{
  tuples, length-tuples, tuples-append, GadgetLaws, root_from_leaves-tuples, length-take,
}
use blobstreamx.Circuits.Soundness.{prove_subchain-Chain, prove_subchain-start, length-map}

module _ (g : Gadgets) where
  -- The subchain goes from the block `s` over linked headers, at most `n` and not past `end`, that
  -- have these data hashes, and its root is that of their tuples.
  pub record Covering (end s n : ℕ) (t : Subchain) : Type 0 where
    pub hashes : List ℕ
    pub headers : Chain g t.start_header hashes t.end_header
    pub blocks : t.end_block ≡ s + length hashes
    pub root : t.data_merkle_root ≡ merkle_root g (tuples s hashes)
    pub not_empty : 0 < length hashes
    pub at_most : length hashes ≤ n
    pub inside : s + length hashes ≤ end
    pub full : s + n ≤ end → length hashes ≡ n

  -- The subchain that stands for the `n` blocks from `s` on; it is disabled past `end`.
  pub record Segment (end s n : ℕ) (t : Subchain) : Type 0 where
    pub enabled : t.is_enabled ≡ ltb s end
    pub started : t.start_block ≡ s
    pub covered : s < end → Covering end s n t

  first_hashes :
      GadgetLaws g
      → (ps : List ℕ) (s count end : ℕ) (t : Subchain) → t.end_block ≡ s + count
      → 0 < count
      → count ≤ length ps
      → s + count ≤ end
      → (s + length ps ≤ end → count ≡ length ps)
      → s + length ps ≤ 2 ^ 64
      → Chain g t.start_header (take (t.end_block - s) ps) t.end_header
      → t.data_merkle_root ≡ g.root_from_leaves (leaves_from s 0 ps) (t.end_block - s)
      → Covering end s (length ps) t
  first_hashes laws ps s count end t e p m i f b c r =
      let n : t.end_block - s ≡ count = omega arith in
      let size = length-take count ps m in
      record {
        hashes = take count ps;
        headers = rw n at c;
        blocks = omega arith;
        root = (rw n at r) ∙ root_from_leaves-tuples g laws ps s count p m b;
        not_empty = omega arith;
        at_most = omega arith;
        inside = omega arith;
        full = λ x. size ∙ f x;
      }

  pub prove_subchain-Segment :
      GadgetLaws g
      → (proof : DataCommitmentProof) (s end end_header_hash : ℕ) (t : Subchain)
      → 0 < length proof.data_hash_proofs
      → s + length proof.data_hash_proofs ≤ 2 ^ 64
      → end < 2 ^ 64
      → prove_subchain g proof s (s + length proof.data_hash_proofs) end end_header_hash ≡ some t
      → Segment end s (length proof.data_hash_proofs) t
  prove_subchain-Segment laws proof s end end_header_hash t p m b h =
      let n = length proof.data_hash_proofs in
      let ps = map hash_in proof.data_hash_proofs in
      let (on, start, from) = prove_subchain-start g proof s (s + n) end end_header_hash t h in
      let size = length-map hash_in proof.data_hash_proofs in
      record {
        enabled = on;
        started = start;
        covered = λ below.
            let e : t.is_enabled ≡ true = ground arith in
            let (c, ends, r) = prove_subchain-Chain g proof s end end_header_hash t b h e in
            let c' : Chain g t.start_header (take (t.end_block - s) ps) t.end_header = rw from c in
            let v : Covering end s (length ps) t = elim ends [
              | inl (o, x) ↦
                  first_hashes laws ps s n end t x p (omega arith) (omega arith) (λ z. sym size)
                    (omega arith) c' r
              | inr (o, x, y) ↦
                  first_hashes laws ps s (end - s) end t (omega arith) (omega arith) (omega arith)
                    (omega arith) (λ z. omega arith) (omega arith) c' r
            ] in
            rw size at v;
      }

  reduce-Covering :
      (k end s m : ℕ) (l r t : Subchain)
      → m ≡ s + 2 ^ k
      → m < end
      → Covering end s (2 ^ k) l
      → Covering end m (2 ^ k) r
      → Joined g l r t
      → Covering end s (2 ^ suc k) t
  reduce-Covering k end s m l r t e below x y j =
      let full = x.full (omega arith) in
      let ls = tuples s x.hashes in
      let rs = tuples m y.hashes in
      let size = length-append x.hashes y.hashes in
      let (u, v) : (length ls ≡ 2 ^ k) × (length rs ≡ length y.hashes) =
        (length-tuples s x.hashes ∙ full, length-tuples m y.hashes) in
      let a = y.not_empty in
      let b = y.at_most in
      let c = y.inside in
      let d = y.full in
      record {
        hashes = x.hashes ++ y.hashes;
        headers =
            rw (j.start_header, j.end_header)
              (Chain-append g x.headers (rw j.linked_headers y.headers));
        blocks = j.end_block ∙ y.blocks ∙ omega arith;
        root =
            j.data_merkle_root
            ∙ (rw (x.root, y.root) refl)
            ∙ sym (merkle_root-append g k ls rs u (omega arith) (omega arith))
            ∙ ap (merkle_root g) (sym (tuples-append s m x.hashes y.hashes (omega arith)));
        not_empty = omega arith;
        at_most = rw pow-suc (omega arith);
        inside = omega arith;
        full = λ z.
            let room : s + 2 ^ k * 2 ≤ end = rw pow-suc at z in
            let right = d (omega arith) in rw pow-suc (omega arith);
      }

  left-Covering :
      (k end s m : ℕ) (l : Subchain)
      → m ≡ s + 2 ^ k
      → end ≤ m
      → Covering end s (2 ^ k) l
      → Covering end s (2 ^ suc k) l
  left-Covering k end s m l e past x =
      let a = x.at_most in
      let pos = two_pow_pos k in
      record {
        hashes = x.hashes;
        headers = x.headers;
        blocks = x.blocks;
        root = x.root;
        not_empty = x.not_empty;
        at_most = rw pow-suc (omega arith);
        inside = x.inside;
        full = λ z. let room : s + 2 ^ k * 2 ≤ end = rw pow-suc at z in absurd (omega arith);
      }

  pub reduce-Segment :
      (k end s m : ℕ) (l r t : Subchain)
      → m ≡ s + 2 ^ k
      → Segment end s (2 ^ k) l
      → Segment end m (2 ^ k) r
      → reduce g l r ≡ some t
      → Segment end s (2 ^ suc k) t
  reduce-Segment k end s m l r t e x y h = elim (Bool-cases (ltb m end)) [
    | inl on ↦
        let j = reduce-Joined g l r t (y.enabled ∙ on) h in
        let below : m < end = ground arith in
        record {
          enabled = j.is_enabled ∙ x.enabled;
          started = j.start_block ∙ x.started;
          covered = λ z. reduce-Covering k end s m l r t e below (x.covered z) (y.covered below) j;
        }
    | inr off ↦
        let past : end ≤ m = ground arith in
        rw (reduce_kept g l r t (y.enabled ∙ off) h) (record {
          enabled = x.enabled;
          started = x.started;
          covered = λ z. left-Covering k end s m l e past (x.covered z);
        })
  ]
