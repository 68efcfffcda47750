-- ===== src/Circuits/DataCommitment/Whole.antt =====
-- What `prove_data_commitment` of circuits/builder.rs proves of a range of blocks.
use native.Mathlib.Nat.{pow-suc}
use blobstreamx.Base.{
  ℕ, zero, suc, ◌+◌, ◌-◌, ◌*◌, ◌^◌, ◌≡◌, ◌≤◌, ◌<◌, refl, sym, ◌∙◌, Option, some, List, ◌++◌, length,
  arith, inl, inr, Option-cases,
}
use blobstreamx.Circuits.{Gadgets, DataCommitmentProof, Subchain, add, prove_subchain, reduce}
use blobstreamx.Circuits.Chain.{Chain}
use blobstreamx.Circuits.Merkle.{merkle_root, two_pow_pos}
use blobstreamx.Circuits.DataCommitment.{
  range_from, MapReduce, MapReduceLaws, map_stage, prove_data_commitment,
}
use blobstreamx.Circuits.DataCommitment.Ranges.{
  length-range_from, get_elem?-range_from, range_from-append, two_pow_add,
}
use blobstreamx.Circuits.DataCommitment.Leaves.{tuples, GadgetLaws}
use blobstreamx.Circuits.DataCommitment.Segments.{Segment, prove_subchain-Segment, reduce-Segment}

module _ (g : Gadgets) (hint : ℕ → ℕ → DataCommitmentProof) (b start end end_header_hash : ℕ) where
  pub map_stage-range_from :
      (a s e : ℕ)
      → s ≡ start + a
      → e ≡ s + 2 ^ b
      → e < 2 ^ 64
      → map_stage g hint (2 ^ b) start end end_header_hash (range_from a (2 ^ b))
        ≡ prove_subchain g (hint s e) s e end end_header_hash
  unfolding map_stage
  map_stage-range_from a s e p q m =
      let pos = two_pow_pos b in
      let first = get_elem?-range_from 0 a (2 ^ b) pos in
      let last = get_elem?-range_from (2 ^ b - 1) a (2 ^ b) (omega arith) in
      let from : add start (a + 0) ≡ s = omega arith in
      let to : add (add start (a + (2 ^ b - 1))) 1 ≡ e = omega arith in rw (first, last, from, to)

module _ (g : Gadgets) (laws : GadgetLaws g) (mapreduce : MapReduce) (mr : MapReduceLaws mapreduce)
    (hint : ℕ → ℕ → DataCommitmentProof) (b : ℕ)
    (filled : (s e : ℕ) → length (hint s e).data_hash_proofs ≡ 2 ^ b)
    (start end end_header_hash : ℕ) (below : end < 2 ^ 64) where
  map_stage-Segment :
      (a : ℕ) (t : Subchain)
      → start + a + 2 ^ b < 2 ^ 64
      → map_stage g hint (2 ^ b) start end end_header_hash (range_from a (2 ^ b)) ≡ some t
      → Segment g end (start + a) (2 ^ b) t
  map_stage-Segment a t m h =
      let s = start + a in
      let e = s + 2 ^ b in
      let size = filled s e in
      let pos = two_pow_pos b in
      let run : prove_subchain g (hint s e) s (s + length (hint s e).data_hash_proofs) end
            end_header_hash
          ≡ some t =
        rw size
          (sym (map_stage-range_from g hint b start end end_header_hash a s e refl refl m) ∙ h) in
      rw size at (
        prove_subchain-Segment g laws (hint s e) s end end_header_hash t (omega arith) (omega arith)
          below run)

  abbrev tree : ℕ → List ℕ → Option Subchain
  tree depth =
      mapreduce depth (2 ^ b) (map_stage g hint (2 ^ b) start end end_header_hash) (reduce g)

  halves :
      (d : ℕ) (xs ys : List ℕ) (t : Subchain)
      → length xs ≡ 2 ^ d * 2 ^ b
      → length ys ≡ 2 ^ d * 2 ^ b
      → tree (suc d) (xs ++ ys) ≡ some t
      → (l r : Subchain) × (tree d xs ≡ some l) × (tree d ys ≡ some r) × (reduce g l r ≡ some t)
  halves d xs ys t n m h =
      let both =
        mr.mapreduce_halves d (2 ^ b) (map_stage g hint (2 ^ b) start end end_header_hash)
          (reduce g) xs ys n m in
      elim (Option-cases (tree d xs)) [
        | inl e ↦ absurd (ground (arith, both))
        | inr (l, e) ↦ elim (Option-cases (tree d ys)) [
          | inl e' ↦ absurd (ground (arith, both))
          | inr (r, e') ↦ (l, r, e, e', ground (arith, both))
        ]
      ]

  tree-Segment :
      (d a : ℕ) (t : Subchain)
      → start + a + 2 ^ (b + d) < 2 ^ 64
      → tree d (range_from a (2 ^ d * 2 ^ b)) ≡ some t
      → Segment g end (start + a) (2 ^ (b + d)) t
  tree-Segment zero a t m h =
      let e : 2 ^ 0 * 2 ^ b ≡ 2 ^ b = omega arith in
      let z : b + 0 ≡ b = omega arith in
      let run =
        mr.mapreduce_batch (2 ^ b) (map_stage g hint (2 ^ b) start end end_header_hash) (reduce g)
          (range_from a (2 ^ b)) (length-range_from a (2 ^ b)) in
      rw z (map_stage-Segment a t (rw z at m) (sym run ∙ (rw e at h)))
  tree-Segment (suc d) a t m h =
      let n = 2 ^ d * 2 ^ b in
      let size : 2 ^ (b + d) ≡ n = sym (two_pow_add b d) in
      let z : b + suc d ≡ suc (b + d) = omega arith in
      let twice : 2 ^ suc d * 2 ^ b ≡ n + n = rw pow-suc (grind arith) in
      let room : start + a + 2 ^ (b + d) * 2 < 2 ^ 64 = rw (z, pow-suc) at m in
      let split = range_from-append a (a + n) n n refl in
      let (l, r, x, y, q) =
        halves d (range_from a n) (range_from (a + n) n) t (length-range_from a n)
          (length-range_from (a + n) n) (rw (twice, split) at h) in
      let left = tree-Segment d a l (omega arith) x in
      let right = tree-Segment d (a + n) r (omega arith) y in
      rw z (
        reduce-Segment g (b + d) end (start + a) (start + (a + n)) l r t (omega arith) left right q)

  accepted :
      (depth start_header_hash root : ℕ)
      → prove_data_commitment g mapreduce hint depth
          (2 ^ b)
          start
          start_header_hash
          end
          end_header_hash
        ≡ some root
      → (t : Subchain) × (tree depth (range_from 0 (2 ^ depth * 2 ^ b)) ≡ some t)
        × (end ≤ add start (2 ^ depth * 2 ^ b))
        × (t.start_header ≡ start_header_hash)
        × (t.end_block ≡ end)
        × (t.end_header ≡ end_header_hash)
        × (t.data_merkle_root ≡ root)
  unfolding prove_data_commitment
  accepted depth start_header_hash root h =
      elim (Option-cases (tree depth (range_from 0 (2 ^ depth * 2 ^ b)))) [
        | inl e ↦ absurd (ground arith)
        | inr (t, e) ↦ (t, e, ground arith, ground arith, ground arith, ground arith, ground arith)
      ]

  -- Batches and jobs in powers of two, at most 2 ^ 64 blocks in all, an end block of 64 bits, arrays
  -- of the size of a batch, and a builder whose gadgets obey their laws. If the circuit accepts a
  -- range that is not empty, then whatever the hint has supplied: the range is at most as long as all
  -- batches together, the start header is linked to the end header by as many headers as there are
  -- blocks, and the result is the Merkle root of the tuples of the blocks' heights with the data
  -- hashes of these headers.
  pub prove_data_commitment-Chain :
      (depth start_header_hash root : ℕ)
      → 2 ^ depth * 2 ^ b ≤ 2 ^ 64
      → start < end
      → prove_data_commitment g mapreduce hint depth
          (2 ^ b)
          start
          start_header_hash
          end
          end_header_hash
        ≡ some root
      → (hashes : List ℕ) × (length hashes ≡ end - start)
        × (length hashes ≤ 2 ^ depth * 2 ^ b)
        × Chain g start_header_hash hashes end_header_hash
        × (root ≡ merkle_root g (tuples start hashes))
  prove_data_commitment-Chain depth start_header_hash root m l h =
      let (t, e, most, from, stop, last, r) = accepted depth start_header_hash root h in
      let size = two_pow_add b depth in
      let room : start + 0 + 2 ^ (b + depth) < 2 ^ 64 = omega arith in
      let zero_on : start + 0 ≡ start = omega arith in
      let segment : Segment g end start (2 ^ (b + depth)) t =
        rw zero_on at (tree-Segment depth 0 t room e) in
      let c = segment.covered l in
      let n = c.blocks in
      let k = c.at_most in
      (c.hashes, omega arith, omega arith, rw (from, last) at c.headers, sym r ∙ c.root)
