-- ===== src/Circuits/Completeness/Whole.antt =====
-- That `prove_data_commitment` of circuits/builder.rs accepts a range of a chain.
use native.Mathlib.Nat.{pow-suc}
use Prim.Native.Nat.{min}
use blobstreamx.Base.{
  ℕ, zero, suc, ◌+◌, ◌-◌, ◌*◌, ◌^◌, ◌≡◌, ◌≤◌, ◌<◌, refl, sym, ◌∙◌, Option, some, List, arith,
}
use blobstreamx.Circuits.{Gadgets, DataCommitmentProof, Subchain, add, reduce}
use blobstreamx.Circuits.Merkle.{two_pow_pos}
use blobstreamx.Circuits.DataCommitment.{
  range_from, MapReduce, MapReduceLaws, map_stage, prove_data_commitment,
}
use blobstreamx.Circuits.DataCommitment.Ranges.{length-range_from, range_from-append, two_pow_add}
use blobstreamx.Circuits.DataCommitment.Whole.{map_stage-range_from}
use blobstreamx.Circuits.Completeness.Joins.{reduce_accepts}
use blobstreamx.Circuits.Completeness.Roots.{blocks_root}
use blobstreamx.Circuits.DataCommitment.Leaves.{GadgetLaws}
use blobstreamx.Circuits.Completeness.Batches.{Batch, Supplied, prove_subchain_accepts}

module _ (g : Gadgets) (laws : GadgetLaws g) (mapreduce : MapReduce) (mr : MapReduceLaws mapreduce)
    (hash data_hash : ℕ → ℕ) (hint : ℕ → ℕ → DataCommitmentProof) (b : ℕ) (start end : ℕ)
    (below : end < 2 ^ 64) (positive : 0 < end) (small : 2 ^ b < 2 ^ 32)
    (supplied : (s : ℕ)
      → start ≤ s
      → s + 2 ^ b < 2 ^ 64
      → Supplied g hash data_hash end s (s + 2 ^ b) (hint s (s + 2 ^ b))) where
  abbrev tree : ℕ → List ℕ → Option Subchain
  tree depth = mapreduce depth (2 ^ b) (map_stage g hint (2 ^ b) start end (hash end)) (reduce g)

  tree_accepts :
      (d a : ℕ)
      → start + a + 2 ^ (b + d) < 2 ^ 64
      → (t : Subchain) × (tree d (range_from a (2 ^ d * 2 ^ b)) ≡ some t)
        × Batch g hash data_hash end (start + a) (start + a + 2 ^ (b + d)) t
  tree_accepts zero a m =
      let e : 2 ^ 0 * 2 ^ b ≡ 2 ^ b = omega arith in
      let z : b + 0 ≡ b = omega arith in
      let s = start + a in
      let m' = rw z at m in
      let pos = two_pow_pos b in
      let (t, run, batch) =
        prove_subchain_accepts g hash data_hash laws end s (s + 2 ^ b) (hint s (s + 2 ^ b))
          (supplied s (omega arith) m') positive below m' (omega arith) (omega arith) in
      let base =
        mr.mapreduce_batch (2 ^ b) (map_stage g hint (2 ^ b) start end (hash end)) (reduce g)
          (range_from a (2 ^ b)) (length-range_from a (2 ^ b)) in
      let mapped =
        map_stage-range_from g hint b start end (hash end) a s (s + 2 ^ b) refl refl m' in
      rw (e, z) (t, base ∙ mapped ∙ run, batch)
  tree_accepts (suc d) a m =
      let n = 2 ^ d * 2 ^ b in
      let size : 2 ^ (b + d) ≡ n = sym (two_pow_add b d) in
      let pos = two_pow_pos (b + d) in
      let z : b + suc d ≡ suc (b + d) = omega arith in
      let twice : 2 ^ suc d * 2 ^ b ≡ n + n = rw pow-suc (grind arith) in
      let room : start + a + 2 ^ (b + d) * 2 < 2 ^ 64 = rw (z, pow-suc) at m in
      let split = range_from-append a (a + n) n n refl in
      let (l, x, left) = tree_accepts d a (omega arith) in
      let (r, y, right) = tree_accepts d (a + n) (omega arith) in
      let mid : start + (a + n) ≡ start + a + 2 ^ (b + d) = omega arith in
      let to : start + a + 2 ^ (b + d) + 2 ^ (b + d) ≡ start + a + 2 ^ (b + suc d) =
        rw (z, pow-suc) (omega arith) in
      let both =
        mr.mapreduce_halves d (2 ^ b) (map_stage g hint (2 ^ b) start end (hash end)) (reduce g)
          (range_from a n) (range_from (a + n) n) (length-range_from a n)
          (length-range_from (a + n) n) in
      let (t, q, batch) =
        reduce_accepts g hash data_hash (b + d) end (start + a) (start + a + 2 ^ (b + d))
          (start + a + 2 ^ (b + suc d)) l r refl (sym to) left (rw (mid, to) at right) in
      (t, rw (twice, split) (both ∙ ground (arith, x, y, q)), batch)

  -- The hashes of a chain's headers, where for every batch from the start block on the hint supplies
  -- what `prove_subchain` needs: a range of this chain that is not empty and at most as long as all
  -- batches together is accepted with the hashes of its two ends, and the result is the Merkle
  -- root of the tuples of its blocks. Batches and jobs are powers of two, a batch has fewer than 2 ^ 32 blocks, and the blocks have 64 bits.
  pub prove_data_commitment_accepts :
      (depth : ℕ)
      → start < end
      → end ≤ start + 2 ^ depth * 2 ^ b
      → start + 2 ^ depth * 2 ^ b < 2 ^ 64
      → prove_data_commitment g mapreduce hint depth (2 ^ b) start (hash start) end (hash end)
        ≡ some (blocks_root g data_hash start (end - start))
  unfolding prove_data_commitment
  prove_data_commitment_accepts depth l k m =
      let size = two_pow_add b depth in
      let zero_on : start + 0 ≡ start = omega arith in
      let (t, run, batch) = tree_accepts depth 0 (omega arith) in
      let c = (rw zero_on at batch) in
      let w : add start (2 ^ depth * 2 ^ b) ≡ start + 2 ^ depth * 2 ^ b = omega arith in
      let to : min (start + 2 ^ (b + depth)) end ≡ end = omega arith in
      ground
        (arith, w, run, to, c.started, c.first_header l, c.last_block l, c.last_header l, c.root l)
