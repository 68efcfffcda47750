-- ===== src/Circuits/Completeness/Batches.antt =====
-- That `prove_subchain` of circuits/builder.rs accepts a batch of a chain whose headers have the
-- hashes `hash` and the data hashes `data_hash`.
use Prim.Native.Nat.{min}
use blobstreamx.Base.{
  ℕ, ◌+◌, ◌-◌, ◌≡◌, ◌<◌, ◌≤◌, ◌^◌, ap, ◌∙◌, ◌⊎◌, refl, true, false, some, List, map, length,
  get_elem?, arith, ltb, Bool-cases, Option-cases, inl, inr,
}
use blobstreamx.Circuits.Completeness.{
  Genuine, padding, genuine, Genuine-length, Genuine-le, Genuine-hashes, verify_blocks_off,
  verify_blocks_ends, verify_blocks_goes_on,
}
use blobstreamx.Circuits.Completeness.Roots.{blocks_root}
use blobstreamx.Circuits.DataCommitment.Leaves.{tuples, GadgetLaws, root_from_leaves-tuples}
use blobstreamx.Circuits.Merkle.{merkle_root}
use blobstreamx.Circuits.Soundness.{prove_subchain-Chain, length-map}
use blobstreamx.Circuits.{
  MerkleProof, Gadgets, DataCommitmentProof, Subchain, hash_in, data_hash_path, sub, verify_blocks,
  get_data_commitment, prove_subchain,
}

module _ (g : Gadgets) (hash data_hash : ℕ → ℕ) where
  -- The result for the blocks from `s` up to `e` where the range ends at `end`.
  pub record Batch (end s e : ℕ) (t : Subchain) : Type 0 where
    pub enabled : t.is_enabled ≡ ltb s end
    pub started : t.start_block ≡ s
    pub first_header : s < end → t.start_header ≡ hash s
    pub last_block : s < end → t.end_block ≡ min e end
    pub last_header : s < end → t.end_header ≡ hash (min e end)
    pub root : s < end → t.data_merkle_root ≡ blocks_root g data_hash s (min e end - s)

  -- What `prove_subchain` needs for the blocks from `s` up to `e`.
  pub record Supplied (end s e : ℕ) (proof : DataCommitmentProof) : Type 0 where
    pub known : ℕ
    pub proofs : Genuine g hash data_hash s known proof.data_hash_proofs proof.last_block_id_proofs
    pub size : s + length proof.data_hash_proofs ≡ e
    pub enough : (end ≤ s + known) ⊎ (e ≡ s + known)
    pub first_header : s < end → proof.start_header ≡ hash s
    pub last_header : e < end → proof.end_header ≡ hash e

  Genuine-first :
      {h n : ℕ} {ps qs : List MerkleProof}
      → Genuine g hash data_hash h n ps qs
      → 0 < n
      → (p : MerkleProof) × (get_elem? ps 0 ≡ some p)
        × (g.root_from_proof p data_hash_path ≡ hash h)
        × (hash_in p ≡ data_hash h)
  Genuine-first (padding e) l = absurd (omega arith)
  Genuine-first (genuine {p = p} d c i x rest) l = (p, refl, d, c)

  -- The first proof is that of the block `s`, if the range goes beyond it.
  pub Supplied-first :
      {end s e : ℕ} {proof : DataCommitmentProof}
      → Supplied end s e proof
      → s < end
      → s < e
      → (p : MerkleProof) × (get_elem? proof.data_hash_proofs 0 ≡ some p)
        × (g.root_from_proof p data_hash_path ≡ hash s)
        × (hash_in p ≡ data_hash s)
  Supplied-first p l m =
      Genuine-first p.proofs (elim p.enough [ inl a ↦ omega arith | inr a ↦ omega arith ])

  module _ (laws : GadgetLaws g) (end s e : ℕ) (proof : DataCommitmentProof)
      (p : Supplied end s e proof) (positive : 0 < end) (end-lt : end < 2 ^ 64) (e-lt : e < 2 ^ 64)
      (forward : s < e) (short : e - s < 2 ^ 32) where
    -- How the loop of `prove_subchain` ends on these proofs.
    abbrev Looped : Type 0
    Looped =
        (header : ℕ) × (verify_blocks g s (sub end 1) (hash end) 0 proof.data_hash_proofs
            proof.last_block_id_proofs (ltb s end) proof.start_header
          ≡ some (ltb e end, header))
        × (s < end → header ≡ hash (min e end))

    loop_disabled : end ≤ s → Looped
    loop_disabled above =
        let last : sub end 1 ≡ end - 1 = omega arith in
        let size = p.size in
        let (off, done) : (ltb s end ≡ false) × (ltb e end ≡ false) =
          (ground arith, ground arith) in
        (
          proof.start_header,
          rw (last, off, done)
              (verify_blocks_off g hash data_hash s (end - 1) (hash end) 0 proof.data_hash_proofs
                proof.last_block_id_proofs proof.start_header
                (Genuine-length g hash data_hash p.proofs) (omega arith) (omega arith)),
          λ x. absurd (omega arith),
        )

    loop_goes_on : s < end → e < end → Looped
    loop_goes_on below m =
        let last : sub end 1 ≡ end - 1 = omega arith in
        let first = p.first_header below in
        let most = Genuine-le g hash data_hash p.proofs in
        let size = p.size in
        let (on, more) : (ltb s end ≡ true) × (ltb e end ≡ true) = (ground arith, ground arith) in
        let k : e ≡ s + p.known = elim p.enough [ inl a ↦ omega arith | inr a ↦ a ] in
        let to : s + p.known ≡ min e end = omega arith in
        (
          hash (s + p.known),
          rw (last, on, more, first)
              (verify_blocks_goes_on g hash data_hash s (end - 1) (hash end) 0 s p.known
                proof.data_hash_proofs proof.last_block_id_proofs p.proofs (omega arith)
                (omega arith) (omega arith) (omega arith)),
          λ x. ap hash to,
        )

    loop_ends : s < end → end ≤ e → Looped
    loop_ends below m =
        let last : sub end 1 ≡ end - 1 = omega arith in
        let first = p.first_header below in
        let size = p.size in
        let (on, done) : (ltb s end ≡ true) × (ltb e end ≡ false) = (ground arith, ground arith) in
        let k : end ≤ s + p.known = elim p.enough [ inl a ↦ a | inr a ↦ omega arith ] in
        let to : end - 1 + 1 ≡ end = omega arith in
        let at_end : end ≡ min e end = omega arith in
        (
          hash end,
          rw (last, on, done, first)
              (rw to at (
                verify_blocks_ends g hash data_hash s (end - 1) (hash end) 0 s p.known
                  proof.data_hash_proofs proof.last_block_id_proofs p.proofs (omega arith)
                  (omega arith) (omega arith) (omega arith) (ap hash (omega arith)))),
          λ x. ap hash at_end,
        )

    loop_accepts : Looped
    loop_accepts = elim (Bool-cases (ltb s end)) [
      | inl on ↦ elim (Bool-cases (ltb e end)) [
        | inl more ↦ loop_goes_on (ground arith) (ground arith)
        | inr done ↦ loop_ends (ground arith) (ground arith)
      ]
      | inr off ↦ loop_disabled (ground arith)
    ]

    prove_subchain_root :
        (t : Subchain)
        → prove_subchain g proof s e end (hash end) ≡ some t
        → s < end
        → t.is_enabled ≡ true
        → t.end_block ≡ min e end
        → t.data_merkle_root ≡ blocks_root g data_hash s (min e end - s)
    unfolding blocks_root
    prove_subchain_root t h below on stops =
        let ps = map hash_in proof.data_hash_proofs in
        let size = p.size in
        let (c, ends, r) =
          prove_subchain-Chain g proof s end (hash end) t end-lt (rw (← size) at h) on in
        let n : t.end_block - s ≡ min e end - s = ap (λ x. x - s) stops in
        let most = Genuine-le g hash data_hash p.proofs in
        let all = length-map hash_in proof.data_hash_proofs in
        let known : min e end - s ≤ p.known = elim p.enough [
          | inl a ↦ omega arith
          | inr a ↦ omega arith
        ] in
        (rw n at r)
        ∙ root_from_leaves-tuples g laws ps s (min e end - s) (omega arith) (omega arith)
            (omega arith)
        ∙ ap (λ ds. merkle_root g (tuples s ds))
            (Genuine-hashes g hash data_hash (min e end - s) s p.known p.proofs known)

    pub prove_subchain_accepts :
        (t : Subchain) × (prove_subchain g proof s e end (hash end) ≡ some t) × Batch end s e t
    unfolding prove_subchain get_data_commitment
    prove_subchain_accepts =
        let (header, q, r) = loop_accepts in
        elim (Option-cases (prove_subchain g proof s e end (hash end))) [
          | inl n ↦ absurd (ground (arith, q, r, p.last_header, p.size))
          | inr (t, n) ↦
              let on : t.is_enabled ≡ ltb s end = ground arith in
              let stops : s < end → t.end_block ≡ min e end = λ x. ground arith in
              (
                t,
                n,
                record {
                  enabled = on;
                  started = ground arith;
                  first_header = λ x. ground (arith, p.first_header x);
                  last_block = stops;
                  last_header = λ x. ground (arith, q, r x);
                  root = λ x. prove_subchain_root t n x (on ∙ ground arith) (stops x);
                },
              )
        ]
