-- ===== src/Circuits/Soundness.antt =====
-- What `prove_subchain` of circuits/builder.rs proves of a batch.
use blobstreamx.Base.{
  ℕ, zero, suc, ◌+◌, ◌-◌, ◌≡◌, ◌<◌, ◌≤◌, ◌^◌, ◌⊎◌, refl, sym, ap, ◌∙◌, Bool, true, some, List, [],
  ◌∷◌, map, take, length, arith, ltb, Bool-cases, Option-cases, inl, inr,
}
use blobstreamx.Circuits.{
  Gadgets, DataCommitmentProof, Subchain, sub, hash_in, leaves_from, verify_blocks,
  get_data_commitment, prove_subchain,
}
use blobstreamx.Circuits.Chain.{Chain, verify_blocks-Walked}

take-all {ℓ} : {A : Type ℓ} (n : ℕ) (xs : List A) → length xs ≤ n → take n xs ≡ xs
take-all zero [] h = refl
take-all zero (x ∷ xs) h = absurd (omega arith)
take-all (suc n) [] h = refl
take-all (suc n) (x ∷ xs) h = ap (λ l. x ∷ l) (take-all n xs (omega arith))

pub length-map {ℓ κ} :
    {A : Type ℓ} {B : Type κ} (f : A → B) (xs : List A) → length (map f xs) ≡ length xs
length-map f [] = refl
length-map f (x ∷ xs) = ap suc (length-map f xs)

module _ (g : Gadgets) where
  -- What the rest of `prove_subchain` does with the outcome of its loop.
  record Proved (proof : DataCommitmentProof) (s e end end_header_hash : ℕ) (t : Subchain)
      (b : Bool) (header : ℕ) : Type 0 where
    enabled : t.is_enabled ≡ ltb s end
    started : t.start_block ≡ s
    trusted : t.start_header ≡ proof.start_header
    header_kept : t.end_header ≡ header
    before : end ≤ e → s < end → t.end_block ≡ end
    within : e < end → s ≤ e → t.end_block ≡ e
    committed :
        get_data_commitment g (map hash_in proof.data_hash_proofs) s t.end_block
        ≡ some t.data_merkle_root

  prove_subchain-Proved :
      (proof : DataCommitmentProof) (s e end end_header_hash : ℕ) (t : Subchain) (b : Bool)
      (header : ℕ)
      → verify_blocks g s
          (sub end 1)
          end_header_hash
          0
          proof.data_hash_proofs
          proof.last_block_id_proofs
          (ltb s end)
          proof.start_header
        ≡ some (b, header)
      → prove_subchain g proof s e end end_header_hash ≡ some t
      → Proved proof s e end end_header_hash t b header
  unfolding prove_subchain
  prove_subchain-Proved proof s e end end_header_hash t b header q h = record {
    enabled = ground arith;
    started = ground arith;
    trusted = ground arith;
    header_kept = ground arith;
    before = λ x y. ground arith;
    within = λ x y. ground arith;
    committed = ground arith;
  }

  get_data_commitment-root :
      (hashes : List ℕ) (s e root : ℕ)
      → get_data_commitment g hashes s e ≡ some root
      → e < 2 ^ 64
      → (s ≤ e) × (root ≡ g.root_from_leaves (leaves_from s 0 hashes) (e - s))
  unfolding get_data_commitment
  get_data_commitment-root hashes s e root h b =
      let o : s ≤ e = ground arith in
      let n : sub e s ≡ e - s = omega arith in
      let r : root ≡ g.root_from_leaves (leaves_from s 0 hashes) (sub e s) = ground arith in
      (o, rw n at r)

  prove_subchain-loop :
      (proof : DataCommitmentProof) (s e end end_header_hash : ℕ) (t : Subchain)
      → prove_subchain g proof s e end end_header_hash ≡ some t
      → (r : Bool × ℕ) × (verify_blocks g s
            (sub end 1)
            end_header_hash
            0
            proof.data_hash_proofs
            proof.last_block_id_proofs
            (ltb s end)
            proof.start_header
          ≡ some r)
  unfolding prove_subchain
  prove_subchain-loop proof s e end end_header_hash t h =
      elim (Option-cases (
        verify_blocks g s (sub end 1) end_header_hash 0 proof.data_hash_proofs
          proof.last_block_id_proofs (ltb s end) proof.start_header)) [
            | inl n ↦ absurd (ground arith)
            | inr x ↦ x
          ]

  -- Where a subchain starts, enabled or not.
  pub prove_subchain-start :
      (proof : DataCommitmentProof) (s e end end_header_hash : ℕ) (t : Subchain)
      → prove_subchain g proof s e end end_header_hash ≡ some t
      → (t.is_enabled ≡ ltb s end) × (t.start_block ≡ s) × (t.start_header ≡ proof.start_header)
  prove_subchain-start proof s e end end_header_hash t h =
      let ((b, header), q) = prove_subchain-loop proof s e end end_header_hash t h in
      let p = prove_subchain-Proved proof s e end end_header_hash t b header q h in
      (p.enabled, p.started, p.trusted)

  -- A batch that `prove_subchain` accepts and enables, of as many blocks as it has proofs, where the
  -- global end block has 64 bits: the headers from the start header of the proof up to the end
  -- header of the result are linked, each with the data hash of its proof; the result ends at the end
  -- of the batch, or at the global end block with its header if that is not after it; and its root
  -- is the one over the tuples of the batch with those of these headers enabled.
  pub prove_subchain-Chain :
      (proof : DataCommitmentProof) (s end end_header_hash : ℕ) (t : Subchain)
      → end < 2 ^ 64
      → prove_subchain g proof s (s + length proof.data_hash_proofs) end end_header_hash ≡ some t
      → t.is_enabled ≡ true
      → let hashes = map hash_in proof.data_hash_proofs in
        let e = s + length proof.data_hash_proofs in
        Chain g proof.start_header (take (t.end_block - s) hashes) t.end_header
        × (((e < end) × (t.end_block ≡ e))
            ⊎ ((end ≤ e) × (t.end_block ≡ end) × (t.end_header ≡ end_header_hash)))
        × (t.data_merkle_root ≡ g.root_from_leaves (leaves_from s 0 hashes) (t.end_block - s))
  prove_subchain-Chain proof s end end_header_hash t b h a =
      let ps = proof.data_hash_proofs in
      let hashes = map hash_in ps in
      let e = s + length ps in
      let ((f, header), q) = prove_subchain-loop proof s e end end_header_hash t h in
      let p = prove_subchain-Proved proof s e end end_header_hash t f header q h in
      let on : ltb s end ≡ true = sym p.enabled ∙ a in
      let below : s < end = ground arith in
      let w =
        verify_blocks-Walked g s (sub end 1) end_header_hash 0 (end - 1 - s) ps
          proof.last_block_id_proofs proof.start_header (f, header) (omega arith) (omega arith)
          (rw on at q) in
      let size = length-map hash_in ps in
      elim (Bool-cases f) [
        | inl x ↦
            let short : length ps ≤ end - 1 - s = w.goes_on x in
            let at_end : t.end_block ≡ e = p.within (omega arith) (omega arith) in
            let all : take (suc (end - 1 - s)) hashes ≡ take (t.end_block - s) hashes =
              take-all (suc (end - 1 - s)) hashes (omega arith)
              ∙ sym (take-all (t.end_block - s) hashes (omega arith)) in
            (
              rw (p.header_kept, ← all) w.chain,
              inl (omega arith, at_end),
              (get_data_commitment-root hashes s t.end_block t.data_merkle_root p.committed
                  (omega arith)).1,
            )
        | inr x ↦
            let (long, last) = w.ends x in
            let at_end : t.end_block ≡ end = p.before (omega arith) below in
            let all : suc (end - 1 - s) ≡ t.end_block - s = omega arith in
            (
              rw (p.header_kept, ← all) w.chain,
              inr (omega arith, at_end, p.header_kept ∙ last),
              (get_data_commitment-root hashes s t.end_block t.data_merkle_root p.committed
                  (omega arith)).1,
            )
      ]
