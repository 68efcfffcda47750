-- ===== src/Inputs/Shape.antt =====
-- The arrays that the hint of circuits/data_commitment.rs writes, for any source.
use Prim.Native.Nat.{min}
use blobstreamx.Base.{
  ℕ, zero, suc, ◌+◌, ◌-◌, ◌^◌, ◌≡◌, ◌≤◌, ◌<◌, refl, ap, ◌∙◌, some, List, ◌++◌, length,
  length-append, arith, ltb, leb, get_elem?, inl, inr, ◌⊎◌, Bool-cases, Option-cases, true,
}
use blobstreamx.Circuits.{MerkleProof, DataCommitmentProof, add, sub}
use blobstreamx.Inputs.{
  Source, get_data_commitment, get_signed_header_range, get_proofs, header_hashes,
  get_data_commitment_inputs, hint, zero_proof, replicate,
}

pub length-replicate {ℓ} : {A : Type ℓ} (n : ℕ) (x : A) → length (replicate n x) ≡ n
length-replicate zero x = refl
length-replicate (suc n) x = omega (arith, length-replicate n x)

module _ {H : Type 0} (source : Source H) where
  -- What a round adds to the two arrays.
  record Added (headers : List H) (start end i n : ℕ) (ps qs : List MerkleProof) : Type 0 where
    ps' : List MerkleProof
    qs' : List MerkleProof
    rest : get_proofs source headers start end (i + 1) n ≡ some (ps', qs')
    data_hash : i < end → length ps ≡ suc (length ps')
    no_data_hash : end ≤ i → length ps ≡ length ps'
    last_block_id : start < i → length qs ≡ suc (length qs')
    no_last_block_id : i ≤ start → length qs ≡ length qs'

  get_proofs-Added :
      (headers : List H) (start end i n : ℕ) (ps qs : List MerkleProof)
      → get_proofs source headers start end i (suc n) ≡ some (ps, qs)
      → Added headers start end i n ps qs
  unfolding get_proofs
  get_proofs-Added headers start end i n ps qs h =
      elim (Option-cases (get_elem? headers (i - start))) [
        | inl x ↦ absurd (ground arith)
        | inr (header, x) ↦ elim (Option-cases (get_proofs source headers start end (i + 1) n)) [
          | inl y ↦ absurd (ground arith)
          | inr ((ps', qs'), y) ↦ record {
            ps' = ps';
            qs' = qs';
            rest = y;
            data_hash = λ l. ground arith;
            no_data_hash = λ l. ground arith;
            last_block_id = λ l. ground arith;
            no_last_block_id = λ l. ground arith;
          }
        ]
      ]

  -- The rounds after the first: one last block id each, and one data hash each but for the end.
  length-get_proofs_after :
      (headers : List H) (start end i n : ℕ) (ps qs : List MerkleProof)
      → start < i
      → i + n ≡ end + 1
      → get_proofs source headers start end i n ≡ some (ps, qs)
      → (length ps ≡ n - 1) × (length qs ≡ n)
  unfolding get_proofs
  length-get_proofs_after headers start end i zero ps qs l e h = (ground arith, ground arith)
  length-get_proofs_after headers start end i (suc n) ps qs l e h =
      let a = get_proofs-Added headers start end i n ps qs h in
      let (x, y) =
        length-get_proofs_after headers start end (i + 1) n a.ps' a.qs' (omega arith) (omega arith)
          a.rest in
      let z = a.last_block_id l in
      elim (Bool-cases (ltb i end)) [
        | inl more ↦
            let m = a.data_hash (ground arith) in
            let c : i < end = ground arith in (omega arith, omega arith)
        | inr last ↦
            let m = a.no_data_hash (ground arith) in
            let c : end ≤ i = ground arith in (omega arith, omega arith)
      ]

  -- All rounds.
  length-get_proofs :
      (headers : List H) (start end n : ℕ) (ps qs : List MerkleProof)
      → (n ≡ 0) ⊎ (start + n ≡ end + 1)
      → get_proofs source headers start end start n ≡ some (ps, qs)
      → (length ps ≡ n - 1) × (length qs ≡ n - 1)
  unfolding get_proofs
  length-get_proofs headers start end zero ps qs e h = (ground arith, ground arith)
  length-get_proofs headers start end (suc n) ps qs e h =
      let e' : start + suc n ≡ end + 1 = elim e [ inl z ↦ absurd (omega arith) | inr x ↦ x ] in
      let a = get_proofs-Added headers start end start n ps qs h in
      let (x, y) =
        length-get_proofs_after headers start end (start + 1) n a.ps' a.qs' (omega arith)
          (omega arith) a.rest in
      let z = a.no_last_block_id (omega arith) in
      elim (Bool-cases (ltb start end)) [
        | inl more ↦
            let m = a.data_hash (ground arith) in
            let c : start < end = ground arith in (omega arith, omega arith)
        | inr last ↦
            let m = a.no_data_hash (ground arith) in
            let c : end ≤ start = ground arith in (omega arith, omega arith)
      ]

  -- What a hint that is supplied was made of.
  record Made (max start end : ℕ) (p : DataCommitmentProof) : Type 0 where
    headers : List H
    ps : List MerkleProof
    qs : List MerkleProof
    asserted : leb (sub end start) max ≡ true
    got :
        let stop = min end (sub source.latest_block_number 2) in
        get_proofs source headers start stop start (add stop 1 - start) ≡ some (ps, qs)
    data_hashes : p.data_hash_proofs ≡ ps ++ replicate (max - length ps) (zero_proof 34)
    last_block_ids : p.last_block_id_proofs ≡ qs ++ replicate (max - length ps) (zero_proof 72)

  hint-Made :
      (max start end : ℕ) (p : DataCommitmentProof)
      → hint source max start end ≡ some p
      → Made max start end p
  unfolding hint get_data_commitment_inputs
  hint-Made max start end p h =
      let stop = min end (sub source.latest_block_number 2) in
      elim (Option-cases (get_signed_header_range source start stop)) [
        | inl x ↦ absurd (ground arith)
        | inr (headers, x) ↦
            elim (Option-cases (get_proofs source headers start stop start (add stop 1 - start))) [
              | inl y ↦ absurd (ground arith)
              | inr ((ps, qs), y) ↦ elim (Option-cases (get_data_commitment source start stop)) [
                | inl z ↦ absurd (ground arith)
                | inr (c, z) ↦ elim (Option-cases (header_hashes source headers start stop)) [
                  | inl w ↦ absurd (ground arith)
                  | inr ((a, d), w) ↦ record {
                    headers = headers;
                    ps = ps;
                    qs = qs;
                    asserted = ground arith;
                    got = y;
                    data_hashes = ground arith;
                    last_block_ids = ground arith;
                  }
                ]
              ]
            ]
      ]

  -- A hint that is supplied for blocks of 64 bits, whatever the source answers, has exactly
  -- `MAX_LEAVES` proofs in each of its two arrays.
  pub hint-IsFull :
      (max start end : ℕ) (p : DataCommitmentProof)
      → start < 2 ^ 64
      → end < 2 ^ 64
      → hint source max start end ≡ some p
      → (length p.data_hash_proofs ≡ max) × (length p.last_block_id_proofs ≡ max)
  hint-IsFull max start end p l m h =
      let q = hint-Made max start end p h in
      let stop = min end (sub source.latest_block_number 2) in
      let count = add stop 1 - start in
      let a : sub end start ≤ max = ground (arith, q.asserted) in
      let (x, y) =
        length-get_proofs q.headers start stop count q.ps q.qs
          (elim (Bool-cases (ltb start (add stop 1))) [
            | inl z ↦ let z' : start < add stop 1 = ground arith in inr (omega arith)
            | inr z ↦ let z' : add stop 1 ≤ start = ground arith in inl (omega arith)
          ])
          q.got in
      let missing = max - length q.ps in
      let most : length q.ps ≤ max = omega arith in
      let b = length-append q.ps (replicate missing (zero_proof 34)) in
      let c = length-append q.qs (replicate missing (zero_proof 72)) in
      let d = length-replicate missing (zero_proof 34) in
      let e = length-replicate missing (zero_proof 72) in
      (ap length q.data_hashes ∙ omega arith, ap length q.last_block_ids ∙ omega arith)
