-- ===== src/Inputs/Supplied.antt =====
-- What the hint of circuits/data_commitment.rs supplies for a chain that its source knows.
use Prim.Native.Nat.{min}
use blobstreamx.Base.{
  ℕ, zero, suc, ◌+◌, ◌-◌, ◌≡◌, ◌≤◌, ◌<◌, ◌^◌, refl, sym, ◌∙◌, ap, ◌⊎◌, some, List, ◌++◌, map,
  length, length-append, arith, ltb, leb, true, inl, inr, Bool-cases,
}
use blobstreamx.Base.Bytes.{Bytes}
use blobstreamx.Circuits.{
  MerkleProof, Gadgets, DataCommitmentProof, add, sub, hash_in, data_hash_path, last_block_id_path,
}
use blobstreamx.Circuits.Soundness.{length-map}
use blobstreamx.Circuits.Completeness.{Genuine, padding, genuine}
use blobstreamx.Circuits.Completeness.Batches.{Supplied}
use blobstreamx.Circuits.DataCommitment.{range_from}
use blobstreamx.Circuits.DataCommitment.Ranges.{length-range_from}
use blobstreamx.Inputs.{
  Source, get_data_commitment, get_proofs, header_hashes, get_data_commitment_inputs, hint,
  zero_proof, replicate,
}
use blobstreamx.Inputs.Shape.{length-replicate}
use blobstreamx.Inputs.Fetched.{
  headers_from, get_elem?-headers_from, get_signed_header_range-all, data_hash_proof_at,
  last_block_id_proof_at, get_proofs-all,
}

module _ {H : Type 0} (g : Gadgets) (source : Source H) (hash : ℕ → ℕ) (leaf : ℕ → Bytes)
    (data_hash : ℕ → ℕ) where
  -- The source knows a chain up to its latest block, in which the header at `h` has the hash
  -- `hash h` and the data hash `data_hash h`, encoded as `leaf h`, and its proofs are valid.
  pub record Knows : Type 0 where
    pub hashed : (h : ℕ) → source.hash (source.signed_header_from_number h) ≡ hash h
    pub known :
        (h : ℕ)
        → h ≤ source.latest_block_number
        → source.data_hash (source.signed_header_from_number h) ≡ some (leaf h)
    pub data_hash_valid :
        (h : ℕ)
        → h ≤ source.latest_block_number
        → g.root_from_proof (data_hash_proof_at source leaf h) data_hash_path ≡ hash h
    pub data_hash_held :
        (h : ℕ)
        → h ≤ source.latest_block_number
        → hash_in (data_hash_proof_at source leaf h) ≡ data_hash h
    pub last_block_id_valid :
        (h : ℕ)
        → 0 < h
        → h + 1 ≤ source.latest_block_number
        → g.root_from_proof (last_block_id_proof_at source leaf (h + 1)) last_block_id_path
          ≡ hash (h + 1)
    pub linked :
        (h : ℕ)
        → 0 < h
        → h + 1 ≤ source.latest_block_number
        → hash_in (last_block_id_proof_at source leaf (h + 1)) ≡ hash h
    pub served :
        (a b : ℕ)
        → a < b
        → b ≤ source.latest_block_number
        → (c : ℕ) × (source.request_data_commitment a b ≡ some c)

  module _ (k : Knows) where
    fetched-Genuine :
        (s m : ℕ) (xs ys : List MerkleProof)
        → 0 < s
        → m ≤ source.latest_block_number - s
        → length xs ≡ length ys
        → Genuine g hash data_hash s m
            (map (data_hash_proof_at source leaf) (range_from s m) ++ xs)
            (map (last_block_id_proof_at source leaf) (range_from (s + 1) m) ++ ys)
    fetched-Genuine s zero xs ys p l e = padding e
    fetched-Genuine s (suc m) xs ys p l e =
        genuine (k.data_hash_valid s (omega arith)) (k.data_hash_held s (omega arith))
          (k.last_block_id_valid s p (omega arith)) (k.linked s p (omega arith))
          (fetched-Genuine (s + 1) m xs ys (omega arith) (omega arith) e)

    -- The last block that is fetched of the blocks from `s` up to `e`.
    abbrev stop : ℕ → ℕ
    stop e = min e (source.latest_block_number - 2)

    proofs :
        (s e : ℕ)
        → get_proofs source (headers_from source s (stop e + 1 - s)) s (stop e) s (stop e + 1 - s)
          ≡ some (
            map (data_hash_proof_at source leaf) (range_from s (stop e - s)),
            map (last_block_id_proof_at source leaf) (range_from (s + 1) (stop e - s)),
          )
    unfolding get_proofs
    proofs s e = elim (Bool-cases (ltb (stop e) s)) [
      | inl past ↦
          let h : stop e < s = ground arith in
          let z : stop e + 1 - s ≡ 0 = omega arith in
          let z' : stop e - s ≡ 0 = omega arith in rw (z, z') refl
      | inr here ↦
          let h : s ≤ stop e = ground arith in
          let n : stop e + 1 - s - 1 ≡ stop e - s = omega arith in
          rw n at (
            get_proofs-all source leaf s (stop e) (λ i x y. k.known i (omega arith))
              (stop e + 1 - s) (omega arith))
    ]

    hashes :
        (s e : ℕ)
        → (a b : ℕ) × (header_hashes source (headers_from source s (stop e + 1 - s)) s (stop e)
            ≡ some (a, b))
          × (s < stop e → (a ≡ hash s) × (b ≡ hash (stop e)))
    unfolding header_hashes
    hashes s e = elim (Bool-cases (ltb s (stop e))) [
      | inl on ↦
          let l : s < stop e = ground arith in
          let n = stop e + 1 - s in
          let first = get_elem?-headers_from source 0 s n (omega arith) in
          let last = get_elem?-headers_from source (stop e - s) s n (omega arith) in
          let size : length (headers_from source s n) ≡ n =
            length-map source.signed_header_from_number (range_from s n) ∙ length-range_from s n in
          let back : n - 1 ≡ stop e - s = omega arith in
          let (from, to) : (s + 0 ≡ s) × (s + (stop e - s) ≡ stop e) = (omega arith, omega arith) in
          (
            source.hash (source.signed_header_from_number (s + 0)),
            source.hash (source.signed_header_from_number (s + (stop e - s))),
            rw (on, size, back, first, last) refl,
            λ x. (k.hashed (s + 0) ∙ ap hash from, k.hashed (s + (stop e - s)) ∙ ap hash to),
          )
      | inr off ↦ (0, 0, rw off refl, λ x. absurd (ground arith))
    ]

    expected : (s e : ℕ) → (c : ℕ) × (get_data_commitment source s (stop e) ≡ some c)
    unfolding get_data_commitment
    expected s e = elim (Bool-cases (leb (stop e) s)) [
      | inl off ↦ (0, rw off refl)
      | inr on ↦ let (c, q) = k.served s (stop e) (ground arith) (omega arith) in (c, rw on q)
    ]

    abbrev arrays : (m max : ℕ) → (a : ℕ) → (ℕ → MerkleProof) → (size : ℕ) → List MerkleProof
    arrays m max a proof size = map proof (range_from a m) ++ replicate (max - m) (zero_proof size)

    length-arrays :
        (m max a : ℕ) (proof : ℕ → MerkleProof) (size : ℕ)
        → m ≤ max
        → length (arrays m max a proof size) ≡ max
    length-arrays m max a proof size h =
        let x =
          length-append (map proof (range_from a m)) (replicate (max - m) (zero_proof size)) in
        let y = length-map proof (range_from a m) in
        let z = length-range_from a m in
        let w = length-replicate (max - m) (zero_proof size) in omega arith

    -- Either the whole batch is fetched or the range ends in what is fetched.
    fetched_enough :
        (max s end : ℕ)
        → 0 < s
        → end + 2 ≤ source.latest_block_number
        → (end ≤ s + (stop (s + max) - s)) ⊎ (s + max ≡ s + (stop (s + max) - s))
    fetched_enough max s end z b =
        elim (Bool-cases (leb (s + max) (source.latest_block_number - 2))) [
          | inl x ↦
              let y : s + max ≤ source.latest_block_number - 2 = ground arith in inr (omega arith)
          | inr x ↦
              let y : source.latest_block_number - 2 < s + max = ground arith in inl (omega arith)
        ]

    -- What the hint supplies for a batch.
    pub hint-Supplied :
        (max s end : ℕ)
        → 0 < s
        → 0 < max
        → s + max < 2 ^ 64
        → end + 2 ≤ source.latest_block_number
        → source.latest_block_number + 200 < 2 ^ 64
        → (p : DataCommitmentProof) × (hint source max s (s + max) ≡ some p)
          × Supplied g hash data_hash end s (s + max) p
    unfolding hint get_data_commitment_inputs
    hint-Supplied max s end z z' m b n =
        let e = s + max in
        let r = stop e in
        let count = r - s in
        let (a, d, q, ends) = hashes s e in
        let (c, w) = expected s e in
        let safe : sub source.latest_block_number 2 ≡ source.latest_block_number - 2 =
          omega arith in
        let span : leb (sub e s) max ≡ true =
          let y : sub e s ≡ max = omega arith in rw y (ground arith) in
        let r' : add r 1 ≡ r + 1 = omega arith in
        let fetched = get_signed_header_range-all source s r (omega arith) in
        let size : length (map (data_hash_proof_at source leaf) (range_from s count)) ≡ count =
          length-map (data_hash_proof_at source leaf) (range_from s count)
          ∙ length-range_from s count in
        let most : count ≤ max = omega arith in
        let ps = arrays count max s (data_hash_proof_at source leaf) 34 in
        let qs = arrays count max (s + 1) (last_block_id_proof_at source leaf) 72 in
        (
          record {
            start_header = a;
            end_header = d;
            data_hash_proofs = ps;
            last_block_id_proofs = qs;
          },
          rw (span, safe, fetched, r', proofs s e, size, w, q) refl,
          record {
            known = count;
            proofs =
                fetched-Genuine s count (replicate (max - count) (zero_proof 34))
                  (replicate (max - count) (zero_proof 72)) z (omega arith)
                  (length-replicate (max - count) (zero_proof 34)
                    ∙ sym (length-replicate (max - count) (zero_proof 72)));
            size =
                ap (λ x. s + x)
                  (length-arrays count max s (data_hash_proof_at source leaf) 34 most);
            enough = fetched_enough max s end z b;
            first_header = λ x. (ends (omega arith)).0;
            last_header = λ x. (ends (omega arith)).1 ∙ ap hash (omega arith);
          },
        )
