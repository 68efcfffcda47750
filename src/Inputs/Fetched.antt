-- ===== src/Inputs/Fetched.antt =====
-- What the fetcher of circuits/input.rs returns for a chain that its source knows.
use mathlib.Core.List.{append-nil}
use Prim.Native.Nat.{min}
use blobstreamx.Base.{
  ℕ, zero, suc, ◌+◌, ◌-◌, ◌≡◌, ◌≤◌, ◌<◌, ◌^◌, refl, sym, ap, some, List, [], ◌∷◌, ◌++◌, map,
  get_elem?, arith, ltb, leb, true, false, inl, inr, Bool-cases,
}
use blobstreamx.Base.Bytes.{Bytes}
use blobstreamx.Circuits.{MerkleProof, add}
use blobstreamx.Circuits.DataCommitment.{range_from}
use blobstreamx.Circuits.DataCommitment.Ranges.{range_from-append, get_elem?-range_from}
use blobstreamx.Inputs.{
  Source, get_signed_headers, get_signed_header_range, get_proofs, data_hash_index,
  last_block_id_proof,
}

pub map-append {ℓ κ} :
    {A : Type ℓ} {B : Type κ} (f : A → B) (xs ys : List A) → map f (xs ++ ys) ≡ map f xs ++ map f ys
map-append f [] ys = refl
map-append f (x ∷ xs) ys = ap (◌∷◌ (f x)) (map-append f xs ys)

pub get_elem?-map {ℓ κ} :
    {A : Type ℓ} {B : Type κ} (f : A → B) (xs : List A) (i : ℕ) (x : A)
    → get_elem? xs i ≡ some x
    → get_elem? (map f xs) i ≡ some (f x)
get_elem?-map f [] i x e = absurd (ground arith)
get_elem?-map f (y ∷ xs) zero x e = ground arith
get_elem?-map f (y ∷ xs) (suc i) x e = get_elem?-map f xs i x e

module _ {H : Type 0} (source : Source H) where
  abbrev pub headers_from : (a n : ℕ) → List H
  headers_from a n = map source.signed_header_from_number (range_from a n)

  pub get_elem?-headers_from :
      (i a n : ℕ)
      → i < n
      → get_elem? (headers_from a n) i ≡ some (source.signed_header_from_number (a + i))
  get_elem?-headers_from i a n h =
      get_elem?-map source.signed_header_from_number (range_from a n) i (a + i)
        (get_elem?-range_from i a n h)

  headers_from-batch :
      (a end : ℕ)
      → a ≤ end
      → headers_from a (min (a + 200) (end + 1) - a) ++ headers_from (a + 200) (end + 1 - (a + 200))
        ≡ headers_from a (end + 1 - a)
  headers_from-batch a end l = elim (Bool-cases (ltb (a + 200) (end + 1))) [
    | inl more ↦
        let h : a + 200 < end + 1 = ground arith in
        let rest = end + 1 - (a + 200) in
        let n : min (a + 200) (end + 1) - a ≡ 200 = omega arith in
        let t : end + 1 - a ≡ 200 + rest = omega arith in
        rw (n, t, range_from-append a (a + 200) 200 rest refl)
          (sym (
            map-append source.signed_header_from_number (range_from a 200)
              (range_from (a + 200) rest)))
    | inr last ↦
        let h : end + 1 ≤ a + 200 = ground arith in
        let n : min (a + 200) (end + 1) - a ≡ end + 1 - a = omega arith in
        let z : end + 1 - (a + 200) ≡ 0 = omega arith in
        rw (n, z) (append-nil (headers_from a (end + 1 - a)))
  ]

  get_signed_headers-all :
      (fuel a end : ℕ)
      → end + 200 < 2 ^ 64
      → end + 1 - a < fuel
      → get_signed_headers source fuel a end ≡ some (headers_from a (end + 1 - a))
  unfolding get_signed_headers
  get_signed_headers-all zero a end b f = absurd (omega arith)
  get_signed_headers-all (suc fuel) a end b f = elim (Bool-cases (ltb end a)) [
    | inl past ↦ let e : end + 1 - a ≡ 0 = ground arith in rw e (ground arith)
    | inr here ↦
        let l : a ≤ end = ground arith in
        let k : add a 200 ≡ a + 200 = omega arith in
        let k' : add end 1 ≡ end + 1 = omega arith in
        let more = get_signed_headers-all fuel (a + 200) end b (omega arith) in
        let on : leb a end ≡ true = ground arith in
        rw (k, k', on, more) (ap some (headers_from-batch a end l))
  ]

  -- Where `end + 200` has 64 bits, the loop over batches ends and returns the headers of all blocks
  -- from `start` up to `end`, in order, and none when `end` is below `start`.
  pub get_signed_header_range-all :
      (start end : ℕ)
      → end + 200 < 2 ^ 64
      → get_signed_header_range source start end ≡ some (headers_from start (end + 1 - start))
  unfolding get_signed_header_range
  get_signed_header_range-all start end b =
      get_signed_headers-all (suc (end + 1 - start)) start end b (omega arith)

  module _ (leaf : ℕ → Bytes) where
    -- The proofs of the block at a height.
    abbrev pub data_hash_proof_at : ℕ → MerkleProof
    data_hash_proof_at h =
        source.inclusion_proof (source.signed_header_from_number h) data_hash_index (leaf h)

    abbrev pub last_block_id_proof_at : ℕ → MerkleProof
    last_block_id_proof_at h = last_block_id_proof source (source.signed_header_from_number h)

    module _ (start end : ℕ)
        (known : (h : ℕ)
          → start ≤ h
          → h ≤ end
          → source.data_hash (source.signed_header_from_number h) ≡ some (leaf h)) where
      header_at :
          (i : ℕ)
          → start ≤ i
          → i ≤ end
          → get_elem? (headers_from start (end + 1 - start)) (i - start)
            ≡ some (source.signed_header_from_number i)
      header_at i l m =
          let back : start + (i - start) ≡ i = omega arith in
          rw back at (get_elem?-headers_from (i - start) start (end + 1 - start) (omega arith))

      get_proofs-after :
          (i n : ℕ)
          → start < i
          → i + n ≡ end + 1
          → get_proofs source (headers_from start (end + 1 - start)) start end i n
            ≡ some (
              map data_hash_proof_at (range_from i (n - 1)),
              map last_block_id_proof_at (range_from i n),
            )
      unfolding get_proofs
      get_proofs-after i zero l e = refl
      get_proofs-after i (suc zero) l e =
          let at_i = header_at i (omega arith) (omega arith) in
          let on : ltb start i ≡ true = ground arith in
          let off : ltb i end ≡ false = ground arith in rw (at_i, on, off) refl
      get_proofs-after i (suc (suc n)) l e =
          let at_i = header_at i (omega arith) (omega arith) in
          let d = known i (omega arith) (omega arith) in
          let on : ltb start i ≡ true = ground arith in
          let on' : ltb i end ≡ true = ground arith in
          let more = get_proofs-after (i + 1) (suc n) (omega arith) (omega arith) in
          let n' : suc n - 1 ≡ n = omega arith in
          let n'' : suc (suc n) - 1 ≡ suc n = omega arith in
          rw (at_i, on, on', d, more, n', n'') refl

      -- The proofs of the whole range: the data hashes from its start on, the last block ids from
      -- the next block on.
      pub get_proofs-all :
          (n : ℕ)
          → start + n ≡ end + 1
          → get_proofs source (headers_from start (end + 1 - start)) start end start n
            ≡ some (
              map data_hash_proof_at (range_from start (n - 1)),
              map last_block_id_proof_at (range_from (start + 1) (n - 1)),
            )
      unfolding get_proofs
      get_proofs-all zero e = refl
      get_proofs-all (suc zero) e =
          let at_i = header_at start (omega arith) (omega arith) in
          let off : ltb start start ≡ false = ground arith in
          let off' : ltb start end ≡ false = ground arith in rw (at_i, off, off') refl
      get_proofs-all (suc (suc n)) e =
          let at_i = header_at start (omega arith) (omega arith) in
          let d = known start (omega arith) (omega arith) in
          let off : ltb start start ≡ false = ground arith in
          let on : ltb start end ≡ true = ground arith in
          let more = get_proofs-after (start + 1) (suc n) (omega arith) (omega arith) in
          let n' : suc n - 1 ≡ n = omega arith in
          let n'' : suc (suc n) - 1 ≡ suc n = omega arith in
          rw (at_i, off, on, d, more, n', n'') refl
