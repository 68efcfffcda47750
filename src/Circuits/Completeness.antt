-- ===== src/Circuits/Completeness.antt =====
-- That the loop of `prove_subchain` of circuits/builder.rs goes through on a chain whose headers have
-- the hashes `hash` and the data hashes `data_hash`, when its arrays hold the proofs of that chain.
pub mod Roots
pub mod Batches
pub mod Joins
pub mod Whole
use Prim.Native.Nat.{min}
use blobstreamx.Base.{
  ℕ, zero, suc, ◌+◌, ◌-◌, ◌≡◌, ◌<◌, ◌≤◌, ◌^◌, refl, ap, not, ◌∙◌, ◌⊎◌, ◌≢◌, Bool, true, false, some,
  List, [], ◌∷◌, map, take, length, arith, ltb, ◌==◌, Bool-cases, Option-cases, inl, inr,
}
use blobstreamx.Circuits.{
  MerkleProof, Gadgets, DataCommitmentProof, Subchain, ◌>>=◌, sub, add, hash_in, data_hash_path,
  last_block_id_path, leaves_from, verify_block, verify_blocks, get_data_commitment, prove_subchain,
  reduce,
}
use blobstreamx.Circuits.DataCommitment.{range_from}

Nat-cases : (a b : ℕ) → (a ≡ b) ⊎ (a ≢ b)
Nat-cases zero zero = inl refl
Nat-cases zero (suc b) = inr (omega arith)
Nat-cases (suc a) zero = inr (omega arith)
Nat-cases (suc a) (suc b) = elim (Nat-cases a b) [
  | inl e ↦ inl (ap suc e)
  | inr n ↦ inr (omega (arith, n))
]

module _ (g : Gadgets) (hash data_hash : ℕ → ℕ) where
  -- The two arrays have the same length, and the first `n` of their proofs are those of the blocks
  -- from `h` on: the data hash of each, and the last block id of the next.
  pub data Genuine : ℕ → ℕ → List MerkleProof → List MerkleProof → Type 0 where
    padding : {h : ℕ} {ps qs : List MerkleProof} → length ps ≡ length qs → Genuine h 0 ps qs
    genuine :
        {h n : ℕ} {p q : MerkleProof} {ps qs : List MerkleProof}
        → g.root_from_proof p data_hash_path ≡ hash h
        → hash_in p ≡ data_hash h
        → g.root_from_proof q last_block_id_path ≡ hash (h + 1)
        → hash_in q ≡ hash h
        → Genuine (h + 1) n ps qs
        → Genuine h (suc n) (p ∷ ps) (q ∷ qs)

  pub Genuine-length :
      {h n : ℕ} {ps qs : List MerkleProof} → Genuine h n ps qs → length ps ≡ length qs
  Genuine-length (padding e) = e
  Genuine-length (genuine d c l i rest) = omega (arith, Genuine-length rest)

  pub Genuine-le : {h n : ℕ} {ps qs : List MerkleProof} → Genuine h n ps qs → n ≤ length ps
  Genuine-le (padding e) = omega arith
  Genuine-le (genuine d c l i rest) = omega (arith, Genuine-le rest)

  -- The data hashes that the proofs hold.
  pub Genuine-hashes :
      (n h m : ℕ) {ps qs : List MerkleProof}
      → Genuine h m ps qs
      → n ≤ m
      → take n (map hash_in ps) ≡ map data_hash (range_from h n)
  Genuine-hashes zero h m x l = refl
  Genuine-hashes (suc n) h zero (padding e) l = absurd (omega arith)
  Genuine-hashes (suc n) h (suc m) (genuine d c l i rest) b =
      rw (c, Genuine-hashes n (h + 1) m rest (omega arith)) refl

  module _ (start last global_end_header_hash : ℕ) where
    pub verify_blocks_off :
        (i : ℕ) (ps qs : List MerkleProof) (header : ℕ)
        → length ps ≡ length qs
        → last < start + i
        → start + i + length ps < 2 ^ 64
        → verify_blocks g start last global_end_header_hash i ps qs false header
          ≡ some (false, header)
    unfolding verify_blocks verify_block
    verify_blocks_off i [] [] header e l m = refl
    verify_blocks_off i [] (q ∷ qs) header e l m = absurd (omega arith)
    verify_blocks_off i (p ∷ ps) [] header e l m = absurd (omega arith)
    verify_blocks_off i (p ∷ ps) (q ∷ qs) header e l m =
        let k : add start i ≡ start + i = omega arith in
        ground (
          arith,
          k,
          verify_blocks_off (i + 1) ps qs header (omega arith) (omega arith) (omega arith),
        )

    verify_block_passes :
        (i h : ℕ) (p q : MerkleProof)
        → h ≡ start + i
        → h < 2 ^ 64
        → g.root_from_proof p data_hash_path ≡ hash h
        → g.root_from_proof q last_block_id_path ≡ hash (h + 1)
        → hash_in q ≡ hash h
        → (last ≡ h → global_end_header_hash ≡ hash (h + 1))
        → verify_block g start last global_end_header_hash i p q true (hash h)
          ≡ some (not (last == h), hash (h + 1))
    unfolding verify_block
    verify_block_passes i h p q s b x y z a =
        let k : add start i ≡ h = omega arith in
        elim (Nat-cases last h) [ inl e ↦ let c = a e in ground arith | inr n ↦ ground arith ]

    -- The last block to process is among the blocks with genuine proofs.
    pub verify_blocks_ends :
        (i h n : ℕ) (ps qs : List MerkleProof)
        → Genuine h n ps qs
        → h ≡ start + i
        → h ≤ last
        → last < h + n
        → start + i + length ps < 2 ^ 64
        → global_end_header_hash ≡ hash (last + 1)
        → verify_blocks g start last global_end_header_hash i ps qs true (hash h)
          ≡ some (false, hash (last + 1))
    unfolding verify_blocks
    verify_blocks_ends i h zero ps qs x s l b m a = absurd (omega arith)
    verify_blocks_ends i h (suc n) [] qs x s l b m a = elim x [ ]
    verify_blocks_ends i h (suc n) (p ∷ ps) [] x s l b m a = elim x [ ]
    verify_blocks_ends i h (suc n) (p ∷ ps) (q ∷ qs) (genuine x d y z rest) s l b m a =
        let k =
          verify_block_passes i h p q s (omega arith) x y z (λ e. a ∙ ap hash (omega arith)) in
        let e = Genuine-length rest in
        elim (Nat-cases last h) [
          | inl f ↦
              let off =
                verify_blocks_off (i + 1) ps qs (hash (h + 1)) e (omega arith) (omega arith) in
              let t : hash (last + 1) ≡ hash (h + 1) = ap hash (omega arith) in
              ground (arith, k, off, t)
          | inr f ↦
              let more =
                verify_blocks_ends (i + 1) (h + 1) n ps qs rest (omega arith) (omega arith)
                  (omega arith) (omega arith) a in
              ground (arith, k, more)
        ]

    -- All proofs are genuine, and the last block to process is after them.
    pub verify_blocks_goes_on :
        (i h n : ℕ) (ps qs : List MerkleProof)
        → Genuine h n ps qs
        → h ≡ start + i
        → length ps ≡ n
        → h + n ≤ last
        → start + i + length ps < 2 ^ 64
        → verify_blocks g start last global_end_header_hash i ps qs true (hash h)
          ≡ some (true, hash (h + n))
    unfolding verify_blocks
    verify_blocks_goes_on i h zero [] [] x s k b m = let e : h + 0 ≡ h = omega arith in rw e refl
    verify_blocks_goes_on i h zero [] (q ∷ qs) (padding e) s k b m = absurd (omega arith)
    verify_blocks_goes_on i h zero (p ∷ ps) qs x s k b m = absurd (omega arith)
    verify_blocks_goes_on i h (suc n) [] qs x s k b m = elim x [ ]
    verify_blocks_goes_on i h (suc n) (p ∷ ps) [] x s k b m = elim x [ ]
    verify_blocks_goes_on i h (suc n) (p ∷ ps) (q ∷ qs) (genuine x d y z rest) s k b m =
        let c = verify_block_passes i h p q s (omega arith) x y z (λ e. absurd (omega arith)) in
        let more =
          verify_blocks_goes_on (i + 1) (h + 1) n ps qs rest (omega arith) (omega arith)
            (omega arith) (omega arith) in
        let e : h + suc n ≡ h + 1 + n = omega arith in rw e (ground (arith, c, more))
