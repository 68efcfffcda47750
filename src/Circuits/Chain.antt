-- ===== src/Circuits/Chain.antt =====
-- That `prove_subchain` of circuits/builder.rs only accepts linked headers.
use blobstreamx.Base.{
  ℕ, zero, suc, ◌+◌, ◌≡◌, ◌<◌, ◌≤◌, ◌^◌, refl, sym, Bool, true, false, not, some, List, [], ◌∷◌,
  map, take, length, arith, ◌==◌, Option-cases, inl, inr,
}
use blobstreamx.Circuits.{
  MerkleProof, Gadgets, add, hash_in, data_hash_path, last_block_id_path, verify_block,
  verify_blocks,
}

module _ (g : Gadgets) where
  -- The header with this hash has the data hash, by a proof at its path.
  abbrev pub HasDataHash : (header data_hash : ℕ) → Type 0
  HasDataHash header data_hash =
      (p : MerkleProof) × (g.root_from_proof p data_hash_path ≡ header) × (hash_in p ≡ data_hash)

  -- The header with this hash names the other one as the last block.
  abbrev pub HasLastBlock : (header last_header : ℕ) → Type 0
  HasLastBlock header last_header =
      (p : MerkleProof) × (g.root_from_proof p last_block_id_path ≡ header)
      × (hash_in p ≡ last_header)

  -- Linked headers from the first to the last, with the data hashes of all but the last.
  pub data Chain : ℕ → List ℕ → ℕ → Type 0 where
    alone : {header : ℕ} → Chain header [] header
    linked :
        {first second last data_hash : ℕ} {data_hashes : List ℕ}
        → HasDataHash first data_hash
        → HasLastBlock second first
        → Chain second data_hashes last
        → Chain first (data_hash ∷ data_hashes) last

  module _ (start last global_end_header_hash : ℕ) where
    -- What a round that goes through has checked.
    record Checked (i : ℕ) (p q : MerkleProof) (header : ℕ) (e : Bool) (next : ℕ) : Type 0 where
      data_hash : g.root_from_proof p data_hash_path ≡ header
      last_block : hash_in q ≡ header
      moved : next ≡ g.root_from_proof q last_block_id_path
      flag : e ≡ not (last == add start i)
      at_end : (last == add start i) ≡ true → next ≡ global_end_header_hash

    verify_block-Checked :
        (i : ℕ) (p q : MerkleProof) (header : ℕ) (e : Bool) (next : ℕ)
        → verify_block g start last global_end_header_hash i p q true header ≡ some (e, next)
        → Checked i p q header e next
    unfolding verify_block
    verify_block-Checked i p q header e next h = record {
      data_hash = ground arith;
      last_block = ground arith;
      moved = ground arith;
      flag = ground arith;
      at_end = λ l. ground arith;
    }

    verify_block-disabled :
        (i : ℕ) (p q : MerkleProof) (header : ℕ) (r : Bool × ℕ)
        → verify_block g start last global_end_header_hash i p q false header ≡ some r
        → r ≡ (false, header)
    unfolding verify_block
    verify_block-disabled i p q header r h = ground arith

    verify_blocks-disabled :
        (i : ℕ) (ps qs : List MerkleProof) (header : ℕ) (r : Bool × ℕ)
        → verify_blocks g start last global_end_header_hash i ps qs false header ≡ some r
        → r ≡ (false, header)
    unfolding verify_blocks
    verify_blocks-disabled i [] [] header r h = ground arith
    verify_blocks-disabled i (p ∷ ps) [] header r h = ground arith
    verify_blocks-disabled i [] (q ∷ qs) header r h = ground arith
    verify_blocks-disabled i (p ∷ ps) (q ∷ qs) header r h =
        elim (Option-cases (verify_block g start last global_end_header_hash i p q false header)) [
          | inl n ↦ absurd (ground arith)
          | inr (o, n) ↦
              verify_blocks-disabled (i + 1) ps qs header r
                (ground (arith, verify_block-disabled i p q header o n))
        ]

    here-last : (i : ℕ) → last ≡ start + i + 0 → last < 2 ^ 64 → (last == add start i) ≡ true
    here-last i l b = let e : add start i ≡ last = omega arith in rw e (ground arith)

    here-not_last :
        (i m : ℕ) → last ≡ start + i + suc m → last < 2 ^ 64 → (last == add start i) ≡ false
    here-not_last i m l b = let e : add start i ≡ start + i = omega arith in rw e (ground arith)

    -- What the loop has checked where `n` is the number of blocks up to the last one to process.
    pub record Walked (n : ℕ) (ps : List MerkleProof) (header : ℕ) (r : Bool × ℕ) : Type 0 where
      pub chain : Chain header (take (suc n) (map hash_in ps)) r.1
      pub goes_on : r.0 ≡ true → length ps ≤ n
      pub ends : r.0 ≡ false → (n < length ps) × (r.1 ≡ global_end_header_hash)

    pub verify_blocks-Walked :
        (i n : ℕ) (ps qs : List MerkleProof) (header : ℕ) (r : Bool × ℕ)
        → last ≡ start + i + n
        → last < 2 ^ 64
        → verify_blocks g start last global_end_header_hash i ps qs true header ≡ some r
        → Walked n ps header r
    unfolding verify_blocks
    verify_blocks-Walked i n [] [] header (e, next) l b h =
        let (f, k) : (e ≡ true) × (next ≡ header) = (ground arith, ground arith) in
        record { chain = rw k alone; goes_on = λ t. omega arith; ends = λ t. absurd (ground arith) }
    verify_blocks-Walked i n (p ∷ ps) [] header r l b h = absurd (ground arith)
    verify_blocks-Walked i n [] (q ∷ qs) header r l b h = absurd (ground arith)
    verify_blocks-Walked i zero (p ∷ ps) (q ∷ qs) header r l b h =
        elim (Option-cases (verify_block g start last global_end_header_hash i p q true header)) [
          | inl n ↦ absurd (ground arith)
          | inr ((e, next), n) ↦
              let c = verify_block-Checked i p q header e next n in
              let here : (last == add start i) ≡ true = here-last i l b in
              let k : r ≡ (false, next) =
                verify_blocks-disabled (i + 1) ps qs next r (ground (arith, c.flag)) in
              rw k (record {
                chain = linked (p, c.data_hash, refl) (q, sym c.moved, c.last_block) alone;
                goes_on = λ t. absurd (ground arith);
                ends = λ t. (omega arith, c.at_end here);
              })
        ]
    verify_blocks-Walked i (suc m) (p ∷ ps) (q ∷ qs) header r l b h =
        elim (Option-cases (verify_block g start last global_end_header_hash i p q true header)) [
          | inl n ↦ absurd (ground arith)
          | inr ((e, next), n) ↦
              let c = verify_block-Checked i p q header e next n in
              let here : (last == add start i) ≡ false = here-not_last i m l b in
              let w =
                verify_blocks-Walked (i + 1) m ps qs next r (omega arith) b
                  (ground (arith, c.flag)) in
              record {
                chain = linked (p, c.data_hash, refl) (q, sym c.moved, c.last_block) w.chain;
                goes_on = λ t. omega (arith, w.goes_on t);
                ends = λ t. (omega (arith, (w.ends t).0), (w.ends t).1);
              }
        ]
