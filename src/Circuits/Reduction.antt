-- ===== src/Circuits/Reduction.antt =====
-- What the reduce stage of `prove_data_commitment` in circuits/builder.rs proves of two subchains.
use blobstreamx.Base.{
  ℕ, ◌+◌, ◌≡◌, ap, true, false, some, List, ◌++◌, length, arith, if◌then◌else◌, Bool-cases, inl,
  inr, length-append,
}
use blobstreamx.Circuits.{Gadgets, Subchain, reduce}
use blobstreamx.Circuits.Merkle.{inner_hash}
use blobstreamx.Circuits.Chain.{Chain, alone, linked}

module _ (g : Gadgets) where
  pub Chain-append :
      {first middle last : ℕ} {ds es : List ℕ}
      → Chain g first ds middle
      → Chain g middle es last
      → Chain g first (ds ++ es) last
  Chain-append alone d = d
  Chain-append (linked p q c) d = linked p q (Chain-append c d)

  -- The result of the reduce stage where the right subchain is enabled.
  pub record Joined (l r t : Subchain) : Type 0 where
    pub linked_headers : l.end_header ≡ r.start_header
    pub linked_blocks : l.end_block ≡ r.start_block
    pub is_enabled : t.is_enabled ≡ l.is_enabled
    pub start_block : t.start_block ≡ l.start_block
    pub start_header : t.start_header ≡ l.start_header
    pub end_block : t.end_block ≡ r.end_block
    pub end_header : t.end_header ≡ r.end_header
    pub data_merkle_root : t.data_merkle_root ≡ inner_hash g l.data_merkle_root r.data_merkle_root

  pub reduce-Joined :
      (l r t : Subchain) → r.is_enabled ≡ true → reduce g l r ≡ some t → Joined l r t
  unfolding reduce
  reduce-Joined l r t on h = record {
    linked_headers = ground arith;
    linked_blocks = ground arith;
    is_enabled = ground arith;
    start_block = ground arith;
    start_header = ground arith;
    end_block = ground arith;
    end_header = ground arith;
    data_merkle_root = ground arith;
  }

  -- Where it is disabled, the left one is kept.
  pub reduce_kept : (l r t : Subchain) → r.is_enabled ≡ false → reduce g l r ≡ some t → t ≡ l
  unfolding reduce
  reduce_kept l r t off h = ground arith

  -- The subchain goes over linked headers, one block each, that have these data hashes.
  pub record Covers (t : Subchain) (hashes : List ℕ) : Type 0 where
    pub headers : Chain g t.start_header hashes t.end_header
    pub blocks : t.end_block ≡ t.start_block + length hashes

  Joined-Covers :
      (l r t : Subchain) (ds es : List ℕ)
      → Joined l r t
      → Covers l ds
      → Covers r es
      → Covers t (ds ++ es)
  Joined-Covers l r t ds es j c d =
      let right : Chain g l.end_header es r.end_header = rw j.linked_headers d.headers in
      let size = length-append ds es in
      let (m, n) : (l.end_block ≡ l.start_block + length ds)
          × (r.end_block ≡ r.start_block + length es) =
        (c.blocks, d.blocks) in
      record {
        headers = rw (j.start_header, j.end_header) (Chain-append c.headers right);
        blocks = omega arith;
      }

  -- Two subchains that the reduce stage accepts: if the left one goes over linked headers, and the
  -- right one as well unless it is disabled, the result goes over the headers of the left followed
  -- by those of an enabled right one, and is enabled if the left one is.
  pub reduce-Covers :
      (l r t : Subchain) (ds es : List ℕ)
      → reduce g l r ≡ some t
      → Covers l ds
      → (r.is_enabled ≡ true → Covers r es)
      → Covers t (if r.is_enabled then ds ++ es else ds) × (t.is_enabled ≡ l.is_enabled)
  reduce-Covers l r t ds es h c d = elim (Bool-cases r.is_enabled) [
    | inl on ↦
        let j = reduce-Joined l r t on h in
        (rw on (Joined-Covers l r t ds es j c (d on)), j.is_enabled)
    | inr off ↦ let e = reduce_kept l r t off h in (rw (off, e) c, ap (λ x. x.is_enabled) e)
  ]
