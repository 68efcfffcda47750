-- ===== src/Contract/Attestations.antt =====
-- A data commitment, once stored by contracts/src/BlobstreamX.sol, is what attestations are checked
-- against for ever after.
use blobstreamx.Base.{
  ℕ, ◌+◌, ◌≡◌, ◌<◌, ◌≤◌, refl, Bool, true, false, List, [], ◌∷◌, ◌++◌, arith, ◌∙◌,
}
use blobstreamx.Contract.Types.{
  DataRootTuple, BinaryMerkleProof, MerkleVerify, Storage, Message, Result, ok, revert, Outcome,
  Event, Upgradeable, head_update, data_commitment_stored, next_header_requested,
  header_range_requested,
}
use blobstreamx.Contract.Abi.{encode_data_root_tuple}
use blobstreamx.Contract.Transactions.{
  Call, initializes, updates_freeze, updates_gateway, updates_function_ids, updates_genesis_state,
  requests_header_range, commits_header_range, requests_next_header, commits_next_header, exec, run,
  storage_after, logs_of,
}
use blobstreamx.Contract.Commits.{Commits, commit_header_range-Commits, commit_next_header-Commits}
use blobstreamx.Contract.{
  update_freeze, update_gateway, update_function_ids, update_genesis_state, request_header_range,
  request_next_header, verify_attestation,
}

-- Every data commitment in the logs has a nonce from `n` up to `m`, under which `store` holds it.
abbrev pub Recorded : (n m : ℕ) → (ℕ → ℕ) → List Event → Type 0
Recorded n m store [] = Unit
Recorded n m store (data_commitment_stored k a b c ∷ es) =
    (n ≤ k) × (k < m) × (store k ≡ c) × Recorded n m store es
Recorded n m store (head_update b h ∷ es) = Recorded n m store es
Recorded n m store (next_header_requested b h ∷ es) = Recorded n m store es
Recorded n m store (header_range_requested b h t ∷ es) = Recorded n m store es

Recorded-mono :
    (n k m m' : ℕ) (f g : ℕ → ℕ) (es : List Event)
    → n ≤ k
    → m ≤ m'
    → ((i : ℕ) → i < m → g i ≡ f i)
    → Recorded k m f es
    → Recorded n m' g es
Recorded-mono n k m m' f g [] a b h r = tt
Recorded-mono n k m m' f g (data_commitment_stored i x y c ∷ es) a b h r =
    (omega arith, omega arith, ground (arith, h i r.1), Recorded-mono n k m m' f g es a b h r.3)
Recorded-mono n k m m' f g (head_update x y ∷ es) a b h r = Recorded-mono n k m m' f g es a b h r
Recorded-mono n k m m' f g (next_header_requested x y ∷ es) a b h r =
    Recorded-mono n k m m' f g es a b h r
Recorded-mono n k m m' f g (header_range_requested x y z ∷ es) a b h r =
    Recorded-mono n k m m' f g es a b h r

Recorded-append :
    (n m : ℕ) (f : ℕ → ℕ) (es fs : List Event)
    → Recorded n m f es
    → Recorded n m f fs
    → Recorded n m f (es ++ fs)
Recorded-append n m f [] fs r s = s
Recorded-append n m f (data_commitment_stored i x y c ∷ es) fs r s =
    (r.0, r.1, r.2, Recorded-append n m f es fs r.3 s)
Recorded-append n m f (head_update x y ∷ es) fs r s = Recorded-append n m f es fs r s
Recorded-append n m f (next_header_requested x y ∷ es) fs r s = Recorded-append n m f es fs r s
Recorded-append n m f (header_range_requested x y z ∷ es) fs r s = Recorded-append n m f es fs r s

abbrev initializing : Call → Bool
initializing (initializes p) = true
initializing _ = false

-- The contract is not initialized again.
abbrev pub NoInitialize : List (Call × Message) → Type 0
NoInitialize [] = Unit
NoInitialize ((c, msg) ∷ cs) = (initializing c ≡ false) × NoInitialize cs

module _ {R : Type 0} where
  -- From `s` to `s'`, with `logs` on the way, the store of data commitments has only grown.
  record Keeps (s s' : Storage R) (logs : List Event) : Type 0 where
    grows : s.state_proof_nonce ≤ s'.state_proof_nonce
    kept :
        (k : ℕ) → k < s.state_proof_nonce → s'.state_data_commitments k ≡ s.state_data_commitments k
    recorded : Recorded s.state_proof_nonce s'.state_proof_nonce s'.state_data_commitments logs

  Commits-Keeps :
      (s : Storage R) (start end : ℕ) (o : Outcome R)
      → Commits s start end o
      → Keeps s o.storage o.logs
  Commits-Keeps s start end o c = record {
    grows = ground (arith, c.stored);
    kept = λ k l. ground (arith, c.stored);
    recorded = ground (arith, c.stored);
  }

  exec-Keeps :
      (u : Upgradeable R) (c : Call) (msg : Message) (s : Storage R) (o : Outcome R)
      → initializing c ≡ false
      → exec u c msg s ≡ ok o
      → Keeps s o.storage o.logs
  unfolding exec update_freeze update_gateway update_function_ids update_genesis_state
      request_header_range request_next_header
  exec-Keeps u (initializes p) msg s o r e = absurd (ground arith)
  exec-Keeps u (updates_genesis_state h x) msg s o r e = record {
    grows = ground arith;
    kept = λ k l. ground arith;
    recorded = ground arith;
  }
  exec-Keeps u (updates_freeze b) msg s o r e = record {
    grows = ground arith;
    kept = λ k l. ground arith;
    recorded = ground arith;
  }
  exec-Keeps u (updates_gateway a) msg s o r e = record {
    grows = ground arith;
    kept = λ k l. ground arith;
    recorded = ground arith;
  }
  exec-Keeps u (updates_function_ids a b) msg s o r e = record {
    grows = ground arith;
    kept = λ k l. ground arith;
    recorded = ground arith;
  }
  exec-Keeps u (requests_header_range t) msg s o r e = record {
    grows = ground arith;
    kept = λ k l. ground arith;
    recorded = ground arith;
  }
  exec-Keeps u requests_next_header msg s o r e = record {
    grows = ground arith;
    kept = λ k l. ground arith;
    recorded = ground arith;
  }
  exec-Keeps u (commits_header_range t) msg s o r e =
      Commits-Keeps s s.latest_block t o (commit_header_range-Commits t msg s o e).0
  exec-Keeps u (commits_next_header b) msg s o r e =
      Commits-Keeps s b (b + 1) o (commit_next_header-Commits b msg s o e)

  result-Keeps :
      (s : Storage R) (r : Result (Outcome R))
      → ((o : Outcome R) → r ≡ ok o → Keeps s o.storage o.logs)
      → Keeps s (storage_after s r) (logs_of r)
  result-Keeps s (ok o) h = h o refl
  result-Keeps s (revert e) h = record { grows = omega arith; kept = λ k l. refl; recorded = tt }

  Keeps-append :
      (s t v : Storage R) (es fs : List Event) → Keeps s t es → Keeps t v fs → Keeps s v (es ++ fs)
  Keeps-append s t v es fs a b = record {
    grows = omega (arith, a.grows, b.grows);
    kept = λ k l. b.kept k (omega (arith, a.grows)) ∙ a.kept k l;
    recorded =
        Recorded-append s.state_proof_nonce v.state_proof_nonce v.state_data_commitments es fs
          (Recorded-mono s.state_proof_nonce s.state_proof_nonce t.state_proof_nonce
            v.state_proof_nonce t.state_data_commitments v.state_data_commitments es (omega arith)
            b.grows b.kept a.recorded)
          (Recorded-mono s.state_proof_nonce t.state_proof_nonce v.state_proof_nonce
            v.state_proof_nonce v.state_data_commitments v.state_data_commitments fs a.grows
            (omega arith) (λ i l. refl) b.recorded);
  }

  run-Keeps :
      (u : Upgradeable R) (cs : List (Call × Message)) (s : Storage R)
      → NoInitialize cs
      → let (s', logs) = run u cs s in Keeps s s' logs
  unfolding run
  run-Keeps u [] s h = record { grows = omega arith; kept = λ k l. refl; recorded = tt }
  run-Keeps u ((c, msg) ∷ cs) s h =
      let q = exec u c msg s in
      let s' = storage_after s q in
      let (s'', logs) = run u cs s' in
      Keeps-append s s' s'' (logs_of q) logs
        (result-Keeps s q (λ o e. exec-Keeps u c msg s o h.0 e)) (run-Keeps u cs s' h.1)

  -- Each data commitment in the logs is the root that `verify_attestation` checks under its nonce.
  abbrev pub IsVouched :
      MerkleVerify → DataRootTuple → BinaryMerkleProof → Storage R → List Event → Type 0
  IsVouched verify tuple proof s [] = Unit
  IsVouched verify tuple proof s (data_commitment_stored k a b c ∷ es) =
      (verify_attestation verify k tuple proof s
        ≡ ok (verify c proof (encode_data_root_tuple tuple)))
      × IsVouched verify tuple proof s es
  IsVouched verify tuple proof s (head_update b h ∷ es) = IsVouched verify tuple proof s es
  IsVouched verify tuple proof s (next_header_requested b h ∷ es) =
      IsVouched verify tuple proof s es
  IsVouched verify tuple proof s (header_range_requested b h t ∷ es) =
      IsVouched verify tuple proof s es

  Recorded-IsVouched :
      (verify : MerkleVerify) (tuple : DataRootTuple) (proof : BinaryMerkleProof) (n : ℕ)
      (s : Storage R) (es : List Event)
      → 0 < n
      → s.frozen ≡ false
      → Recorded n s.state_proof_nonce s.state_data_commitments es
      → IsVouched verify tuple proof s es
  unfolding verify_attestation
  Recorded-IsVouched verify tuple proof n s [] p f r = tt
  Recorded-IsVouched verify tuple proof n s (data_commitment_stored k a b c ∷ es) p f r =
      (ground arith, Recorded-IsVouched verify tuple proof n s es p f r.3)
  Recorded-IsVouched verify tuple proof n s (head_update b h ∷ es) p f r =
      Recorded-IsVouched verify tuple proof n s es p f r
  Recorded-IsVouched verify tuple proof n s (next_header_requested b h ∷ es) p f r =
      Recorded-IsVouched verify tuple proof n s es p f r
  Recorded-IsVouched verify tuple proof n s (header_range_requested b h t ∷ es) p f r =
      Recorded-IsVouched verify tuple proof n s es p f r

  -- After any history without another initialization, genesis updates included, that ends on an
  -- unfrozen contract: every data commitment that the history logged is the root against which
  -- `verify_attestation` checks a tuple and a proof under the logged nonce, provided that the
  -- nonce was positive at the start.
  pub run-IsVouched :
      (u : Upgradeable R) (verify : MerkleVerify) (tuple : DataRootTuple)
      (proof : BinaryMerkleProof) (cs : List (Call × Message)) (s : Storage R)
      → NoInitialize cs
      → 0 < s.state_proof_nonce
      → (run u cs s).0.frozen ≡ false
      → let (s', logs) = run u cs s in IsVouched verify tuple proof s' logs
  run-IsVouched u verify tuple proof cs s h p f =
      Recorded-IsVouched verify tuple proof s.state_proof_nonce (run u cs s).0 (run u cs s).1 p f
        (run-Keeps u cs s h).recorded
