-- ===== src/Contract/History.antt =====
-- What holds of every history of calls to contracts/src/BlobstreamX.sol: the data commitments tile
-- the blocks, and stay as they were stored.
use blobstreamx.Base.{
  ℕ, ◌+◌, ◌≡◌, ◌<◌, refl, Bool, true, false, List, [], ◌∷◌, ◌++◌, arith, suc, ◌-◌, subst,
}
use blobstreamx.Contract.Types.{
  Storage, Message, Result, ok, revert, Outcome, Event, Upgradeable, head_update,
  data_commitment_stored, next_header_requested, header_range_requested,
}
use blobstreamx.Contract.Transactions.{
  Call, initializes, updates_freeze, updates_gateway, updates_function_ids, updates_genesis_state,
  requests_header_range, commits_header_range, requests_next_header, commits_next_header, exec, run,
  storage_after, logs_of,
}
use blobstreamx.Contract.Commits.{Commits, commit_header_range-Commits, commit_next_header-Commits}
use blobstreamx.Contract.{
  update_freeze, update_gateway, update_function_ids, request_header_range, request_next_header,
  commit_next_header,
}

-- The data commitments in `logs`, in order, cover the blocks from `from` up to `to` with no gap and
-- no overlap, under the nonces from `n` up to `m`.
abbrev pub Tiles : (from n : ℕ) → List Event → (to m : ℕ) → Type 0
Tiles from n [] to m = (from ≡ to) × (n ≡ m)
Tiles from n (data_commitment_stored k a b c ∷ es) to m =
    (k ≡ n) × (a ≡ from) × (a < b) × Tiles b (n + 1) es to m
Tiles from n (head_update b h ∷ es) to m = Tiles from n es to m
Tiles from n (next_header_requested b h ∷ es) to m = Tiles from n es to m
Tiles from n (header_range_requested b h t ∷ es) to m = Tiles from n es to m

Tiles-append :
    (from n via k to m : ℕ) (es fs : List Event)
    → Tiles from n es via k
    → Tiles via k fs to m
    → Tiles from n (es ++ fs) to m
Tiles-append from n via k to m [] fs s t = rw (s.0, s.1) t
Tiles-append from n via k to m (data_commitment_stored i a b c ∷ es) fs s t =
    (s.0, s.1, s.2, Tiles-append b (n + 1) via k to m es fs s.3 t)
Tiles-append from n via k to m (head_update b h ∷ es) fs s t =
    Tiles-append from n via k to m es fs s t
Tiles-append from n via k to m (next_header_requested b h ∷ es) fs s t =
    Tiles-append from n via k to m es fs s t
Tiles-append from n via k to m (header_range_requested b h i ∷ es) fs s t =
    Tiles-append from n via k to m es fs s t

-- The calls that set the light client's state anew.
abbrev pub resets : Call → Bool
resets (initializes p) = true
resets (updates_genesis_state h x) = true
resets _ = false

-- No call of the history resets the light client.
abbrev pub NoReset : List (Call × Message) → Type 0
NoReset [] = Unit
NoReset ((c, msg) ∷ cs) = (resets c ≡ false) × NoReset cs

module _ {R : Type 0} where
  -- No header is stored above the latest block.
  abbrev pub NoneAbove : Storage R → Type 0
  NoneAbove s = (k : ℕ) → s.block_height_to_header_hash (s.latest_block + suc k) ≡ 0

  abbrev pub IsBounded : Storage R → Type 0
  IsBounded s = (h : ℕ) → s.latest_block < h → s.block_height_to_header_hash h ≡ 0

  pub record Extends (s : Storage R) (o : Outcome R) : Type 0 where
    pub tiles :
        Tiles s.latest_block s.state_proof_nonce o.logs o.storage.latest_block
          o.storage.state_proof_nonce
    pub none_above : IsBounded o.storage

  Commits-Extends :
      (s : Storage R) (start end : ℕ) (o : Outcome R)
      → start ≡ s.latest_block
      → IsBounded s
      → Commits s start end o
      → Extends s o
  Commits-Extends s start end o b n c = record {
    tiles = ground (arith, c.stored, c.forward);
    none_above = λ h l. ground (arith, n h, c.stored, c.forward);
  }

  commit_next_header-Extends :
      (b : ℕ) (msg : Message) (s : Storage R) (o : Outcome R)
      → IsBounded s
      → commit_next_header b msg s ≡ ok o
      → Extends s o
  commit_next_header-Extends b msg s o n e =
      let c = commit_next_header-Commits b msg s o e in
      Commits-Extends s b (b + 1) o (ground (arith, n b, c.trusted, c.forward)) n c

  pub exec-Extends :
      (u : Upgradeable R) (c : Call) (msg : Message) (s : Storage R) (o : Outcome R)
      → resets c ≡ false
      → IsBounded s
      → exec u c msg s ≡ ok o
      → Extends s o
  unfolding exec update_freeze update_gateway update_function_ids request_header_range
      request_next_header
  exec-Extends u (initializes p) msg s o r n e = absurd (ground arith)
  exec-Extends u (updates_genesis_state h x) msg s o r n e = absurd (ground arith)
  exec-Extends u (updates_freeze b) msg s o r n e = record {
    tiles = ground arith;
    none_above = λ h l. ground (arith, n h);
  }
  exec-Extends u (updates_gateway a) msg s o r n e = record {
    tiles = ground arith;
    none_above = λ h l. ground (arith, n h);
  }
  exec-Extends u (updates_function_ids a b) msg s o r n e = record {
    tiles = ground arith;
    none_above = λ h l. ground (arith, n h);
  }
  exec-Extends u (requests_header_range t) msg s o r n e = record {
    tiles = ground arith;
    none_above = λ h l. ground (arith, n h);
  }
  exec-Extends u requests_next_header msg s o r n e = record {
    tiles = ground arith;
    none_above = λ h l. ground (arith, n h);
  }
  exec-Extends u (commits_header_range t) msg s o r n e =
      Commits-Extends s s.latest_block t o refl n (commit_header_range-Commits t msg s o e).0
  exec-Extends u (commits_next_header b) msg s o r n e = commit_next_header-Extends b msg s o n e

  result-Extends :
      (s : Storage R) (r : Result (Outcome R))
      → IsBounded s
      → ((o : Outcome R) → r ≡ ok o → Extends s o)
      → Tiles s.latest_block s.state_proof_nonce
          (logs_of r)
          (storage_after s r).latest_block
          (storage_after s r).state_proof_nonce
        × IsBounded (storage_after s r)
  result-Extends s (ok o) n h = let x = h o refl in (x.tiles, x.none_above)
  result-Extends s (revert e) n h = ((refl, refl), n)

  run-IsBounded :
      (u : Upgradeable R) (cs : List (Call × Message)) (s : Storage R)
      → NoReset cs
      → IsBounded s
      → let (s', logs) = run u cs s in
        Tiles s.latest_block s.state_proof_nonce logs s'.latest_block s'.state_proof_nonce
        × IsBounded s'
  unfolding run
  run-IsBounded u [] s r n = ((refl, refl), n)
  run-IsBounded u ((c, msg) ∷ cs) s r n =
      let q = exec u c msg s in
      let s' = storage_after s q in
      let (t, k) = result-Extends s q n (λ o e. exec-Extends u c msg s o r.0 n e) in
      let (rest, k') = run-IsBounded u cs s' r.1 k in
      let (s'', logs) = run u cs s' in
      (
        Tiles-append s.latest_block s.state_proof_nonce s'.latest_block s'.state_proof_nonce
            s''.latest_block s''.state_proof_nonce (logs_of q) logs t rest,
        k',
      )

  pub NoneAbove-IsBounded : (s : Storage R) → NoneAbove s → IsBounded s
  NoneAbove-IsBounded s n h l =
      let k = h - s.latest_block - 1 in
      let e : s.latest_block + suc k ≡ h = omega arith in
      subst (λ j. s.block_height_to_header_hash j ≡ 0) e (n k)

  -- Over any history with no reset, from a storage with no header above its latest block, the data
  -- commitments in the logs tile the blocks from the old latest block up to the new one, under
  -- consecutive nonces from the old nonce up to the new one.
  pub run-Tiles :
      (u : Upgradeable R) (cs : List (Call × Message)) (s : Storage R)
      → NoReset cs
      → NoneAbove s
      → let (s', logs) = run u cs s in
        Tiles s.latest_block s.state_proof_nonce logs s'.latest_block s'.state_proof_nonce
  run-Tiles u cs s r n = (run-IsBounded u cs s r (NoneAbove-IsBounded s n)).0
