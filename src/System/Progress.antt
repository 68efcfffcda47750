-- ===== src/System/Progress.antt =====
-- That the contract of contracts/src/BlobstreamX.sol keeps up with the chain when the operator of
-- bin/blobstreamx.rs and the circuits of circuits/ serve it.
use blobstreamx.Base.{
  ℕ, zero, suc, ◌+◌, ◌-◌, ◌*◌, ◌^◌, ◌≡◌, ◌≤◌, ◌<◌, ◌⊎◌, refl, sym, ◌∙◌, ap, true, none, some, ltb,
  arith, inl, inr, Bool-cases, Option-cases,
}
use blobstreamx.Base.Bytes.{Bytes}
use blobstreamx.Circuits.Completeness.Roots.{blocks_root}
use blobstreamx.Circuits.Programs.{Library, LibraryLaws}
use blobstreamx.Contract.Requests.{callback_call}
use blobstreamx.Contract.Transactions.{exec, storage_after}
use blobstreamx.Contract.{store_commit}
use blobstreamx.Contract.Types.{Storage, Message, Upgradeable}
use blobstreamx.Inputs.{Source}
use blobstreamx.Inputs.Supplied.{Knows}
use blobstreamx.Operator.{Submission, Answers, requested, submission, round}
use blobstreamx.Operator.Targets.{round-Found, round-requested}
use blobstreamx.Operator.Requests.{Asks-fulfilled}
use blobstreamx.Operator.Progress.{round_submits}
use blobstreamx.System.Proofs.{root-lt, submitted_answer}
use blobstreamx.System.{turn, turns, Provisioned, Works, Follows, Committed, nothing, range}

module _ {H : Type 0} (lib : Library) (laws : LibraryLaws lib) (source : Source H) (hash : ℕ → ℕ)
    (leaf : ℕ → Bytes) (data_hash : ℕ → ℕ) (k : Knows lib.gadgets source hash leaf data_hash)
    (skip_max depth b head : ℕ) (p : Provisioned source hash skip_max depth b head) {R : Type 0}
    {address range_id next_id : ℕ} {observe : Storage R → Answers} {msg : Message}
    (works : Works lib source hash skip_max depth b head address range_id next_id observe msg) where
  -- A turn that committed blocks of the chain.
  record Moved (m : ℕ) (s s' : Storage R) : Type 0 where
    follows : Follows hash head address range_id next_id s'
    forward : s.latest_block < s'.latest_block
    within : s'.latest_block ≤ s.latest_block + m
    nonce : s'.state_proof_nonce ≡ s.state_proof_nonce + 1
    committed :
        s'.state_data_commitments s.state_proof_nonce
        ≡ blocks_root lib.gadgets data_hash s.latest_block (s'.latest_block - s.latest_block)
    kept :
        (i : ℕ) → i < s.state_proof_nonce → s'.state_data_commitments i ≡ s.state_data_commitments i

  store_commit-Moved :
      (m t : ℕ) (s : Storage R)
      → Follows hash head address range_id next_id s
      → s.latest_block < t
      → t ≤ s.latest_block + m
      → t ≤ head
      → s.state_proof_nonce + 1 < 2 ^ 256
      → let root = blocks_root lib.gadgets data_hash s.latest_block (t - s.latest_block) in
        Moved m s (storage_after s (store_commit s.latest_block t (hash t) root s))
  store_commit-Moved m t s f l w h n = record {
    follows = record {
      thawed = ground (arith, f.thawed);
      gateway_kept = ground (arith, f.gateway_kept);
      range_kept = ground (arith, f.range_kept);
      next_kept = ground (arith, f.next_kept);
      positive = ground arith;
      below = ground arith;
      header = ground arith;
    };
    forward = ground arith;
    within = ground arith;
    nonce = ground arith;
    committed = ground arith;
    kept = λ i z. ground arith;
  }

  module _ (u : Upgradeable R) (i m : ℕ) (capped : m ≤ 10000) (fits : m ≤ 2 ^ depth * 2 ^ b) where
    turn_relays :
        (s : Storage R) (r : Submission)
        → round i m (observe s) ≡ requested r true
        → turn u i m observe msg s ≡ storage_after s (exec u (callback_call r.function_data) msg s)
    unfolding turn
    turn_relays s r e = ground arith

    turn-Moved :
        (s : Storage R) (r : Submission)
        → Follows hash head address range_id next_id s
        → s.state_proof_nonce + 1 < 2 ^ 256
        → submission (round i m (observe s)) ≡ some r
        → Moved m s (turn u i m observe msg s)
    turn-Moved s r f n e =
        let w = observe s in
        let reads = works.reads s in
        let at_head = works.at_head s in
        let h : s.latest_block ≤ head = f.below in
        let top : w.latest_height < 2 ^ 64 = omega arith in
        let span : s.latest_block + m < 2 ^ 64 = omega arith in
        let (end, x, y, reach, asks) =
          round-Found i m s.latest_block w r reads.latest_read span top (works.finds s) e in
        let t = w.find_block_to_request s.latest_block end in
        let q = works.skips s s.latest_block end x (omega arith) in
        let root = blocks_root lib.gadgets data_hash s.latest_block (t - s.latest_block) in
        let o =
          root-lt lib laws source hash leaf data_hash k skip_max depth b head p works s.latest_block
            t in
        let v =
          submitted_answer lib laws source hash leaf data_hash k skip_max depth b head p works m t s
            r f fits q reach asks in
        let below : t ≤ head = omega (arith, reach.stable) in
        let done : exec u (callback_call r.function_data) msg s
            ≡ store_commit s.latest_block t (hash t) root s =
          Asks-fulfilled u w s msg m t (hash t) root r reads capped reach top asks f.thawed
            (λ z. p.hash_ne s.latest_block f.positive h (sym f.header ∙ z)) (p.hash-lt t below) o
            v in
        let made = round-requested i m w r (works.takes s r) e in
        let relayed = works.relays s in
        rw (turn_relays s r (made ∙ ap (requested r) relayed), done)
          (store_commit-Moved m t s f reach.after reach.within below n)

    turn_idle :
        (s : Storage R) → submission (round i m (observe s)) ≡ none → turn u i m observe msg s ≡ s
    unfolding turn
    turn_idle s e = ground arith

    module _ (positive : 0 < i) (reaches : i ≤ m) where
      due_submits :
          (s : Storage R)
          → s.latest_block + m < head
          → (r : Submission) × (submission (round i m (observe s)) ≡ some r)
      due_submits s l =
          let reads = works.reads s in
          let at_head = works.at_head s in
          round_submits i m s.latest_block s.next_header_function_id s.header_range_function_id
            (s.block_height_to_header_hash s.latest_block) (observe s) reads.next_read
            reads.range_read reads.latest_read reads.hash_read positive reaches (omega arith)
            (omega arith)

      -- A turn commits blocks, or nothing is due and it leaves the contract as it is.
      turn_outcome :
          (s : Storage R)
          → Follows hash head address range_id next_id s
          → s.state_proof_nonce + 1 < 2 ^ 256
          → ((turn u i m observe msg s ≡ s) × (head ≤ s.latest_block + m))
            ⊎ Moved m s (turn u i m observe msg s)
      turn_outcome s f o = elim (Option-cases (submission (round i m (observe s)))) [
        | inl e ↦ inl (
          turn_idle s e,
          elim (Bool-cases (ltb (s.latest_block + m) head)) [
            | inl due ↦ let (r, d) = due_submits s (ground arith) in absurd (ground (arith, e, d))
            | inr idle ↦ ground arith
          ],
        )
        | inr (r, e) ↦ inr (turn-Moved s r f o e)
      ]

      -- Commitments that were stored before are kept.
      turns_keep :
          (n : ℕ) (s : Storage R) (j : ℕ)
          → Follows hash head address range_id next_id s
          → s.state_proof_nonce + n < 2 ^ 256
          → j < s.state_proof_nonce
          → (turns u i m observe msg n s).state_data_commitments j ≡ s.state_data_commitments j
      unfolding turns
      turns_keep zero s j f o h = refl
      turns_keep (suc n) s j f o h = elim (turn_outcome s f (omega arith)) [
        | inl (e, x) ↦
            let stays : turns u i m observe msg (suc n) s ≡ turns u i m observe msg n s =
              ap (turns u i m observe msg n) e in
            rw stays (turns_keep n s j f (omega arith) h)
        | inr t ↦
            let x = t.nonce in
            turns_keep n (turn u i m observe msg s) j t.follows (omega arith) (omega arith)
            ∙ t.kept j h
      ]

      -- The operator, the circuits with the fetcher and the contract in turns, on a chain
      -- that the fetcher knows, where the services work, the block interval is positive and
      -- at most DATA_COMMITMENT_MAX, that is at most 10000 and at most the blocks of all
      -- batches, and nothing overflows: from a contract that follows the chain, after as
      -- many turns as there are blocks missing, the contract still follows the chain, its
      -- latest block is at most DATA_COMMITMENT_MAX below the head, and the commitments
      -- that were stored on the way, one under each nonce, are the Merkle roots of the
      -- tuples of successive ranges of the chain's blocks, from the old latest block up to
      -- the new one.
      pub turns_catch_up :
          (n : ℕ) (s : Storage R)
          → Follows hash head address range_id next_id s
          → s.state_proof_nonce + n < 2 ^ 256
          → head ≤ s.latest_block + m + n
          → let s' = turns u i m observe msg n s in
            Follows hash head address range_id next_id s'
            × (head ≤ s'.latest_block + m)
            × Committed lib.gadgets data_hash s'.state_data_commitments s.state_proof_nonce
                s.latest_block s'.state_proof_nonce s'.latest_block
      unfolding turns
      turns_catch_up zero s f o h = (f, omega arith, nothing)
      turns_catch_up (suc n) s f o h = elim (turn_outcome s f (omega arith)) [
        | inl (e, x) ↦
            let stays : turns u i m observe msg (suc n) s ≡ turns u i m observe msg n s =
              ap (turns u i m observe msg n) e in
            rw stays (turns_catch_up n s f (omega arith) (omega arith))
        | inr t ↦
            let s' = turn u i m observe msg s in
            let x = t.nonce in
            let y = t.forward in
            let (g, l, c) = turns_catch_up n s' t.follows (omega arith) (omega arith) in
            let kept = turns_keep n s' s.state_proof_nonce t.follows (omega arith) (omega arith) in
            (g, l, range y (kept ∙ t.committed) (rw x at c))
      ]
