-- ===== src/Operator/Requests.antt =====
-- The requests of the operator of bin/blobstreamx.rs against contracts/src/BlobstreamX.sol, whose
-- callbacks they name.
use blobstreamx.Base.{
  ℕ, ◌+◌, ◌≡◌, ◌≢◌, ◌<◌, ◌≤◌, ◌^◌, false, some, [], arith, inl, inr, ap, sym, ◌∙◌,
}
use blobstreamx.Contract.Types.{Storage, Message, Upgradeable}
use blobstreamx.Contract.Transactions.{exec}
use blobstreamx.Contract.Requests.{callback_call, answer}
use blobstreamx.Contract.Commits.{commit_header_range_succeeds, commit_next_header_succeeds}
use blobstreamx.Contract.{store_commit}
use blobstreamx.Operator.{Submission, Answers, submission, round}
use blobstreamx.Operator.Targets.{Finds, Asks, Reaches, round-Asks}

module _ {R : Type 0} where
  -- The getters answer from the storage `s`.
  pub record Reads (s : Storage R) (w : Answers) : Type 0 where
    pub next_read : w.next_header_function_id ≡ some s.next_header_function_id
    pub range_read : w.header_range_function_id ≡ some s.header_range_function_id
    pub latest_read : w.latest_block ≡ some s.latest_block
    pub hash_read :
        w.block_height_to_header_hash s.latest_block
        ≡ some (s.block_height_to_header_hash s.latest_block)

  -- The callback of a submission for the blocks up to `t` commits them.
  pub Asks-fulfilled :
      (u : Upgradeable R) (w : Answers) (s : Storage R) (msg : Message) (m t header commitment : ℕ)
      (r : Submission)
      → Reads s w
      → m ≤ 10000
      → Reaches m w s.latest_block t
      → w.latest_height < 2 ^ 64
      → Asks w s.latest_block t r
      → s.frozen ≡ false
      → s.block_height_to_header_hash s.latest_block ≢ 0
      → header < 2 ^ 256
      → commitment < 2 ^ 256
      → msg.gateway.verified_call s.gateway r.function_id r.input ≡ some (answer header commitment)
      → exec u (callback_call r.function_data) msg s
        ≡ store_commit s.latest_block t header commitment s
  unfolding exec
  Asks-fulfilled u w s msg m t header commitment r reads l reach b asks f k h c q =
      let x : asks.trusted ≡ s.block_height_to_header_hash s.latest_block =
        ground (arith, asks.hash_known, reads.hash_read) in
      elim asks.asked [
        | inl (one, e) ↦
            let i : asks.next_id ≡ s.next_header_function_id =
              ground (arith, asks.next_known, reads.next_read) in
            ap (λ a. exec u (callback_call a.function_data) msg s) (sym e)
            ∙ commit_next_header_succeeds header commitment [] msg s f k
                (ground (arith, one, reach.stable, b)) h c (cc)
            ∙ ap (λ n. store_commit s.latest_block n header commitment s) (sym one)
        | inr (many, e) ↦
            let i : asks.range_id ≡ s.header_range_function_id =
              ground (arith, asks.range_known, reads.range_read) in
            ap (λ a. exec u (callback_call a.function_data) msg s) (sym e)
            ∙ commit_header_range_succeeds t header commitment [] msg s f k reach.after
                (ground (arith, reach.within)) h c (cc)
      ]

  -- A round that reads the contract and submits asks for the blocks up to one that is at most
  -- `DATA_COMMITMENT_MAX` blocks on. If the gateway answers the function and the input of the
  -- submission with two words, and the contract is as it was and not frozen, then the call that the
  -- submission names comes to storing the two words for exactly these blocks. This holds where
  -- `DATA_COMMITMENT_MAX` is at most the contract's 10000, the contract has a header for its latest
  -- block, `find_block_to_request` finds a block in the range it is given and nothing overflows.
  pub round-fulfilled :
      (u : Upgradeable R) (i m header commitment : ℕ) (w : Answers) (s : Storage R) (msg : Message)
      (r : Submission)
      → Reads s w
      → Finds w
      → m ≤ 10000
      → s.latest_block + m < 2 ^ 64
      → w.latest_height < 2 ^ 64
      → s.frozen ≡ false
      → s.block_height_to_header_hash s.latest_block ≢ 0
      → header < 2 ^ 256
      → commitment < 2 ^ 256
      → submission (round i m w) ≡ some r
      → msg.gateway.verified_call s.gateway r.function_id r.input ≡ some (answer header commitment)
      → (t : ℕ) × (Reaches m w s.latest_block t
          × (exec u (callback_call r.function_data) msg s
              ≡ store_commit s.latest_block t header commitment s))
  round-fulfilled u i m header commitment w s msg r reads finds l o b f k h c e q =
      let (t, (reach, asks)) = round-Asks i m s.latest_block w r reads.latest_read o b finds e in
      (t, (reach, Asks-fulfilled u w s msg m t header commitment r reads l reach b asks f k h c q))
