-- ===== src/Onchain/Committed.antt =====
-- `CommitNextHeader` of bindings/BlobstreamX.go followed by reads of the same session, where the
-- contract of contracts/src/BlobstreamX.sol is deployed.
use blobstreamx.Base.{ℕ, ◌+◌, ◌≡◌, ◌<◌, ◌^◌, refl, true, ap, ◌∙◌, none, some, List, [], ◌∷◌, arith}
use blobstreamx.Base.Int.{pos}
use blobstreamx.Bindings.Values.{Value, uint64, returned}
use blobstreamx.Bindings.Geth.{Geth}
use blobstreamx.Bindings.Instance.{BlobstreamXSession}
use blobstreamx.Bindings.Session
use blobstreamx.Contract.Types.{Storage, MerkleVerify, Upgradeable, ok, Outcome}
use blobstreamx.Contract.{commit_next_header}
use blobstreamx.Contract.Transactions.{exec, commits_next_header}
use blobstreamx.Contract.Commits.{Commits, commit_next_header-Commits}
use blobstreamx.Onchain.Deployed.{Deployed, Ran}
use blobstreamx.Onchain.Reads.{session_reads}

module _ {R : Type 0} where
  Commits-latest_block :
      (s : Storage R) (start end : ℕ) (o : Outcome R)
      → Commits s start end o
      → o.storage.latest_block ≡ end
  Commits-latest_block s start end o c = ground (arith, c.stored)

  Commits-state_data_commitments :
      (s : Storage R) (start end : ℕ) (o : Outcome R) (c : Commits s start end o)
      → o.storage.state_data_commitments s.state_proof_nonce ≡ c.commitment
  Commits-state_data_commitments s start end o c = ground (arith, c.stored)

  Commits-header :
      (s : Storage R) (start end : ℕ) (o : Outcome R) (c : Commits s start end o)
      → o.storage.block_height_to_header_hash end ≡ c.header
  Commits-header s start end o c = ground (arith, c.stored)

module _ (g : Geth) {R : Type 0} (u : Upgradeable R) (verify : MerkleVerify)
    (bound : g.BoundContract) (d : Deployed g u verify bound) where
  -- Where `CommitNextHeader` of a session on the deployed contract gives no error and a transaction,
  -- this transaction is executed with success on some later chain, and the nonce there has 256 bits:
  -- the contract accepts the commit there, and on the chain after it, at a block that shows its
  -- storage, `LatestBlock` of the session returns the next block, and the header hash at that block
  -- and the data commitment under the old nonce are those of one commit of that block.
  pub commit_next_header_shows :
      (s : BlobstreamXSession g) (chain sent later after : g.Chain) (tx : g.Transaction) (block : ℕ)
      → s.contract.caller.contract ≡ some bound
      → s.contract.transactor.contract ≡ some bound
      → Session.commit_next_header g s block chain ≡ returned ((some tx, none), sent)
      → d.execute tx later ≡ (true, after)
      → d.storage_at s.call_opts after ≡ d.storage after
      → (d.storage later).state_proof_nonce < 2 ^ 256
      → (o : Outcome R) × (commit_next_header block
            (d.message s.transact_opts later)
            (d.storage later)
          ≡ ok o)
        × (c : Commits (d.storage later) block (block + 1) o) × (Session.latest_block g s after
            ≡ returned (block + 1, none))
        × (Session.block_height_to_header_hash g s (block + 1) after ≡ returned (c.header, none))
        × (Session.state_data_commitments g s (pos (d.storage later).state_proof_nonce) after
            ≡ returned (c.commitment, none))
  unfolding Session.commit_next_header exec
  commit_next_header_shows s chain sent later after tx block b t m x at_head n =
      let before = d.storage later in
      let opts = s.transact_opts in
      let args : List Value = uint64 block ∷ [] in
      let q : g.transact bound opts "commitNextHeader" args chain ≡ ((some tx, none), sent) =
        ground (arith, t) in
      let (t', e, carries) =
        d.transact_sent opts "commitNextHeader" args chain (ap (λ y. y.0.1) q) in
      let same : t' ≡ tx = cc in
      let ran : Ran u (d.message opts later) (some (commits_next_header block)) before true
          (d.storage after) =
        rw (same, x) at
          (d.execute_lem opts "commitNextHeader" args t' later carries refl refl refl) in
      let (o, a, stored) = ran in
      let view : d.storage_at s.call_opts after ≡ o.storage = at_head ∙ stored in
      let c = commit_next_header-Commits block (d.message opts later) before o a in
      let (latest, _, hash, commitment, _, _, _, _, _) =
        session_reads g u verify bound d s after (block + 1) before.state_proof_nonce b n in
      (
        o,
        a,
        c,
        latest
            ∙ ap (λ x. returned (x, none))
                (ap (λ x. x.latest_block) view ∙ Commits-latest_block before block (block + 1) o c),
        hash
            ∙ ap (λ x. returned (x, none))
                (ap (λ x. x.block_height_to_header_hash (block + 1)) view
                  ∙ Commits-header before block (block + 1) o c),
        commitment
            ∙ ap (λ x. returned (x, none))
                (ap (λ x. x.state_data_commitments before.state_proof_nonce) view
                  ∙ Commits-state_data_commitments before block (block + 1) o c),
      )
