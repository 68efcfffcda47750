-- ===== src/Onchain/Instances.antt =====
-- What a session does whose contract is made by `NewBlobstreamX` of bindings/BlobstreamX.go at the
-- address of the contract of contracts/src/BlobstreamX.sol.
use blobstreamx.Base.{ℕ, ◌≡◌, ◌<◌, ◌^◌, refl, String, some, none, [], ◌∷◌, arith}
use blobstreamx.Base.Int.{pos}
use blobstreamx.Bindings.Values.{uint64, returned}
use blobstreamx.Bindings.Geth.{Geth}
use blobstreamx.Bindings.Instance.{BlobstreamX, BlobstreamXSession, whole, new_blobstreamx}
use blobstreamx.Bindings.Session
use blobstreamx.Contract.Types.{MerkleVerify, Upgradeable}
use blobstreamx.Contract.Transactions.{commits_next_header}
use blobstreamx.Onchain.Deployed.{Deployed}
use blobstreamx.Onchain.Reads.{session_reads}
use blobstreamx.Onchain.Writes.{Performs, performs}

module _ (g : Geth) (metadata_abi metadata_bin : String) {R : Type 0} (u : Upgradeable R)
    (verify : MerkleVerify) where
  -- Where the ABI can be parsed and the contract is deployed at the address behind the three backends,
  -- `NewBlobstreamX` gives no error and an instance on which sessions work: with any options, the
  -- session's `LatestBlock` and `StateDataCommitments`, for a nonce of 256 bits, return what the
  -- contract holds at the block that the options choose, and its `CommitNextHeader` sends the
  -- contract's next header commit or nothing.
  pub new_blobstreamx_session :
      (addr : ℕ) (c : g.ContractCaller) (t : g.ContractTransactor) (f : g.ContractFilterer)
      (abi : g.Abi)
      (d : Deployed g u verify (g.new_bound_contract addr abi (some c) (some t) (some f)))
      (call_opts : g.CallOpts) (transact_opts : g.TransactOpts) (chain later : g.Chain)
      (block nonce : ℕ)
      → g.get_abi metadata_abi ≡ (some abi, none)
      → nonce < 2 ^ 256
      → let st = d.storage_at call_opts chain in
        (b : BlobstreamX g) × (new_blobstreamx g metadata_abi metadata_bin addr (c, t, f)
          ≡ returned (some b, none))
        × (let s : BlobstreamXSession g = record {
          contract = b;
          call_opts = call_opts;
          transact_opts = transact_opts;
        } in
            (Session.latest_block g s chain ≡ returned (st.latest_block, none))
            × (Session.state_data_commitments g s (pos nonce) chain
                ≡ returned (st.state_data_commitments nonce, none))
            × Performs g u verify
                (g.new_bound_contract addr abi (some c) (some t) (some f))
                d
                transact_opts
                chain
                later
                (commits_next_header block)
                (Session.commit_next_header g s block chain))
  unfolding new_blobstreamx Session.commit_next_header
  new_blobstreamx_session addr c t f abi d call_opts transact_opts chain later block nonce e n =
      let bound = g.new_bound_contract addr abi (some c) (some t) (some f) in
      let s : BlobstreamXSession g = record {
        contract = whole g (some bound);
        call_opts = call_opts;
        transact_opts = transact_opts;
      } in
      let (latest, _, _, commitment, _, _, _, _, _) =
        session_reads g u verify bound d s chain 0 nonce refl n in
      let sends =
        performs g u verify bound d transact_opts chain later "commitNextHeader" (uint64 block ∷ [])
          (commits_next_header block) (Session.commit_next_header g s block chain) refl refl refl
          refl refl in
      (whole g (some bound), ground arith, (latest, commitment, sends))
