-- ===== src/Onchain/Writes.antt =====
-- What the paid methods of bindings/BlobstreamX.go do to the storage of the deployed contract of
-- contracts/src/BlobstreamX.sol.
use blobstreamx.Base.{
  ℕ, ◌≡◌, refl, true, false, String, Option, none, some, List, [], ◌∷◌, Option-cases, inl, inr,
}
use blobstreamx.Bindings.Values.{
  Value, InitParameters, uint64, address, init_parameters, Go, returned,
}
use blobstreamx.Bindings.Geth.{Geth}
use blobstreamx.Bindings.Metadata.{well_typed, all_fit}
use blobstreamx.Bindings.Instance.{BlobstreamXSession, OrError}
use blobstreamx.Bindings.Session
use blobstreamx.Contract.Types.{MerkleVerify, Upgradeable}
use blobstreamx.Contract.Transactions.{
  Call, initializes, requests_header_range, requests_next_header, commits_next_header,
  updates_gateway,
}
use blobstreamx.Onchain.Dispatch.{function_call, is_inherited, parameters}
use blobstreamx.Onchain.Deployed.{Deployed, Ran}

module _ (g : Geth) {R : Type 0} (u : Upgradeable R) (verify : MerkleVerify)
    (bound : g.BoundContract) (d : Deployed g u verify bound) where
  -- What `Transact` gives for a call: an error and no transaction, or a transaction that makes the
  -- call, or fails, where the chain `later` executes it.
  abbrev pub Sent : g.TransactOpts → g.Chain → Call → Option g.Transaction → Option g.Error → Type 0
  Sent opts later c tx (some e) = tx ≡ none
  Sent opts later c tx none =
      (t : g.Transaction) × (tx ≡ some t)
      × Ran u (d.message opts later) (some c) (d.storage later) (d.execute t later).0
          (d.storage (d.execute t later).1)

  -- A paid method that returns, changes no storage yet and sends the call or nothing.
  abbrev pub Performs :
      g.TransactOpts
      → (chain later : g.Chain) → Call
      → Go (OrError g g.Transaction × g.Chain)
      → Type 0
  Performs opts chain later c m =
      (q : OrError g g.Transaction × g.Chain) × (m ≡ returned q)
      × (d.storage q.1 ≡ d.storage chain)
      × Sent opts later c q.0.0 q.0.1

  pub performs :
      (opts : g.TransactOpts) (chain later : g.Chain) (name : String) (args : List Value) (c : Call)
      (m : Go (OrError g g.Transaction × g.Chain))
      → well_typed name args ≡ true
      → all_fit args ≡ true
      → is_inherited name ≡ false
      → function_call name args ≡ some c
      → m ≡ returned (g.transact bound opts name args chain)
      → Performs opts chain later c m
  performs opts chain later name args c m w f i n r = (
    g.transact bound opts name args chain,
    r,
    d.transact_keeps opts name args chain,
    elim (Option-cases (g.transact bound opts name args chain).0.1) [
      | inl q ↦
          let (t, e, carries) = d.transact_sent opts name args chain q in
          rw q (t, e, (rw n at (d.execute_lem opts name args t later carries w f i)))
      | inr (e, q) ↦ rw q (d.transact_failed opts name args chain e q)
    ],
  )

  -- Five paid methods of a session on the deployed contract return without a panic and leave the
  -- contract's storage as it is. If they give an error, they return no transaction; if they give
  -- none, they return one that, on whatever chain it is executed later, either fails and changes
  -- nothing or succeeds with what the contract's function of that name makes of the storage there,
  -- under the session's options and with the method's arguments.
  pub session_writes :
      (s : BlobstreamXSession g) (chain later : g.Chain) (block gateway : ℕ) (p : InitParameters)
      → s.contract.transactor.contract ≡ some bound
      → Performs s.transact_opts chain later
          (commits_next_header block)
          (Session.commit_next_header g s block chain)
        × Performs s.transact_opts chain later
            (requests_header_range block)
            (Session.request_header_range g s block chain)
        × Performs s.transact_opts chain later requests_next_header
            (Session.request_next_header g s chain)
        × Performs s.transact_opts chain later
            (updates_gateway gateway)
            (Session.update_gateway g s gateway chain)
        × Performs s.transact_opts chain later
            (initializes (parameters p))
            (Session.initialize g s p chain)
  unfolding Session.commit_next_header Session.request_header_range Session.request_next_header
      Session.update_gateway Session.initialize
  session_writes s chain later block gateway p b =
      let o = s.transact_opts in
      (
        performs o chain later "commitNextHeader" (uint64 block ∷ []) (commits_next_header block)
            (Session.commit_next_header g s block chain) refl refl refl refl (rw b refl),
        performs o chain later "requestHeaderRange" (uint64 block ∷ [])
            (requests_header_range block) (Session.request_header_range g s block chain) refl refl
            refl refl (rw b refl),
        performs o chain later "requestNextHeader" [] requests_next_header
            (Session.request_next_header g s chain) refl refl refl refl (rw b refl),
        performs o chain later "updateGateway" (address gateway ∷ []) (updates_gateway gateway)
            (Session.update_gateway g s gateway chain) refl refl refl refl (rw b refl),
        performs o chain later "initialize" (init_parameters p ∷ []) (initializes (parameters p))
            (Session.initialize g s p chain) refl refl refl refl (rw b refl),
      )
