-- ===== src/Onchain/Stale.antt =====
-- The ABI of bindings/BlobstreamX.go is not that of contracts/src/BlobstreamX.sol: the package's
-- `CommitHeaderRange` has two arguments, and the contract's function has one.
use blobstreamx.Base.{
  ℕ, ◌≡◌, refl, true, false, inl, inr, String, Option, none, some, List, [], ◌∷◌, arith, Bool-cases,
  Option-cases,
}
use blobstreamx.Bindings.Values.{Value, uint64, bytes32, returned, new_bytes32, as_bytes32}
use blobstreamx.Bindings.Geth.{Geth}
use blobstreamx.Bindings.Metadata.{well_typed, all_fit}
use blobstreamx.Bindings.Instance.{BlobstreamXRaw, BlobstreamXSession, OrError}
use blobstreamx.Bindings.Raw.{raw_transact}
use blobstreamx.Bindings.Session
use blobstreamx.Contract.Types.{MerkleVerify, Upgradeable}
use blobstreamx.Onchain.Dispatch.{function_call, is_inherited}
use blobstreamx.Onchain.Deployed.{Deployed, Ran}
use blobstreamx.Onchain.Reads.{retrieve_error}

-- No arguments that the package's ABI accepts for `commitHeaderRange` reach a function.
well_typed-commit_header_range :
    (args : List Value)
    → well_typed "commitHeaderRange" args ≡ true
    → function_call "commitHeaderRange" args ≡ none
well_typed-commit_header_range [] w = refl
well_typed-commit_header_range (v ∷ []) w = ground arith
well_typed-commit_header_range (v ∷ x ∷ rest) w = ground arith

module _ (g : Geth) {R : Type 0} (u : Upgradeable R) (verify : MerkleVerify)
    (bound : g.BoundContract) (d : Deployed g u verify bound) where
  -- The transaction that was returned, if any, fails on the chain `later` and changes nothing there.
  abbrev pub Fails : g.Chain → Option g.Transaction → Type 0
  Fails later none = Unit
  Fails later (some t) =
      ((d.execute t later).0 ≡ false) × (d.storage (d.execute t later).1 ≡ d.storage later)

  Ran-none :
      (opts : g.TransactOpts) (later : g.Chain) (t : g.Transaction)
      → Ran u
          (d.message opts later)
          none
          (d.storage later)
          (d.execute t later).0
          (d.storage (d.execute t later).1)
      → Fails later (some t)
  Ran-none opts later t r = elim (Bool-cases (d.execute t later).0) [
    | inl x ↦ absurd (rw x at r)
    | inr x ↦ (x, rw x at r)
  ]

  unreached :
      (opts : g.TransactOpts) (name : String) (args : List Value) (chain later : g.Chain)
      → (well_typed name args ≡ true → function_call name args ≡ none)
      → (well_typed name args ≡ true → all_fit args ≡ true)
      → is_inherited name ≡ false
      → Fails later (g.transact bound opts name args chain).0.0
  unreached opts name args chain later n f i =
      elim (Option-cases (g.transact bound opts name args chain).0.1) [
        | inr (e, q) ↦ rw (d.transact_failed opts name args chain e q) tt
        | inl q ↦ elim (Bool-cases (well_typed name args)) [
          | inl w ↦
              let (t, sent, carries) = d.transact_sent opts name args chain q in
              let r = d.execute_lem opts name args t later carries w (f w) i in
              rw sent (Ran-none opts later t (rw (n w) at r))
          | inr w ↦
              let (e, q') = d.transact_mistyped opts name args chain w in
              rw (d.transact_failed opts name args chain e q') tt
        ]
      ]

  all_fit-commit_header_range :
      (args : List Value) → well_typed "commitHeaderRange" args ≡ true → all_fit args ≡ true
  all_fit-commit_header_range [] w = refl
  all_fit-commit_header_range (v ∷ []) w = ground arith
  all_fit-commit_header_range (v ∷ x ∷ []) w = ground arith
  all_fit-commit_header_range (v ∷ x ∷ y ∷ rest) w = ground arith

  -- Whatever arguments are passed under the name `commitHeaderRange` through the package, the raw
  -- transaction returns without a panic and the contract's storage is what it was; a transaction that
  -- it returns fails on whatever chain it is executed later, and changes no storage there.
  pub commit_header_range_unreachable :
      (b : BlobstreamXRaw g) (opts : g.TransactOpts) (args : List Value) (chain later : g.Chain)
      → b.contract.transactor.contract ≡ some bound
      → (q : OrError g g.Transaction × g.Chain) × (raw_transact g b opts "commitHeaderRange" args
            chain
          ≡ returned q)
        × (d.storage q.1 ≡ d.storage chain)
        × Fails later q.0.0
  unfolding raw_transact
  commit_header_range_unreachable b opts args chain later e = (
    g.transact bound opts "commitHeaderRange" args chain,
    rw e,
    d.transact_keeps opts "commitHeaderRange" args chain,
    unreached opts "commitHeaderRange" args chain later (well_typed-commit_header_range args)
        (all_fit-commit_header_range args) refl,
  )

  -- The getter `GetHeaderHash` of a session, which the contract no longer has, returns the zero
  -- hash and an error for every height; the two setters of one function id each change nothing, and
  -- a transaction that they return fails on whatever chain it is executed later.
  pub removed_functions :
      (s : BlobstreamXSession g) (height function_id : ℕ) (chain later : g.Chain)
      → s.contract.caller.contract ≡ some bound
      → s.contract.transactor.contract ≡ some bound
      → (e : g.Error) × (q r : OrError g g.Transaction × g.Chain) × (Session.get_header_hash g s
            height chain
          ≡ returned (0, some e))
        × (Session.update_header_range_id g s function_id chain ≡ returned q)
        × (d.storage q.1 ≡ d.storage chain)
        × Fails later q.0.0
        × (Session.update_next_header_id g s function_id chain ≡ returned r)
        × (d.storage r.1 ≡ d.storage chain)
        × Fails later r.0.0
  unfolding Session.get_header_hash Session.update_header_range_id Session.update_next_header_id
  removed_functions s height function_id chain later b t =
      let c = s.contract.caller in
      let o = s.transact_opts in
      let args : List Value = bytes32 function_id ∷ [] in
      let (e, q) =
        d.call_lem s.call_opts "getHeaderHash" (uint64 height ∷ []) chain refl refl refl in
      (
        e,
        g.transact bound o "updateHeaderRangeId" args chain,
        g.transact bound o "updateNextHeaderId" args chain,
        retrieve_error g 0 new_bytes32 as_bytes32 c bound s.call_opts "getHeaderHash"
            (uint64 height ∷ []) chain e b q,
        rw t,
        d.transact_keeps o "updateHeaderRangeId" args chain,
        unreached o "updateHeaderRangeId" args chain later (λ w. refl) (λ w. refl) refl,
        rw t,
        d.transact_keeps o "updateNextHeaderId" args chain,
        unreached o "updateNextHeaderId" args chain later (λ w. refl) (λ w. refl) refl,
      )
