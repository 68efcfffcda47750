-- ===== src/Contract/Frozen.antt =====
-- What a frozen contract of contracts/src/BlobstreamX.sol lets anyone but its guardian do.
use blobstreamx.Base.{ℕ, ◌≡◌, refl, true, false, none, List, [], ◌∷◌, ◌++◌, arith}
use blobstreamx.Contract.Types.{
  DataRootTuple, BinaryMerkleProof, MerkleVerify, Storage, Message, Result, revert, Outcome, Event,
  Upgradeable, head_update, data_commitment_stored, next_header_requested, header_range_requested,
  contract_frozen,
}
use blobstreamx.Contract.Transactions.{
  Call, initializes, updates_freeze, updates_gateway, updates_function_ids, updates_genesis_state,
  requests_header_range, commits_header_range, requests_next_header, commits_next_header, exec, run,
  storage_after, logs_of,
}
use blobstreamx.Contract.{
  initialize, update_freeze, update_gateway, update_function_ids, update_genesis_state,
  request_header_range, request_next_header, commit_header_range, commit_next_header,
  verify_attestation,
}

-- No log but those of requests.
abbrev pub OnlyRequests : List Event → Type 0
OnlyRequests [] = Unit
OnlyRequests (head_update b h ∷ es) = ⊥
OnlyRequests (data_commitment_stored n a b c ∷ es) = ⊥
OnlyRequests (next_header_requested b h ∷ es) = OnlyRequests es
OnlyRequests (header_range_requested b h t ∷ es) = OnlyRequests es

OnlyRequests-append :
    (es fs : List Event) → OnlyRequests es → OnlyRequests fs → OnlyRequests (es ++ fs)
OnlyRequests-append [] fs h k = k
OnlyRequests-append (head_update b x ∷ es) fs h k = elim h [ ]
OnlyRequests-append (data_commitment_stored n a b c ∷ es) fs h k = elim h [ ]
OnlyRequests-append (next_header_requested b x ∷ es) fs h k = OnlyRequests-append es fs h k
OnlyRequests-append (header_range_requested b x t ∷ es) fs h k = OnlyRequests-append es fs h k

module _ {R : Type 0} where
  -- The sender is not the guardian where the call asks for one, and an initialization is refused.
  abbrev pub IsOutside : Upgradeable R → Storage R → Call → Message → Type 0
  IsOutside u s (initializes p) msg = u.initializer s.access p.guardian p.guardian ≡ none
  IsOutside u s (updates_freeze b) msg = u.is_guardian s.access msg.sender ≡ false
  IsOutside u s (updates_gateway a) msg = u.is_guardian s.access msg.sender ≡ false
  IsOutside u s (updates_function_ids h n) msg = u.is_guardian s.access msg.sender ≡ false
  IsOutside u s (updates_genesis_state h x) msg = u.is_guardian s.access msg.sender ≡ false
  IsOutside u s (requests_header_range t) msg = Unit
  IsOutside u s (commits_header_range t) msg = Unit
  IsOutside u s requests_next_header msg = Unit
  IsOutside u s (commits_next_header b) msg = Unit

  abbrev pub AllOutside : Upgradeable R → Storage R → List (Call × Message) → Type 0
  AllOutside u s [] = Unit
  AllOutside u s ((c, msg) ∷ cs) = IsOutside u s c msg × AllOutside u s cs

  -- A result that leaves the storage as it was and logs requests only.
  abbrev Harmless : Storage R → Result (Outcome R) → Type 0
  Harmless s r = (storage_after s r ≡ s) × OnlyRequests (logs_of r)

  exec-Harmless :
      (u : Upgradeable R) (c : Call) (msg : Message) (s : Storage R)
      → s.frozen ≡ true
      → IsOutside u s c msg
      → Harmless s (exec u c msg s)
  unfolding exec initialize update_freeze update_gateway update_function_ids update_genesis_state
      request_header_range request_next_header commit_header_range commit_next_header
  exec-Harmless u (initializes p) msg s f o = rw o (refl, tt)
  exec-Harmless u (updates_freeze b) msg s f o = rw o (refl, tt)
  exec-Harmless u (updates_gateway a) msg s f o = rw o (refl, tt)
  exec-Harmless u (updates_function_ids h n) msg s f o = rw o (refl, tt)
  exec-Harmless u (updates_genesis_state h x) msg s f o = rw o (refl, tt)
  exec-Harmless u (requests_header_range t) msg s f o = grind arith
  exec-Harmless u requests_next_header msg s f o = grind arith
  exec-Harmless u (commits_header_range t) msg s f o = rw f (refl, tt)
  exec-Harmless u (commits_next_header b) msg s f o = rw f (refl, tt)

  run-Harmless :
      (u : Upgradeable R) (cs : List (Call × Message)) (s : Storage R)
      → s.frozen ≡ true
      → AllOutside u s cs
      → let (s', logs) = run u cs s in (s' ≡ s) × OnlyRequests logs
  unfolding run
  run-Harmless u [] s f o = (refl, tt)
  run-Harmless u ((c, msg) ∷ cs) s f (o, os) =
      let (same, quiet) = exec-Harmless u c msg s f o in
      let (same', quiet') = run-Harmless u cs s f os in
      rw same (same', OnlyRequests-append (logs_of (exec u c msg s)) (run u cs s).1 quiet quiet')

  -- While the contract is frozen, a history in which the sender of no update is the guardian and no
  -- initialization is accepted leaves the whole storage as it was, whatever the gateways answer: it
  -- logs no new head and no data commitment, only requests, and afterwards the contract still vouches
  -- for no data root.
  pub run_frozen :
      (u : Upgradeable R) (cs : List (Call × Message)) (s : Storage R) (verify : MerkleVerify)
      (nonce : ℕ) (tuple : DataRootTuple) (proof : BinaryMerkleProof)
      → s.frozen ≡ true
      → AllOutside u s cs
      → let (s', logs) = run u cs s in
        (s' ≡ s)
        × OnlyRequests logs
        × (verify_attestation verify nonce tuple proof s' ≡ revert contract_frozen)
  unfolding verify_attestation
  run_frozen u cs s verify nonce tuple proof f o =
      let (same, quiet) = run-Harmless u cs s f o in (same, quiet, rw (same, f) refl)
