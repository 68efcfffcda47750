-- ===== src/Onchain/Attested.antt =====
-- What `VerifyAttestation` of bindings/BlobstreamX.go returns where the contract of
-- contracts/src/BlobstreamX.sol is deployed.
use blobstreamx.Base.{
  ℕ, Bool, ◌≡◌, ◌<◌, ◌^◌, refl, true, false, Option, none, some, List, [], ◌∷◌, arith,
}
use blobstreamx.Base.Int.{pos}
use blobstreamx.Bindings.Values
use blobstreamx.Bindings.Values.{
  big_int, boolean, data_root_tuple, merkle_proof, new_bool, as_bool, Value, Go, returned,
}
use blobstreamx.Bindings.Geth.{Geth}
use blobstreamx.Bindings.Instance.{BlobstreamXSession}
use blobstreamx.Bindings.Caller.{retrieve}
use blobstreamx.Bindings.Session
use blobstreamx.Bindings.Metadata.{well_typed, all_fit}
use blobstreamx.Contract.Types
use blobstreamx.Contract.Types.{MerkleVerify, Upgradeable, Result, ok, revert}
use blobstreamx.Contract.{verify_attestation}
use blobstreamx.Onchain.Dispatch.{view_function, as_result}
use blobstreamx.Onchain.Deployed.{Deployed}
use blobstreamx.Onchain.Reads.{read_value, read_revert}

-- The Go structs of a tuple and a proof.
abbrev pub go_tuple : Types.DataRootTuple → Values.DataRootTuple
go_tuple t = record { height = pos t.height; data_root = t.data_root }

abbrev pub go_proof : Types.BinaryMerkleProof → Values.BinaryMerkleProof
go_proof p = record { side_nodes = p.side_nodes; key = pos p.key; num_leaves = pos p.num_leaves }

-- A method that returns the contract's answer, or false with an error where the contract reverts.
abbrev pub Returns : {Error : Type 0} → Result Bool → Go (Bool × Option Error) → Type 0
Returns (ok b) m = m ≡ returned (b, none)
Returns {Error} (revert e) m = (err : Error) × (m ≡ returned (false, some err))

module _ (g : Geth) {R : Type 0} (u : Upgradeable R) (verify : MerkleVerify)
    (bound : g.BoundContract) (d : Deployed g u verify bound) where
  retrieve-Returns :
      (r : Result Bool) (s : BlobstreamXSession g) (args : List Value) (chain : g.Chain)
      → s.contract.caller.contract ≡ some bound
      → well_typed "verifyAttestation" args ≡ true
      → all_fit args ≡ true
      → view_function verify "verifyAttestation" args (d.storage_at s.call_opts chain)
        ≡ some (as_result r)
      → Returns r (
          retrieve g false new_bool as_bool s.contract.caller s.call_opts "verifyAttestation" args
            chain)
  retrieve-Returns (ok b) s args chain e w f a =
      read_value g u verify bound d false new_bool as_bool "verifyAttestation" args
        s.contract.caller s.call_opts chain e w f refl (boolean b) b a refl refl
  retrieve-Returns (revert x) s args chain e w f a =
      read_revert g u verify bound d false new_bool as_bool "verifyAttestation" args
        s.contract.caller s.call_opts chain e w f refl x a

  -- `VerifyAttestation` of a session on the deployed contract, on numbers of at most 256 bits: it
  -- returns with no error what `verifyAttestation` of the contract returns on the storage that the
  -- session's options choose, and false with an error, not a panic, where the contract reverts.
  pub session_verify_attestation :
      (s : BlobstreamXSession g) (chain : g.Chain) (nonce : ℕ) (tuple : Types.DataRootTuple)
      (proof : Types.BinaryMerkleProof)
      → s.contract.caller.contract ≡ some bound
      → nonce < 2 ^ 256
      → tuple.height < 2 ^ 256
      → proof.key < 2 ^ 256
      → proof.num_leaves < 2 ^ 256
      → Returns
          (verify_attestation verify nonce tuple proof (d.storage_at s.call_opts chain))
          (Session.verify_attestation g s (pos nonce) (go_tuple tuple) (go_proof proof) chain)
  unfolding Session.verify_attestation
  session_verify_attestation s chain nonce tuple proof b n h k l =
      let args =
        big_int (pos nonce)
        ∷ data_root_tuple (go_tuple tuple)
        ∷ merkle_proof (go_proof proof)
        ∷ [] in
      retrieve-Returns
        (verify_attestation verify nonce tuple proof (d.storage_at s.call_opts chain)) s args chain
        b refl (ground arith) refl
