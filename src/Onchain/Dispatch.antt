-- ===== src/Onchain/Dispatch.antt =====
-- The functions that contracts/src/BlobstreamX.sol declares, by their ABI signatures, in the values
-- of bindings/BlobstreamX.go. What the contract inherits is not among them.
use package.text.Mathlib.Text.{◌==◌ as str_eq}
use blobstreamx.Base.{
  ℕ, Bool, true, false, String, Option, none, some, List, [], ◌∷◌, if◌then◌else◌,
}
use blobstreamx.Base.Int.{ℤ, pos}
use blobstreamx.Bindings.Values
use blobstreamx.Bindings.Values.{
  Value, uint64, uint32, bytes32, address, big_int, boolean, text, data_root_tuple, merkle_proof,
  init_parameters,
}
use blobstreamx.Contract.Types
use blobstreamx.Contract.Types.{Storage, MerkleVerify, Result, ok, revert, Error}
use blobstreamx.Contract.{data_commitment_max, verify_attestation}
use blobstreamx.Contract.Transactions.{
  Call, initializes, updates_freeze, updates_gateway, updates_function_ids, updates_genesis_state,
  requests_header_range, commits_header_range, requests_next_header, commits_next_header,
}

abbrev find {ℓ} : {A : Type ℓ} → String → List (String × A) → Option A
find name [] = none
find name ((n, a) ∷ rest) = if str_eq n name then some a else find name rest

-- A view function on its arguments; `none` where no function has this signature.
abbrev View : Type 0 → Type 0
View R = List Value → Storage R → Option (Result Value)

abbrev pub as_result : Result Bool → Result Value
as_result (ok b) = ok (boolean b)
as_result (revert e) = revert e

module _ {R : Type 0} where
  abbrev constant : (Storage R → Value) → View R
  constant f [] s = some (ok (f s))
  constant f (v ∷ vs) s = none

  abbrev by_height : (Storage R → ℕ → ℕ) → View R
  by_height f (uint64 n ∷ []) s = some (ok (bytes32 (f s n)))
  by_height f _ s = none

  abbrev by_nonce : (Storage R → ℕ → ℕ) → View R
  by_nonce f (big_int (pos n) ∷ []) s = some (ok (bytes32 (f s n)))
  by_nonce f _ s = none

  abbrev attest :
      MerkleVerify
      → ℕ
      → (tuple : ℤ × ℕ) → (proof : List ℕ × ℤ × ℤ) → Storage R
      → Option (Result Value)
  attest verify n (pos h, root) (nodes, pos k, pos l) s = some (
      as_result (
        verify_attestation verify n (record { height = h; data_root = root })
          (record { side_nodes = nodes; key = k; num_leaves = l }) s))
  attest verify n _ _ s = none

  abbrev attestation : MerkleVerify → View R
  attestation verify (big_int (pos n) ∷ data_root_tuple t ∷ merkle_proof p ∷ []) s =
      attest verify n (t.height, t.data_root) (p.side_nodes, p.key, p.num_leaves) s
  attestation verify _ s = none

  abbrev views : MerkleVerify → List (String × View R)
  views verify =
      ("DATA_COMMITMENT_MAX", constant (λ s. uint64 data_commitment_max))
      ∷ ("VERSION", constant (λ s. text "0.1.0"))
      ∷ ("blockHeightToHeaderHash", by_height (λ s. s.block_height_to_header_hash))
      ∷ ("frozen", constant (λ s. boolean s.frozen))
      ∷ ("gateway", constant (λ s. address s.gateway))
      ∷ ("headerRangeFunctionId", constant (λ s. bytes32 s.header_range_function_id))
      ∷ ("latestBlock", constant (λ s. uint64 s.latest_block))
      ∷ ("nextHeaderFunctionId", constant (λ s. bytes32 s.next_header_function_id))
      ∷ ("state_dataCommitments", by_nonce (λ s. s.state_data_commitments))
      ∷ ("state_proofNonce", constant (λ s. big_int (pos s.state_proof_nonce)))
      ∷ ("verifyAttestation", attestation verify)
      ∷ []

  -- What a call of a view function answers.
  abbrev pub view_function : MerkleVerify → String → List Value → Storage R → Option (Result Value)
  view_function verify name args s = elim (find name (views verify)) [
    | none ↦ none
    | some f ↦ f args s
  ]

abbrev at_address : (ℕ → Call) → List Value → Option Call
at_address f (address n ∷ []) = some (f n)
at_address f _ = none

abbrev at_height : (ℕ → Call) → List Value → Option Call
at_height f (uint64 n ∷ []) = some (f n)
at_height f _ = none

abbrev with_nothing : Call → List Value → Option Call
with_nothing c [] = some c
with_nothing c (v ∷ vs) = none

abbrev with_flag : (Bool → Call) → List Value → Option Call
with_flag f (boolean b ∷ []) = some (f b)
with_flag f _ = none

abbrev with_words : (ℕ → ℕ → Call) → List Value → Option Call
with_words f (bytes32 m ∷ bytes32 n ∷ []) = some (f m n)
with_words f _ = none

abbrev with_genesis : (ℕ → ℕ → Call) → List Value → Option Call
with_genesis f (uint32 m ∷ bytes32 n ∷ []) = some (f m n)
with_genesis f _ = none

abbrev pub parameters : Values.InitParameters → Types.InitParameters
parameters p = record {
  guardian = p.guardian;
  gateway = p.gateway;
  height = p.height;
  header = p.header;
  next_header_function_id = p.next_header_function_id;
  header_range_function_id = p.header_range_function_id;
}

abbrev with_parameters : List Value → Option Call
with_parameters (init_parameters p ∷ []) = some (initializes (parameters p))
with_parameters _ = none

abbrev calls : List (String × (List Value → Option Call))
calls =
    ("commitHeaderRange", at_height commits_header_range)
    ∷ ("commitNextHeader", at_height commits_next_header)
    ∷ ("initialize", with_parameters)
    ∷ ("requestHeaderRange", at_height requests_header_range)
    ∷ ("requestNextHeader", with_nothing requests_next_header)
    ∷ ("updateFreeze", with_flag updates_freeze)
    ∷ ("updateFunctionIds", with_words updates_function_ids)
    ∷ ("updateGateway", at_address updates_gateway)
    ∷ ("updateGenesisState", with_genesis updates_genesis_state)
    ∷ []

-- The state-changing function that a transaction reaches.
abbrev pub function_call : String → List Value → Option Call
function_call name args = elim (find name calls) [ none ↦ none | some f ↦ f args ]

-- The functions of abi/BlobstreamX.abi.json that the contract inherits and does not declare.
abbrev inherited : List (String × Unit {0})
inherited =
    ("DEFAULT_ADMIN_ROLE", tt)
    ∷ ("GUARDIAN_ROLE", tt)
    ∷ ("TIMELOCK_ROLE", tt)
    ∷ ("getRoleAdmin", tt)
    ∷ ("grantRole", tt)
    ∷ ("hasRole", tt)
    ∷ ("proxiableUUID", tt)
    ∷ ("renounceRole", tt)
    ∷ ("revokeRole", tt)
    ∷ ("supportsInterface", tt)
    ∷ ("upgradeTo", tt)
    ∷ ("upgradeToAndCall", tt)
    ∷ []

abbrev pub is_inherited : String → Bool
is_inherited name = elim (find name inherited) [ none ↦ false | some u ↦ true ]
