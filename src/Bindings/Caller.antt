-- ===== src/Bindings/Caller.antt =====
-- The read-only methods of bindings/BlobstreamX.go on a `BlobstreamXCaller`.
use blobstreamx.Base.{ℕ, Bool, false, String, Option, none, some, List, [], ◌∷◌, get_elem?}
use blobstreamx.Base.Int.{ℤ}
use blobstreamx.Bindings.Values.{
  Value, uint64, bytes4, bytes32, address, big_int, data_root_tuple, merkle_proof, DataRootTuple,
  BinaryMerkleProof, Proto, new_uint64, new_bytes32, new_address, new_big_int, new_bool, new_string,
  as_uint64, as_bytes32, as_address, as_big_int, as_bool, as_string, Go, returned, ◌>>=◌, or_panic,
}
use blobstreamx.Bindings.Geth.{Geth}
use blobstreamx.Bindings.Instance.{BlobstreamXCaller}

-- A `*big.Int` that a method returns may be nil.
abbrev pub as_big_int_pointer : Value → Option (Option ℤ)
as_big_int_pointer v = elim (as_big_int v) [ none ↦ none | some n ↦ some (some n) ]

module _ (g : Geth) where
  open g use {Chain, Error, CallOpts}

  abbrev Caller : Type 0
  Caller = BlobstreamXCaller g

  -- A method reads the chain, and returns a value and an error or panics.
  abbrev pub Reads : Type 0 → Type 0
  Reads T = Chain → Go (T × Option Error)

  -- The body that the methods share: on an error of `Call` the zero value is returned with it, and
  -- else the first result, converted to the method's type.
  unfoldable pub retrieve :
      {T : Type 0}
      → T
      → Proto
      → (Value → Option T)
      → Caller
      → CallOpts
      → String
      → List Value
      → Reads T
  retrieve zero_value proto cast c opts method params chain = do
    contract ← or_panic c.contract
    let (out, err) = g.call contract opts [] method params chain
    elim err [
      | some e ↦ returned (zero_value, some e)
      | none ↦ do
        out0 ← or_panic (get_elem? out 0)
        converted ← or_panic (g.convert_type out0 proto)
        result ← or_panic (cast converted)
        returned (result, none)
    ]

  unfoldable pub data_commitment_max : Caller → CallOpts → Reads ℕ
  unfolding retrieve
  data_commitment_max c opts = retrieve 0 new_uint64 as_uint64 c opts "DATA_COMMITMENT_MAX" []

  unfoldable pub default_admin_role : Caller → CallOpts → Reads ℕ
  unfolding retrieve
  default_admin_role c opts = retrieve 0 new_bytes32 as_bytes32 c opts "DEFAULT_ADMIN_ROLE" []

  unfoldable pub guardian_role : Caller → CallOpts → Reads ℕ
  unfolding retrieve
  guardian_role c opts = retrieve 0 new_bytes32 as_bytes32 c opts "GUARDIAN_ROLE" []

  unfoldable pub timelock_role : Caller → CallOpts → Reads ℕ
  unfolding retrieve
  timelock_role c opts = retrieve 0 new_bytes32 as_bytes32 c opts "TIMELOCK_ROLE" []

  unfoldable pub version : Caller → CallOpts → Reads String
  unfolding retrieve
  version c opts = retrieve "" new_string as_string c opts "VERSION" []

  unfoldable pub block_height_to_header_hash : Caller → CallOpts → ℕ → Reads ℕ
  unfolding retrieve
  block_height_to_header_hash c opts key =
      retrieve 0 new_bytes32 as_bytes32 c opts "blockHeightToHeaderHash" (uint64 key ∷ [])

  unfoldable pub gateway : Caller → CallOpts → Reads ℕ
  unfolding retrieve
  gateway c opts = retrieve 0 new_address as_address c opts "gateway" []

  unfoldable pub get_header_hash : Caller → CallOpts → ℕ → Reads ℕ
  unfolding retrieve
  get_header_hash c opts height =
      retrieve 0 new_bytes32 as_bytes32 c opts "getHeaderHash" (uint64 height ∷ [])

  unfoldable pub get_role_admin : Caller → CallOpts → ℕ → Reads ℕ
  unfolding retrieve
  get_role_admin c opts role =
      retrieve 0 new_bytes32 as_bytes32 c opts "getRoleAdmin" (bytes32 role ∷ [])

  unfoldable pub has_role : Caller → CallOpts → ℕ → ℕ → Reads Bool
  unfolding retrieve
  has_role c opts role account =
      retrieve false new_bool as_bool c opts "hasRole" (bytes32 role ∷ address account ∷ [])

  unfoldable pub header_range_function_id : Caller → CallOpts → Reads ℕ
  unfolding retrieve
  header_range_function_id c opts =
      retrieve 0 new_bytes32 as_bytes32 c opts "headerRangeFunctionId" []

  unfoldable pub latest_block : Caller → CallOpts → Reads ℕ
  unfolding retrieve
  latest_block c opts = retrieve 0 new_uint64 as_uint64 c opts "latestBlock" []

  unfoldable pub next_header_function_id : Caller → CallOpts → Reads ℕ
  unfolding retrieve
  next_header_function_id c opts =
      retrieve 0 new_bytes32 as_bytes32 c opts "nextHeaderFunctionId" []

  unfoldable pub proxiable_uuid : Caller → CallOpts → Reads ℕ
  unfolding retrieve
  proxiable_uuid c opts = retrieve 0 new_bytes32 as_bytes32 c opts "proxiableUUID" []

  unfoldable pub state_data_commitments : Caller → CallOpts → ℤ → Reads ℕ
  unfolding retrieve
  state_data_commitments c opts key =
      retrieve 0 new_bytes32 as_bytes32 c opts "state_dataCommitments" (big_int key ∷ [])

  unfoldable pub state_proof_nonce : Caller → CallOpts → Reads (Option ℤ)
  unfolding retrieve
  state_proof_nonce c opts =
      retrieve none new_big_int as_big_int_pointer c opts "state_proofNonce" []

  unfoldable pub supports_interface : Caller → CallOpts → ℕ → Reads Bool
  unfolding retrieve
  supports_interface c opts interface_id =
      retrieve false new_bool as_bool c opts "supportsInterface" (bytes4 interface_id ∷ [])

  unfoldable pub verify_attestation :
      Caller → CallOpts → ℤ → DataRootTuple → BinaryMerkleProof → Reads Bool
  unfolding retrieve
  verify_attestation c opts proof_nonce tuple proof =
      retrieve false new_bool as_bool c opts "verifyAttestation"
        (big_int proof_nonce ∷ data_root_tuple tuple ∷ merkle_proof proof ∷ [])
