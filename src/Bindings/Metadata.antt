-- ===== src/Bindings/Metadata.antt =====
-- The methods of the ABI in `BlobstreamXMetaData` of bindings/BlobstreamX.go, with their argument
-- types, and whether arguments fit a method.
use text.Mathlib.Text.{◌==◌ as str_eq}
use blobstreamx.Base.{
  Bool, true, false, ◌&&◌, String, Option, none, some, List, [], ◌∷◌, if◌then◌else◌, ltb, ◌^◌,
}
use blobstreamx.Base.Int.{ℤ, pos, negsuc}
use blobstreamx.Bindings.Values.{
  Value, uint64, bytes4, bytes32, address, big_int, byte_slice, data_root_tuple, merkle_proof,
  init_parameters,
}

-- The types of arguments. A struct stands for its tuple.
pub data AbiType : Type 0 where
  uint64_type uint256_type bytes4_type bytes32_type address_type bytes_type : AbiType
  data_root_tuple_type merkle_proof_type init_parameters_type : AbiType

-- Whether a Go value has the dynamic type that `abi` asks for.
abbrev pub has_type : Value → AbiType → Bool
has_type (uint64 n) uint64_type = true
has_type (big_int n) uint256_type = true
has_type (bytes4 n) bytes4_type = true
has_type (bytes32 n) bytes32_type = true
has_type (address n) address_type = true
has_type (byte_slice b) bytes_type = true
has_type (data_root_tuple t) data_root_tuple_type = true
has_type (merkle_proof p) merkle_proof_type = true
has_type (init_parameters p) init_parameters_type = true
has_type _ _ = false

abbrev have_types : List Value → List AbiType → Bool
have_types [] [] = true
have_types (v ∷ vs) (t ∷ ts) = has_type v t && have_types vs ts
have_types _ _ = false

abbrev find_method : String → List (String × List AbiType) → Option (List AbiType)
find_method name [] = none
find_method name ((n, ts) ∷ rest) = if str_eq n name then some ts else find_method name rest

abbrev pub methods : List (String × List AbiType)
methods =
    ("DATA_COMMITMENT_MAX", [])
    ∷ ("DEFAULT_ADMIN_ROLE", [])
    ∷ ("GUARDIAN_ROLE", [])
    ∷ ("TIMELOCK_ROLE", [])
    ∷ ("VERSION", [])
    ∷ ("blockHeightToHeaderHash", uint64_type ∷ [])
    ∷ ("commitHeaderRange", uint64_type ∷ uint64_type ∷ [])
    ∷ ("commitNextHeader", uint64_type ∷ [])
    ∷ ("gateway", [])
    ∷ ("getHeaderHash", uint64_type ∷ [])
    ∷ ("getRoleAdmin", bytes32_type ∷ [])
    ∷ ("grantRole", bytes32_type ∷ address_type ∷ [])
    ∷ ("hasRole", bytes32_type ∷ address_type ∷ [])
    ∷ ("headerRangeFunctionId", [])
    ∷ ("initialize", init_parameters_type ∷ [])
    ∷ ("latestBlock", [])
    ∷ ("nextHeaderFunctionId", [])
    ∷ ("proxiableUUID", [])
    ∷ ("renounceRole", bytes32_type ∷ address_type ∷ [])
    ∷ ("requestHeaderRange", uint64_type ∷ [])
    ∷ ("requestNextHeader", [])
    ∷ ("revokeRole", bytes32_type ∷ address_type ∷ [])
    ∷ ("state_dataCommitments", uint256_type ∷ [])
    ∷ ("state_proofNonce", [])
    ∷ ("supportsInterface", bytes4_type ∷ [])
    ∷ ("updateGateway", address_type ∷ [])
    ∷ ("updateHeaderRangeId", bytes32_type ∷ [])
    ∷ ("updateNextHeaderId", bytes32_type ∷ [])
    ∷ ("upgradeTo", address_type ∷ [])
    ∷ ("upgradeToAndCall", address_type ∷ bytes_type ∷ [])
    ∷ ("verifyAttestation", uint256_type ∷ data_root_tuple_type ∷ merkle_proof_type ∷ [])
    ∷ []

-- Whether the ABI has the method, for arguments of these types.
abbrev pub well_typed : String → List Value → Bool
well_typed name args = elim (find_method name methods) [
  | none ↦ false
  | some ts ↦ have_types args ts
]

abbrev fits_uint256 : ℤ → Bool
fits_uint256 (pos n) = ltb n (2 ^ 256)
fits_uint256 (negsuc n) = false

-- Whether the big integers of a value are in the range of a `uint256`.
abbrev pub fits : Value → Bool
fits (big_int n) = fits_uint256 n
fits (data_root_tuple t) = fits_uint256 t.height
fits (merkle_proof p) = fits_uint256 p.key && fits_uint256 p.num_leaves
fits _ = true

abbrev pub all_fit : List Value → Bool
all_fit [] = true
all_fit (v ∷ vs) = fits v && all_fit vs
