-- ===== src/Contract/Types.antt =====
-- The data of contracts/src/BlobstreamX.sol and contracts/src/interfaces/IBlobstreamX.sol: the
-- storage, the errors and events, and what the contract calls and does not implement.
-- An `address`, a `bytes32` and an unsigned integer are natural numbers.
use blobstreamx.Base.{ℕ, ◌^◌, ◌+◌, Bool, true, false, Option, none, some, List, ltb, if◌then◌else◌}
use blobstreamx.Base.Bytes.{Bytes}

pub record InitParameters : Type 0 where
  pub guardian : ℕ
  pub gateway : ℕ
  pub height : ℕ
  pub header : ℕ
  pub next_header_function_id : ℕ
  pub header_range_function_id : ℕ

-- The contract imports the next two; their fields are those of abi/BlobstreamX.abi.json.
pub record DataRootTuple : Type 0 where
  pub height : ℕ
  pub data_root : ℕ

pub record BinaryMerkleProof : Type 0 where
  pub side_nodes : List ℕ
  pub key : ℕ
  pub num_leaves : ℕ

-- The storage. `access` is that of `TimelockedUpgradeable` and the contracts it inherits.
pub record Storage (R : Type 0) : Type 0 where
  pub access : R
  pub gateway : ℕ
  pub latest_block : ℕ
  pub state_proof_nonce : ℕ
  pub block_height_to_header_hash : ℕ → ℕ
  pub state_data_commitments : ℕ → ℕ
  pub header_range_function_id : ℕ
  pub next_header_function_id : ℕ
  pub frozen : Bool

-- Why a call reverts: the errors of the interface, and four that Solidity or a callee raises.
pub data Error : Type 0 where
  trusted_header_not_found latest_header_not_found target_block_not_in_range : Error
  contract_frozen only_guardian already_initialized : Error
  arithmetic_overflow malformed_result gateway_reverted : Error

pub data Event : Type 0 where
  head_update : (block_number header_hash : ℕ) → Event
  data_commitment_stored : (proof_nonce start_block end_block data_commitment : ℕ) → Event
  next_header_requested : (trusted_block trusted_header : ℕ) → Event
  header_range_requested : (trusted_block trusted_header target_block : ℕ) → Event

-- The callback of a request: the selector and its arguments.
pub data Callback : Type 0 where
  commit_header_range_callback : (target_block : ℕ) → Callback
  commit_next_header_callback : (trusted_block : ℕ) → Callback

-- The arguments of `ISuccinctGateway.requestCall`.
pub record Request : Type 0 where
  pub value : ℕ
  pub function_id : ℕ
  pub input : Bytes
  pub callback : Callback
  pub gas_limit : ℕ

-- The gateway as one transaction meets it: `none` and `false` are reverts. It is called at the
-- address that the storage holds.
pub record Gateway : Type 0 where
  pub verified_call : (gateway function_id : ℕ) → Bytes → Option Bytes
  pub request_call : (gateway : ℕ) → Request → Bool

-- `TimelockedUpgradeable`: the `initializer` modifier with `__TimelockedUpgradeable_init`, where
-- `none` is a revert, and the test of `onlyGuardian`.
pub record Upgradeable (R : Type 0) : Type 0 where
  pub initializer : R → (timelock guardian : ℕ) → Option R
  pub is_guardian : R → ℕ → Bool

-- `BinaryMerkleTree.verify`, of which the contract reads the first result.
abbrev pub MerkleVerify : Type 0
MerkleVerify = ℕ → BinaryMerkleProof → Bytes → Bool

pub record Message : Type 0 where
  pub sender : ℕ
  pub value : ℕ
  pub gateway : Gateway

pub data Result {ℓ} (A : Type ℓ) : Type ℓ where
  ok : A → Result A
  revert : Error → Result A

infixl 5 ◌>>=◌ ◌>>◌
abbrev pub ◌>>=◌ {ℓ κ} : {A : Type ℓ} {B : Type κ} → Result A → (A → Result B) → Result B
ok a >>= f = f a
revert e >>= f = revert e

abbrev pub ◌>>◌ {ℓ} : {B : Type ℓ} → Result (Unit {0}) → Result B → Result B
m >> k = m >>= λ _. k

-- `if (b) { revert e; }`
abbrev pub revert_if : Bool → Error → Result (Unit {0})
revert_if true e = revert e
revert_if false e = ok tt

abbrev pub or_revert {ℓ} : {A : Type ℓ} → Option A → Error → Result A
or_revert none e = revert e
or_revert (some a) e = ok a

-- Checked addition on a `uint` of `w` bits.
abbrev pub checked_add : ℕ → ℕ → ℕ → Result ℕ
checked_add w a b = if ltb (a + b) (2 ^ w) then ok (a + b) else revert arithmetic_overflow

-- What a call leaves behind: the storage, the logs, and the requests made to the gateway.
pub record Outcome (R : Type 0) : Type 0 where
  pub storage : Storage R
  pub logs : List Event
  pub requests : List Request
