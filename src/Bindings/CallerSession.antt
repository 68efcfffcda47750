-- ===== src/Bindings/CallerSession.antt =====
-- The methods of bindings/BlobstreamX.go on a `BlobstreamXCallerSession`.
use blobstreamx.Base.{ℕ, Bool, String, Option}
use blobstreamx.Base.Int.{ℤ}
use blobstreamx.Bindings.Values.{DataRootTuple, BinaryMerkleProof}
use blobstreamx.Bindings.Geth.{Geth}
use blobstreamx.Bindings.Instance.{BlobstreamXCallerSession}
use blobstreamx.Bindings.Caller

module _ (g : Geth) where
  abbrev CallerSession : Type 0
  CallerSession = BlobstreamXCallerSession g

  abbrev Reads : Type 0 → Type 0
  Reads T = Caller.Reads g T

  unfoldable pub data_commitment_max : CallerSession → Reads ℕ
  unfolding Caller.data_commitment_max
  data_commitment_max s = Caller.data_commitment_max g s.contract s.call_opts

  unfoldable pub default_admin_role : CallerSession → Reads ℕ
  unfolding Caller.default_admin_role
  default_admin_role s = Caller.default_admin_role g s.contract s.call_opts

  unfoldable pub guardian_role : CallerSession → Reads ℕ
  unfolding Caller.guardian_role
  guardian_role s = Caller.guardian_role g s.contract s.call_opts

  unfoldable pub timelock_role : CallerSession → Reads ℕ
  unfolding Caller.timelock_role
  timelock_role s = Caller.timelock_role g s.contract s.call_opts

  unfoldable pub version : CallerSession → Reads String
  unfolding Caller.version
  version s = Caller.version g s.contract s.call_opts

  unfoldable pub block_height_to_header_hash : CallerSession → ℕ → Reads ℕ
  unfolding Caller.block_height_to_header_hash
  block_height_to_header_hash s key =
      Caller.block_height_to_header_hash g s.contract s.call_opts key

  unfoldable pub gateway : CallerSession → Reads ℕ
  unfolding Caller.gateway
  gateway s = Caller.gateway g s.contract s.call_opts

  unfoldable pub get_header_hash : CallerSession → ℕ → Reads ℕ
  unfolding Caller.get_header_hash
  get_header_hash s height = Caller.get_header_hash g s.contract s.call_opts height

  unfoldable pub get_role_admin : CallerSession → ℕ → Reads ℕ
  unfolding Caller.get_role_admin
  get_role_admin s role = Caller.get_role_admin g s.contract s.call_opts role

  unfoldable pub has_role : CallerSession → ℕ → ℕ → Reads Bool
  unfolding Caller.has_role
  has_role s role account = Caller.has_role g s.contract s.call_opts role account

  unfoldable pub header_range_function_id : CallerSession → Reads ℕ
  unfolding Caller.header_range_function_id
  header_range_function_id s = Caller.header_range_function_id g s.contract s.call_opts

  unfoldable pub latest_block : CallerSession → Reads ℕ
  unfolding Caller.latest_block
  latest_block s = Caller.latest_block g s.contract s.call_opts

  unfoldable pub next_header_function_id : CallerSession → Reads ℕ
  unfolding Caller.next_header_function_id
  next_header_function_id s = Caller.next_header_function_id g s.contract s.call_opts

  unfoldable pub proxiable_uuid : CallerSession → Reads ℕ
  unfolding Caller.proxiable_uuid
  proxiable_uuid s = Caller.proxiable_uuid g s.contract s.call_opts

  unfoldable pub state_data_commitments : CallerSession → ℤ → Reads ℕ
  unfolding Caller.state_data_commitments
  state_data_commitments s key = Caller.state_data_commitments g s.contract s.call_opts key

  unfoldable pub state_proof_nonce : CallerSession → Reads (Option ℤ)
  unfolding Caller.state_proof_nonce
  state_proof_nonce s = Caller.state_proof_nonce g s.contract s.call_opts

  unfoldable pub supports_interface : CallerSession → ℕ → Reads Bool
  unfolding Caller.supports_interface
  supports_interface s interface_id =
      Caller.supports_interface g s.contract s.call_opts interface_id

  unfoldable pub verify_attestation :
      CallerSession → ℤ → DataRootTuple → BinaryMerkleProof → Reads Bool
  unfolding Caller.verify_attestation
  verify_attestation s proof_nonce tuple proof =
      Caller.verify_attestation g s.contract s.call_opts proof_nonce tuple proof
