-- ===== src/Bindings/Session.antt =====
-- The methods of bindings/BlobstreamX.go on a `BlobstreamXSession`: each under the session's options.
use blobstreamx.Base.{ℕ, Bool, String, Option}
use blobstreamx.Base.Bytes.{Bytes}
use blobstreamx.Base.Int.{ℤ}
use blobstreamx.Bindings.Values.{DataRootTuple, BinaryMerkleProof, InitParameters}
use blobstreamx.Bindings.Geth.{Geth}
use blobstreamx.Bindings.Instance.{BlobstreamXSession}
use blobstreamx.Bindings.Caller
use blobstreamx.Bindings.Transactor

module _ (g : Geth) where
  abbrev Session : Type 0
  Session = BlobstreamXSession g

  abbrev Reads : Type 0 → Type 0
  Reads T = Caller.Reads g T

  abbrev Writes : Type 0
  Writes = Transactor.Writes g

  unfoldable pub data_commitment_max : Session → Reads ℕ
  unfolding Caller.data_commitment_max
  data_commitment_max s = Caller.data_commitment_max g s.contract.caller s.call_opts

  unfoldable pub default_admin_role : Session → Reads ℕ
  unfolding Caller.default_admin_role
  default_admin_role s = Caller.default_admin_role g s.contract.caller s.call_opts

  unfoldable pub guardian_role : Session → Reads ℕ
  unfolding Caller.guardian_role
  guardian_role s = Caller.guardian_role g s.contract.caller s.call_opts

  unfoldable pub timelock_role : Session → Reads ℕ
  unfolding Caller.timelock_role
  timelock_role s = Caller.timelock_role g s.contract.caller s.call_opts

  unfoldable pub version : Session → Reads String
  unfolding Caller.version
  version s = Caller.version g s.contract.caller s.call_opts

  unfoldable pub block_height_to_header_hash : Session → ℕ → Reads ℕ
  unfolding Caller.block_height_to_header_hash
  block_height_to_header_hash s key =
      Caller.block_height_to_header_hash g s.contract.caller s.call_opts key

  unfoldable pub gateway : Session → Reads ℕ
  unfolding Caller.gateway
  gateway s = Caller.gateway g s.contract.caller s.call_opts

  unfoldable pub get_header_hash : Session → ℕ → Reads ℕ
  unfolding Caller.get_header_hash
  get_header_hash s height = Caller.get_header_hash g s.contract.caller s.call_opts height

  unfoldable pub get_role_admin : Session → ℕ → Reads ℕ
  unfolding Caller.get_role_admin
  get_role_admin s role = Caller.get_role_admin g s.contract.caller s.call_opts role

  unfoldable pub has_role : Session → ℕ → ℕ → Reads Bool
  unfolding Caller.has_role
  has_role s role account = Caller.has_role g s.contract.caller s.call_opts role account

  unfoldable pub header_range_function_id : Session → Reads ℕ
  unfolding Caller.header_range_function_id
  header_range_function_id s = Caller.header_range_function_id g s.contract.caller s.call_opts

  unfoldable pub latest_block : Session → Reads ℕ
  unfolding Caller.latest_block
  latest_block s = Caller.latest_block g s.contract.caller s.call_opts

  unfoldable pub next_header_function_id : Session → Reads ℕ
  unfolding Caller.next_header_function_id
  next_header_function_id s = Caller.next_header_function_id g s.contract.caller s.call_opts

  unfoldable pub proxiable_uuid : Session → Reads ℕ
  unfolding Caller.proxiable_uuid
  proxiable_uuid s = Caller.proxiable_uuid g s.contract.caller s.call_opts

  unfoldable pub state_data_commitments : Session → ℤ → Reads ℕ
  unfolding Caller.state_data_commitments
  state_data_commitments s key = Caller.state_data_commitments g s.contract.caller s.call_opts key

  unfoldable pub state_proof_nonce : Session → Reads (Option ℤ)
  unfolding Caller.state_proof_nonce
  state_proof_nonce s = Caller.state_proof_nonce g s.contract.caller s.call_opts

  unfoldable pub supports_interface : Session → ℕ → Reads Bool
  unfolding Caller.supports_interface
  supports_interface s interface_id =
      Caller.supports_interface g s.contract.caller s.call_opts interface_id

  unfoldable pub verify_attestation : Session → ℤ → DataRootTuple → BinaryMerkleProof → Reads Bool
  unfolding Caller.verify_attestation
  verify_attestation s proof_nonce tuple proof =
      Caller.verify_attestation g s.contract.caller s.call_opts proof_nonce tuple proof

  unfoldable pub commit_header_range : Session → ℕ → ℕ → Writes
  unfolding Transactor.commit_header_range
  commit_header_range s trusted_block target_block =
      Transactor.commit_header_range g s.contract.transactor s.transact_opts trusted_block
        target_block

  unfoldable pub commit_next_header : Session → ℕ → Writes
  unfolding Transactor.commit_next_header
  commit_next_header s trusted_block =
      Transactor.commit_next_header g s.contract.transactor s.transact_opts trusted_block

  unfoldable pub grant_role : Session → ℕ → ℕ → Writes
  unfolding Transactor.grant_role
  grant_role s role account =
      Transactor.grant_role g s.contract.transactor s.transact_opts role account

  unfoldable pub initialize : Session → InitParameters → Writes
  unfolding Transactor.initialize
  initialize s params = Transactor.initialize g s.contract.transactor s.transact_opts params

  unfoldable pub renounce_role : Session → ℕ → ℕ → Writes
  unfolding Transactor.renounce_role
  renounce_role s role account =
      Transactor.renounce_role g s.contract.transactor s.transact_opts role account

  unfoldable pub request_header_range : Session → ℕ → Writes
  unfolding Transactor.request_header_range
  request_header_range s target_block =
      Transactor.request_header_range g s.contract.transactor s.transact_opts target_block

  unfoldable pub request_next_header : Session → Writes
  unfolding Transactor.request_next_header
  request_next_header s = Transactor.request_next_header g s.contract.transactor s.transact_opts

  unfoldable pub revoke_role : Session → ℕ → ℕ → Writes
  unfolding Transactor.revoke_role
  revoke_role s role account =
      Transactor.revoke_role g s.contract.transactor s.transact_opts role account

  unfoldable pub update_gateway : Session → ℕ → Writes
  unfolding Transactor.update_gateway
  update_gateway s gateway =
      Transactor.update_gateway g s.contract.transactor s.transact_opts gateway

  unfoldable pub update_header_range_id : Session → ℕ → Writes
  unfolding Transactor.update_header_range_id
  update_header_range_id s function_id =
      Transactor.update_header_range_id g s.contract.transactor s.transact_opts function_id

  unfoldable pub update_next_header_id : Session → ℕ → Writes
  unfolding Transactor.update_next_header_id
  update_next_header_id s function_id =
      Transactor.update_next_header_id g s.contract.transactor s.transact_opts function_id

  unfoldable pub upgrade_to : Session → ℕ → Writes
  unfolding Transactor.upgrade_to
  upgrade_to s new_implementation =
      Transactor.upgrade_to g s.contract.transactor s.transact_opts new_implementation

  unfoldable pub upgrade_to_and_call : Session → ℕ → Bytes → Writes
  unfolding Transactor.upgrade_to_and_call
  upgrade_to_and_call s new_implementation call_data =
      Transactor.upgrade_to_and_call g s.contract.transactor s.transact_opts new_implementation
        call_data
