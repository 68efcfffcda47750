-- ===== src/Bindings/TransactorSession.antt =====
-- The methods of bindings/BlobstreamX.go on a `BlobstreamXTransactorSession`.
use blobstreamx.Base.{ℕ}
use blobstreamx.Base.Bytes.{Bytes}
use blobstreamx.Bindings.Values.{InitParameters}
use blobstreamx.Bindings.Geth.{Geth}
use blobstreamx.Bindings.Instance.{BlobstreamXTransactorSession}
use blobstreamx.Bindings.Transactor

module _ (g : Geth) where
  abbrev TransactorSession : Type 0
  TransactorSession = BlobstreamXTransactorSession g

  abbrev Writes : Type 0
  Writes = Transactor.Writes g

  unfoldable pub commit_header_range : TransactorSession → ℕ → ℕ → Writes
  unfolding Transactor.commit_header_range
  commit_header_range s trusted_block target_block =
      Transactor.commit_header_range g s.contract s.transact_opts trusted_block target_block

  unfoldable pub commit_next_header : TransactorSession → ℕ → Writes
  unfolding Transactor.commit_next_header
  commit_next_header s trusted_block =
      Transactor.commit_next_header g s.contract s.transact_opts trusted_block

  unfoldable pub grant_role : TransactorSession → ℕ → ℕ → Writes
  unfolding Transactor.grant_role
  grant_role s role account = Transactor.grant_role g s.contract s.transact_opts role account

  unfoldable pub initialize : TransactorSession → InitParameters → Writes
  unfolding Transactor.initialize
  initialize s params = Transactor.initialize g s.contract s.transact_opts params

  unfoldable pub renounce_role : TransactorSession → ℕ → ℕ → Writes
  unfolding Transactor.renounce_role
  renounce_role s role account = Transactor.renounce_role g s.contract s.transact_opts role account

  unfoldable pub request_header_range : TransactorSession → ℕ → Writes
  unfolding Transactor.request_header_range
  request_header_range s target_block =
      Transactor.request_header_range g s.contract s.transact_opts target_block

  unfoldable pub request_next_header : TransactorSession → Writes
  unfolding Transactor.request_next_header
  request_next_header s = Transactor.request_next_header g s.contract s.transact_opts

  unfoldable pub revoke_role : TransactorSession → ℕ → ℕ → Writes
  unfolding Transactor.revoke_role
  revoke_role s role account = Transactor.revoke_role g s.contract s.transact_opts role account

  unfoldable pub update_gateway : TransactorSession → ℕ → Writes
  unfolding Transactor.update_gateway
  update_gateway s gateway = Transactor.update_gateway g s.contract s.transact_opts gateway

  unfoldable pub update_header_range_id : TransactorSession → ℕ → Writes
  unfolding Transactor.update_header_range_id
  update_header_range_id s function_id =
      Transactor.update_header_range_id g s.contract s.transact_opts function_id

  unfoldable pub update_next_header_id : TransactorSession → ℕ → Writes
  unfolding Transactor.update_next_header_id
  update_next_header_id s function_id =
      Transactor.update_next_header_id g s.contract s.transact_opts function_id

  unfoldable pub upgrade_to : TransactorSession → ℕ → Writes
  unfolding Transactor.upgrade_to
  upgrade_to s new_implementation =
      Transactor.upgrade_to g s.contract s.transact_opts new_implementation

  unfoldable pub upgrade_to_and_call : TransactorSession → ℕ → Bytes → Writes
  unfolding Transactor.upgrade_to_and_call
  upgrade_to_and_call s new_implementation call_data =
      Transactor.upgrade_to_and_call g s.contract s.transact_opts new_implementation call_data
