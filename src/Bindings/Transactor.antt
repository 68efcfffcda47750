-- ===== src/Bindings/Transactor.antt =====
-- The paid methods of bindings/BlobstreamX.go on a `BlobstreamXTransactor`.
use blobstreamx.Base.{ℕ, String, List, [], ◌∷◌}
use blobstreamx.Base.Bytes.{Bytes}
use blobstreamx.Bindings.Values.{
  Value, uint64, bytes32, address, byte_slice, init_parameters, InitParameters, Go, returned, ◌>>=◌,
  or_panic,
}
use blobstreamx.Bindings.Geth.{Geth}
use blobstreamx.Bindings.Instance.{BlobstreamXTransactor, OrError}

module _ (g : Geth) where
  open g use {Chain, TransactOpts, Transaction}

  abbrev Transactor : Type 0
  Transactor = BlobstreamXTransactor g

  -- A method sends a transaction, and returns it or an error, or panics.
  abbrev pub Writes : Type 0
  Writes = Chain → Go (OrError g Transaction × Chain)

  -- The body that the methods share.
  unfoldable pub mutate : Transactor → TransactOpts → String → List Value → Writes
  mutate c opts method params chain = do
    contract ← or_panic c.contract
    returned (g.transact contract opts method params chain)

  unfoldable pub commit_header_range : Transactor → TransactOpts → ℕ → ℕ → Writes
  unfolding mutate
  commit_header_range c opts trusted_block target_block =
      mutate c opts "commitHeaderRange" (uint64 trusted_block ∷ uint64 target_block ∷ [])

  unfoldable pub commit_next_header : Transactor → TransactOpts → ℕ → Writes
  unfolding mutate
  commit_next_header c opts trusted_block =
      mutate c opts "commitNextHeader" (uint64 trusted_block ∷ [])

  unfoldable pub grant_role : Transactor → TransactOpts → ℕ → ℕ → Writes
  unfolding mutate
  grant_role c opts role account = mutate c opts "grantRole" (bytes32 role ∷ address account ∷ [])

  unfoldable pub initialize : Transactor → TransactOpts → InitParameters → Writes
  unfolding mutate
  initialize c opts params = mutate c opts "initialize" (init_parameters params ∷ [])

  unfoldable pub renounce_role : Transactor → TransactOpts → ℕ → ℕ → Writes
  unfolding mutate
  renounce_role c opts role account =
      mutate c opts "renounceRole" (bytes32 role ∷ address account ∷ [])

  unfoldable pub request_header_range : Transactor → TransactOpts → ℕ → Writes
  unfolding mutate
  request_header_range c opts target_block =
      mutate c opts "requestHeaderRange" (uint64 target_block ∷ [])

  unfoldable pub request_next_header : Transactor → TransactOpts → Writes
  unfolding mutate
  request_next_header c opts = mutate c opts "requestNextHeader" []

  unfoldable pub revoke_role : Transactor → TransactOpts → ℕ → ℕ → Writes
  unfolding mutate
  revoke_role c opts role account = mutate c opts "revokeRole" (bytes32 role ∷ address account ∷ [])

  unfoldable pub update_gateway : Transactor → TransactOpts → ℕ → Writes
  unfolding mutate
  update_gateway c opts gateway = mutate c opts "updateGateway" (address gateway ∷ [])

  unfoldable pub update_header_range_id : Transactor → TransactOpts → ℕ → Writes
  unfolding mutate
  update_header_range_id c opts function_id =
      mutate c opts "updateHeaderRangeId" (bytes32 function_id ∷ [])

  unfoldable pub update_next_header_id : Transactor → TransactOpts → ℕ → Writes
  unfolding mutate
  update_next_header_id c opts function_id =
      mutate c opts "updateNextHeaderId" (bytes32 function_id ∷ [])

  unfoldable pub upgrade_to : Transactor → TransactOpts → ℕ → Writes
  unfolding mutate
  upgrade_to c opts new_implementation = mutate c opts "upgradeTo" (address new_implementation ∷ [])

  unfoldable pub upgrade_to_and_call : Transactor → TransactOpts → ℕ → Bytes → Writes
  unfolding mutate
  upgrade_to_and_call c opts new_implementation call_data =
      mutate c opts "upgradeToAndCall" (address new_implementation ∷ byte_slice call_data ∷ [])
