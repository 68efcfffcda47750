-- ===== src/Contract.antt =====
-- The contract of contracts/src/BlobstreamX.sol, function by function. A call returns an `Outcome`
-- or reverts; integers are checked where Solidity 0.8 checks them.
pub mod Types
pub mod Abi
pub mod Transactions
pub mod Commits
pub mod History
pub mod Attestations
pub mod Requests
pub mod Rollback
pub mod Frozen
pub mod Widths
use blobstreamx.Base.{
  ℕ, ◌+◌, ◌-◌, ◌≡◌, Bool, true, false, ◌||◌, Option, none, some, List, [], ◌∷◌, ltb, leb, ◌==◌,
  if◌then◌else◌, update,
}
use Types.{
  InitParameters, DataRootTuple, BinaryMerkleProof, Storage, Error, Event, Callback, Request,
  Gateway, Upgradeable, MerkleVerify, Message, Result, ok, revert, Outcome, ◌>>=◌, ◌>>◌, revert_if,
  or_revert, checked_add, trusted_header_not_found, latest_header_not_found,
  target_block_not_in_range, contract_frozen, only_guardian, already_initialized, malformed_result,
  gateway_reverted, head_update, data_commitment_stored, next_header_requested,
  header_range_requested, commit_header_range_callback, commit_next_header_callback,
}
use Abi.{encode_header_range_input, encode_next_header_input, decode_result, encode_data_root_tuple}

abbrev pub data_commitment_max : ℕ
data_commitment_max = 10000

-- `_targetBlock <= latestBlock || _targetBlock - latestBlock > DATA_COMMITMENT_MAX`
abbrev pub is_out_of_range : (target_block latest_block : ℕ) → Bool
is_out_of_range target_block latest_block =
    leb target_block latest_block || ltb data_commitment_max (target_block - latest_block)

-- `ISuccinctGateway(gateway).verifiedCall(…)` and `abi.decode(…, (bytes32, bytes32))`.
abbrev proof_result : Option (List ℕ) → Result (ℕ × ℕ)
proof_result answer = do
  bytes ← or_revert answer gateway_reverted
  or_revert (decode_result bytes) malformed_result

module _ {R : Type 0} where
  -- A call that only writes storage.
  abbrev writes : Storage R → Outcome R
  writes s = record { storage = s; logs = []; requests = [] }

  unfoldable pub initialize : Upgradeable R → InitParameters → Storage R → Result (Outcome R)
  initialize u p s = do
    access ← or_revert (u.initializer s.access p.guardian p.guardian) already_initialized
    ok (
        writes (record s {
          access = access;
          frozen = false;
          gateway = p.gateway;
          block_height_to_header_hash = update s.block_height_to_header_hash p.height p.header;
          latest_block = p.height;
          next_header_function_id = p.next_header_function_id;
          header_range_function_id = p.header_range_function_id;
          state_proof_nonce = 1;
        }))

  -- The `onlyGuardian` modifier.
  abbrev check_guardian : Upgradeable R → Message → Storage R → Result (Unit {0})
  check_guardian u msg s = if u.is_guardian s.access msg.sender then ok tt else revert only_guardian

  unfoldable pub update_freeze : Upgradeable R → Bool → Message → Storage R → Result (Outcome R)
  update_freeze u freeze msg s = do
    check_guardian u msg s
    ok (writes (record s { frozen = freeze }))

  unfoldable pub update_gateway : Upgradeable R → ℕ → Message → Storage R → Result (Outcome R)
  update_gateway u gateway msg s = do
    check_guardian u msg s
    ok (writes (record s { gateway = gateway }))

  unfoldable pub update_function_ids :
      Upgradeable R → ℕ → ℕ → Message → Storage R → Result (Outcome R)
  update_function_ids u header_range next_header msg s = do
    check_guardian u msg s
    ok (
        writes (record s {
          header_range_function_id = header_range;
          next_header_function_id = next_header;
        }))

  unfoldable pub update_genesis_state :
      Upgradeable R → ℕ → ℕ → Message → Storage R → Result (Outcome R)
  update_genesis_state u height header msg s = do
    check_guardian u msg s
    ok (
        writes (record s {
          block_height_to_header_hash = update s.block_height_to_header_hash height header;
          latest_block = height;
        }))

  -- `ISuccinctGateway(gateway).requestCall{value: msg.value}(…)`, then the event.
  abbrev submit : Request → Event → Message → Storage R → Result (Outcome R)
  submit r e msg s =
      if msg.gateway.request_call s.gateway r
      then ok (record { storage = s; logs = e ∷ []; requests = r ∷ [] })
      else revert gateway_reverted

  unfoldable pub request_header_range : ℕ → Message → Storage R → Result (Outcome R)
  request_header_range target_block msg s = do
    let latest_header = s.block_height_to_header_hash s.latest_block
    revert_if (latest_header == 0) latest_header_not_found
    revert_if (is_out_of_range target_block s.latest_block) target_block_not_in_range
    let request : Request = record {
      value = msg.value;
      function_id = s.header_range_function_id;
      input = encode_header_range_input s.latest_block latest_header target_block;
      callback = commit_header_range_callback target_block;
      gas_limit = 500000;
    }
    submit request (header_range_requested s.latest_block latest_header target_block) msg s

  unfoldable pub request_next_header : Message → Storage R → Result (Outcome R)
  request_next_header msg s = do
    let latest_header = s.block_height_to_header_hash s.latest_block
    revert_if (latest_header == 0) latest_header_not_found
    let request : Request = record {
      value = msg.value;
      function_id = s.next_header_function_id;
      input = encode_next_header_input s.latest_block latest_header;
      callback = commit_next_header_callback s.latest_block;
      gas_limit = 500000;
    }
    submit request (next_header_requested s.latest_block latest_header) msg s

  -- The writes and the events of a commit for the blocks from `start` up to `end`.
  abbrev pub store_commit : (start end header commitment : ℕ) → Storage R → Result (Outcome R)
  store_commit start end header commitment s = do
    next_nonce ← checked_add 256 s.state_proof_nonce 1
    let nonce = s.state_proof_nonce
    ok (record {
      storage = record s {
        block_height_to_header_hash = update s.block_height_to_header_hash end header;
        state_data_commitments = update s.state_data_commitments nonce commitment;
        state_proof_nonce = next_nonce;
        latest_block = end;
      };
      logs = head_update end header ∷ data_commitment_stored nonce start end commitment ∷ [];
      requests = [];
    })

  unfoldable pub commit_header_range : ℕ → Message → Storage R → Result (Outcome R)
  commit_header_range target_block msg s = do
    revert_if s.frozen contract_frozen
    let trusted_header = s.block_height_to_header_hash s.latest_block
    revert_if (trusted_header == 0) trusted_header_not_found
    let input = encode_header_range_input s.latest_block trusted_header target_block
    (header, commitment) ←
        proof_result (msg.gateway.verified_call s.gateway s.header_range_function_id input)
    revert_if (is_out_of_range target_block s.latest_block) target_block_not_in_range
    store_commit s.latest_block target_block header commitment s

  unfoldable pub commit_next_header : ℕ → Message → Storage R → Result (Outcome R)
  commit_next_header trusted_block msg s = do
    revert_if s.frozen contract_frozen
    let trusted_header = s.block_height_to_header_hash trusted_block
    revert_if (trusted_header == 0) trusted_header_not_found
    let input = encode_next_header_input trusted_block trusted_header
    (header, commitment) ←
        proof_result (msg.gateway.verified_call s.gateway s.next_header_function_id input)
    next_block ← checked_add 64 trusted_block 1
    revert_if (leb next_block s.latest_block) target_block_not_in_range
    store_commit trusted_block next_block header commitment s

  unfoldable pub verify_attestation :
      MerkleVerify → ℕ → DataRootTuple → BinaryMerkleProof → Storage R → Result Bool
  verify_attestation verify nonce tuple proof s = do
    revert_if s.frozen contract_frozen
    ok (
        if nonce == 0 || leb s.state_proof_nonce nonce
        then false
        else verify (s.state_data_commitments nonce) proof (encode_data_root_tuple tuple))
