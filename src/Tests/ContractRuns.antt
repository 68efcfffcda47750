-- ===== src/Tests/ContractRuns.antt =====
-- Runs of the contract of contracts/src/BlobstreamX.sol: a light client at block 10, whose gateway
-- answers every call with the header 7 and the data commitment 9.
use blobstreamx.Base.{
  ℕ, suc, ◌+◌, ◌≡◌, ◌≤◌, refl, true, false, none, some, List, [], ◌∷◌, ◌++◌, arith, ◌==◌,
  if◌then◌else◌, update,
}
use blobstreamx.Base.Bytes.{
  Bytes, IsBytes, IsBytes-append, IsBytes-be_bytes, be_bytes, le_bytes, of_be_bytes, of_le_bytes,
}
use blobstreamx.Contract.Types.{
  DataRootTuple, BinaryMerkleProof, Storage, Message, Gateway, Upgradeable, ok, revert, Outcome,
  Event, Request, contract_frozen, target_block_not_in_range, MerkleVerify, head_update,
  data_commitment_stored, commit_header_range_callback,
}
use blobstreamx.Contract.Abi.{encode_header_range_input, encode_next_header_input, decode_result}
use blobstreamx.Contract.{
  commit_header_range, commit_next_header, verify_attestation, request_header_range,
  update_genesis_state, store_commit,
}
use blobstreamx.Contract.Transactions.{
  Call, updates_freeze, commits_header_range, commits_next_header, requests_header_range, exec, run,
}
use blobstreamx.Contract.Commits.{Commits, commit_header_range-Commits, commit_next_header-Commits}
use blobstreamx.Contract.Frozen.{OnlyRequests, run_frozen}
use blobstreamx.Contract.History.{Tiles, run-Tiles}
use blobstreamx.Contract.Attestations.{IsVouched, run-IsVouched}
use blobstreamx.Contract.Requests.{answer, request_header_range-fulfilled}
use blobstreamx.Contract.Widths.{AllTyped, InWidth, AllFit, run-InWidth}
use blobstreamx.Contract.Rollback.{rollback_leaves_gap}

-- The guardian alone stands for the storage of `TimelockedUpgradeable`; 0 is not initialized.
abbrev pub access : Upgradeable ℕ
access = record {
  initializer = λ r timelock guardian. if r == 0 then some guardian else none;
  is_guardian = λ r a. r == a;
}

abbrev pub gateway : Gateway
gateway = record { verified_call = λ a id input. some (answer 7 9); request_call = λ a r. true }

abbrev pub message : Message
message = record { sender = 3; value = 0; gateway = gateway }

abbrev pub client : Storage ℕ
client = record {
  access = 3;
  gateway = 4;
  latest_block = 10;
  state_proof_nonce = 1;
  block_height_to_header_hash = update (λ h. 0) 10 5;
  state_data_commitments = λ n. 0;
  header_range_function_id = 21;
  next_header_function_id = 22;
  frozen = false;
}

abbrev history : List (Call × Message)
history =
    (requests_header_range 12, message)
    ∷ (commits_header_range 12, message)
    ∷ (commits_header_range 12, message)
    ∷ (commits_next_header 12, message)
    ∷ []

-- The third call reverts, for its target is the latest block by then.
run-history :
    (run access history client).1
    ≡ Event.header_range_requested 10 5 12
      ∷ head_update 12 7
      ∷ data_commitment_stored 1 10 12 9
      ∷ head_update 13 7
      ∷ data_commitment_stored 2 12 13 9
      ∷ []
unfolding run exec request_header_range commit_header_range commit_next_header decode_result
    be_bytes le_bytes of_be_bytes of_le_bytes encode_header_range_input encode_next_header_input
run-history = refl

far_target : commit_header_range 10011 message client ≡ revert target_block_not_in_range
unfolding commit_header_range decode_result be_bytes le_bytes of_be_bytes of_le_bytes
far_target = refl

pub client_none_above :
    (k : ℕ) → client.block_height_to_header_hash (client.latest_block + suc k) ≡ 0
client_none_above k = ground arith

run-Tiles_example :
    Tiles 10 1
      (run access history client).1
      (run access history client).0.latest_block
      (run access history client).0.state_proof_nonce
run-Tiles_example =
    run-Tiles access history client (refl, (refl, (refl, (refl, tt)))) client_none_above

abbrev pub tuple : DataRootTuple
tuple = record { height = 10; data_root = 77 }

abbrev pub proof : BinaryMerkleProof
proof = record { side_nodes = 1 ∷ []; key = 0; num_leaves = 2 }

-- A Merkle tree that knows one root.
abbrev pub knows_nine : MerkleVerify
knows_nine root p leaf = root == 9

history_thawed : (run access history client).0.frozen ≡ false
unfolding run exec request_header_range commit_header_range commit_next_header decode_result
    be_bytes le_bytes of_be_bytes of_le_bytes encode_header_range_input encode_next_header_input
history_thawed = refl

run-IsVouched_example :
    IsVouched knows_nine tuple proof (run access history client).0 (run access history client).1
run-IsVouched_example =
    run-IsVouched access knows_nine tuple proof history client (refl, (refl, (refl, (refl, tt))))
      (omega arith) history_thawed

abbrev pub committed : Outcome ℕ
committed = record {
  storage = record client {
    block_height_to_header_hash = update client.block_height_to_header_hash 12 7;
    state_data_commitments = update client.state_data_commitments 1 9;
    state_proof_nonce = 2;
    latest_block = 12;
  };
  logs = head_update 12 7 ∷ data_commitment_stored 1 10 12 9 ∷ [];
  requests = [];
}

commit_12 : commit_header_range 12 message client ≡ ok committed
unfolding commit_header_range decode_result be_bytes le_bytes of_be_bytes of_le_bytes
commit_12 = refl

commit_header_range-Commits_example : Commits client 10 12 committed × (12 ≤ 10 + 10000)
commit_header_range-Commits_example =
    commit_header_range-Commits 12 message client committed commit_12

abbrev pub stepped : Outcome ℕ
stepped = record {
  storage = record client {
    block_height_to_header_hash = update client.block_height_to_header_hash 11 7;
    state_data_commitments = update client.state_data_commitments 1 9;
    state_proof_nonce = 2;
    latest_block = 11;
  };
  logs = head_update 11 7 ∷ data_commitment_stored 1 10 11 9 ∷ [];
  requests = [];
}

pub step_10 : commit_next_header 10 message client ≡ ok stepped
unfolding commit_next_header decode_result be_bytes le_bytes of_be_bytes of_le_bytes
step_10 = refl

commit_next_header-Commits_example : Commits client 10 11 stepped
commit_next_header-Commits_example = commit_next_header-Commits 10 message client stepped step_10

abbrev frozen_client : Storage ℕ
frozen_client = record client { frozen = true }

-- A stranger to the frozen contract tries to commit, to unfreeze it and to request.
abbrev stranger : Message
stranger = record message { sender = 9 }

abbrev attempts : List (Call × Message)
attempts =
    (commits_header_range 12, stranger)
    ∷ (updates_freeze false, stranger)
    ∷ (requests_header_range 12, stranger)
    ∷ []

run_frozen_example :
    ((run access attempts frozen_client).0 ≡ frozen_client)
    × OnlyRequests (run access attempts frozen_client).1
    × (verify_attestation knows_nine 0 tuple proof (run access attempts frozen_client).0
        ≡ revert contract_frozen)
run_frozen_example =
    run_frozen access attempts frozen_client knows_nine 0 tuple proof refl (tt, (refl, (tt, tt)))

abbrev request_12 : Request
request_12 = record {
  value = 0;
  function_id = 21;
  input = encode_header_range_input 10 5 12;
  callback = commit_header_range_callback 12;
  gas_limit = 500000;
}

abbrev requested : Outcome ℕ
requested = record {
  storage = client;
  logs = Event.header_range_requested 10 5 12 ∷ [];
  requests = request_12 ∷ [];
}

request_accepted : request_header_range 12 message client ≡ ok requested
unfolding request_header_range
request_accepted = refl

request_header_range-fulfilled_example :
    (client ≡ client)
    × (exec access (commits_header_range 12) message client ≡ store_commit 10 12 7 9 client)
request_header_range-fulfilled_example =
    request_header_range-fulfilled access 12 7 9 message message client requested request_12
      (omega arith) (omega arith) refl request_accepted refl refl

abbrev rolled_back : Outcome ℕ
rolled_back = record {
  storage = record client {
    block_height_to_header_hash = update client.block_height_to_header_hash 4 6;
    latest_block = 4;
  };
  logs = [];
  requests = [];
}

roll_back : update_genesis_state access 4 6 message client ≡ ok rolled_back
unfolding update_genesis_state
roll_back = refl

rollback_leaves_gap_example :
    (rolled_back.storage.latest_block ≡ 4)
    × (commit_next_header 10 message rolled_back.storage
        ≡ store_commit 10 11 7 9 rolled_back.storage)
rollback_leaves_gap_example =
    rollback_leaves_gap access 4 6 10 7 9 message message client rolled_back roll_back (omega arith)
      (omega arith) refl (omega arith) (omega arith) (omega arith) refl

answers-IsBytes : (output : Bytes) → some (answer 7 9) ≡ some output → IsBytes output
answers-IsBytes output e =
    let d : answer 7 9 ≡ output = cc e in
    rw (← d) (
      IsBytes-append (be_bytes 32 7) (be_bytes 32 9 ++ []) (IsBytes-be_bytes 32 7)
        (IsBytes-append (be_bytes 32 9) [] (IsBytes-be_bytes 32 9) tt))

history-AllTyped : AllTyped history
history-AllTyped =
    let answers = λ (a f : ℕ) (input output : Bytes) (e : some (answer 7 9) ≡ some output).
      answers-IsBytes output e in
    (
      omega arith,
      answers,
      (omega arith, answers, (omega arith, answers, (omega arith, answers, tt))),
    )

client-InWidth : InWidth client
client-InWidth = record {
  gateway-lt = omega arith;
  latest_block-lt = omega arith;
  state_proof_nonce-lt = omega arith;
  header_range_function_id-lt = omega arith;
  next_header_function_id-lt = omega arith;
  header-lt = λ h. ground arith;
  commitment-lt = λ n. omega arith;
}

run-InWidth_example : InWidth (run access history client).0 × AllFit (run access history client).1
run-InWidth_example = run-InWidth access history client history-AllTyped client-InWidth
