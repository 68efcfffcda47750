-- ===== src/Tests/LightClientRuns.antt =====
-- Runs of the contract of contracts/src/BlobstreamX.sol behind a gateway that runs the circuits of
-- circuits/ in two batches of two blocks, from block 10 on.
use blobstreamx.Base.{
  ℕ, ◌≡◌, ◌≤◌, refl, true, none, some, List, [], ◌∷◌, ◌++◌, length, ◌==◌, if◌then◌else◌, arith,
}
use blobstreamx.Base.Bytes.{Bytes, be_bytes, le_bytes, of_be_bytes, of_le_bytes}
use blobstreamx.Circuits.{prove_subchain, reduce, encode_data_root_tuple}
use blobstreamx.Circuits.Chain.{Chain}
use blobstreamx.Circuits.Merkle.{merkle_root}
use blobstreamx.Circuits.DataCommitment.{
  map_stage, prove_data_commitment, prove_next_header_data_commitment,
}
use blobstreamx.Circuits.DataCommitment.Leaves.{tuples}
use blobstreamx.Circuits.DataCommitment.Whole.{prove_data_commitment-Chain}
use blobstreamx.Circuits.Programs.{combined_skip, combined_step}
use blobstreamx.Circuits.Programs.Soundness.{Proven, combined_skip-Proven, combined_step-Proven}
use blobstreamx.Contract.Types.{Message, Gateway, Event, head_update, data_commitment_stored}
use blobstreamx.Contract.Abi.{encode_header_range_input, encode_next_header_input, decode_result}
use blobstreamx.Contract.{commit_header_range, commit_next_header, request_header_range}
use blobstreamx.Contract.Transactions.{
  Call, commits_header_range, commits_next_header, requests_header_range, exec, run,
}
use blobstreamx.LightClient.{Serves, Certified}
use blobstreamx.LightClient.History.{run-Certified}
use blobstreamx.Tests.ContractRuns.{access, client, client_none_above}
use blobstreamx.Tests.Prover.{gadgets, gadget_laws, tree, tree_laws, library, library_laws}

three_blocks : prove_data_commitment gadgets tree (library.hint 2) 1 2 10 5 13 8 ≡ some 8
unfolding prove_data_commitment map_stage prove_subchain reduce encode_data_root_tuple merkle_root
    be_bytes le_bytes of_be_bytes of_le_bytes
three_blocks = refl

prove_data_commitment-Chain_example :
    (hashes : List ℕ) × (length hashes ≡ 3)
    × (length hashes ≤ 4)
    × Chain gadgets 5 hashes 8
    × (8 ≡ merkle_root gadgets (tuples 10 hashes))
prove_data_commitment-Chain_example =
    prove_data_commitment-Chain gadgets gadget_laws tree tree_laws (library.hint 2) 1
      (library_laws.length-hint 2) 10 13 8 (omega arith) 1 5 8 (omega arith) (omega arith)
      three_blocks

-- The gateway's two functions are the circuits.
abbrev proving : Gateway
proving = record {
  verified_call = λ address id input.
      if id == 21
      then combined_skip library 4 1 2 input
      else if id == 22
      then combined_step library input
      else none;
  request_call = λ address r. true;
}

abbrev proved : Message
proved = record { sender = 3; value = 0; gateway = proving }

proved-Serves : Serves library 4 1 1 4 21 22 proved
proved-Serves = record {
  header_range_lem = λ input output e. e;
  next_header_lem = λ input output e. e;
}

abbrev proofs : List (Call × Message)
proofs =
    (requests_header_range 13, proved)
    ∷ (commits_header_range 13, proved)
    ∷ (commits_next_header 13, proved)
    ∷ []

run-proofs :
    (run access proofs client).1
    ≡ Event.header_range_requested 10 5 13
      ∷ head_update 13 8
      ∷ data_commitment_stored 1 10 13 8
      ∷ head_update 14 9
      ∷ data_commitment_stored 2 13 14 4
      ∷ []
unfolding run exec request_header_range commit_header_range commit_next_header decode_result
    encode_header_range_input encode_next_header_input combined_skip combined_step
    prove_data_commitment prove_next_header_data_commitment map_stage prove_subchain reduce
    encode_data_root_tuple merkle_root be_bytes le_bytes of_be_bytes of_le_bytes
run-proofs = refl

run-Certified_example : Certified gadgets 5 (run access proofs client).1 (
    (run access proofs client).0.block_height_to_header_hash
      (run access proofs client).0.latest_block)
run-Certified_example =
    run-Certified library library_laws 4 1 1 access proofs client (omega arith)
      (refl, refl, proved-Serves, (refl, refl, proved-Serves, (refl, refl, proved-Serves, tt)))
      client_none_above (omega arith)

abbrev proved_output : Bytes
proved_output = be_bytes 32 8 ++ be_bytes 32 8

skip_output : combined_skip library 4 1 2 (encode_header_range_input 10 5 13) ≡ some proved_output
unfolding encode_header_range_input combined_skip prove_data_commitment map_stage prove_subchain
    reduce encode_data_root_tuple merkle_root be_bytes le_bytes of_be_bytes of_le_bytes
skip_output = refl

combined_skip-Proven_example : Proven gadgets 10 13 5 proved_output
combined_skip-Proven_example =
    combined_skip-Proven library library_laws 4 1 1 10 5 13 proved_output (omega arith)
      (omega arith) (omega arith) (omega arith) skip_output

abbrev step_output : Bytes
step_output = be_bytes 32 6 ++ be_bytes 32 4

step_proved : combined_step library (encode_next_header_input 10 5) ≡ some step_output
unfolding encode_next_header_input combined_step prove_next_header_data_commitment
    encode_data_root_tuple be_bytes le_bytes of_be_bytes of_le_bytes
step_proved = refl

combined_step-Proven_example : Proven gadgets 10 11 5 step_output
combined_step-Proven_example =
    combined_step-Proven library library_laws 10 5 step_output (omega arith) (omega arith)
      step_proved
