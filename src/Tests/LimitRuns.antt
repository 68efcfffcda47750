-- ===== src/Tests/LimitRuns.antt =====
-- A request to the contract of ContractRuns for more blocks than bin/header_range_1024.rs proves.
use blobstreamx.Base.{ℕ, ◌≡◌, refl, true, none, [], ◌∷◌, ◌==◌, if◌then◌else◌, arith}
use blobstreamx.Circuits.Entrypoints.{
  celestia_blobstreamx_config_1024, header_range_1024, celestia_1024,
}
use blobstreamx.Contract.Abi.{encode_header_range_input}
use blobstreamx.Contract.Transactions.{commits_header_range, exec}
use blobstreamx.Contract.Types.{
  Message, Request, Outcome, ok, revert, header_range_requested, commit_header_range_callback,
  gateway_reverted,
}
use blobstreamx.Contract.{request_header_range}
use blobstreamx.LightClient.Limits.{long_request_unanswered}
use blobstreamx.Tests.ContractRuns.{access, client}
use blobstreamx.Tests.Prover.{library, library_laws}

abbrev message : Message
message = record {
  sender = 3;
  value = 0;
  gateway = record {
    verified_call = λ address id input. if id == 21 then header_range_1024 library input else none;
    request_call = λ address r. true;
  };
}

abbrev asked : Request
asked = record {
  value = 0;
  function_id = 21;
  input = encode_header_range_input 10 5 2000;
  callback = commit_header_range_callback 2000;
  gas_limit = 500000;
}

abbrev accepted : Outcome ℕ
accepted = record {
  storage = client;
  logs = header_range_requested 10 5 2000 ∷ [];
  requests = asked ∷ [];
}

taken : request_header_range 2000 message client ≡ ok accepted
unfolding request_header_range
taken = refl

long_request_unanswered_example :
    exec access (commits_header_range 2000) message client ≡ revert gateway_reverted
long_request_unanswered_example =
    long_request_unanswered library library_laws celestia_blobstreamx_config_1024
      (header_range_1024 library) celestia_1024 access 2000 message message client accepted asked
      (omega arith) (omega arith) refl (omega arith) taken refl (λ output e. e)
