-- ===== src/Tests/DeployRuns.antt =====
-- A deployment by contracts/script/Deploy.s.sol at block 10 of a chain whose header at the height
-- `h` has the hash `h + 7`, with two of the updates switched on.
use blobstreamx.Base.{ℕ, ◌+◌, ◌≡◌, refl, true, false, none, some, arith}
use blobstreamx.Contract.Types.{Storage, Message}
use blobstreamx.Deploy.{Environment, run}
use blobstreamx.System.{Follows}
use blobstreamx.System.Deployed.{run-Follows}
use blobstreamx.Tests.ContractRuns.{access, client, gateway}

abbrev hash : ℕ → ℕ
hash h = h + 7

abbrev environment : Environment
environment = record {
  deploy = some true;
  upgrade = none;
  update_gateway = some true;
  update_genesis_state = some false;
  update_function_ids = some true;
  gateway_address = some 4;
  guardian_address = some 3;
  genesis_height = some 10;
  genesis_header = some 17;
  header_range_function_id = some 21;
  next_header_function_id = some 22;
}

abbrev message : Message
message = record { sender = 3; value = 0; gateway = gateway }

-- A new proxy, in whose storage everything is zero.
abbrev fresh : Storage ℕ
fresh = record {
  access = 0;
  gateway = 0;
  latest_block = 0;
  state_proof_nonce = 0;
  block_height_to_header_hash = λ h. 0;
  state_data_commitments = λ n. 0;
  header_range_function_id = 0;
  next_header_function_id = 0;
  frozen = false;
}

run-Follows_example :
    (s : Storage ℕ) × (run access message environment (λ s. none) fresh client ≡ some s)
    × Follows hash 19 4 21 22 s
    × (s.latest_block ≡ 10)
    × (s.state_proof_nonce ≡ 1)
run-Follows_example =
    run-Follows access message environment hash 19 4 3 10 21 22 refl refl refl refl refl refl
      (omega arith) (omega arith) (omega arith) (λ s. none) fresh client 3 true false true refl refl
      refl refl refl refl
