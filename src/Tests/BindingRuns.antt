-- ===== src/Tests/BindingRuns.antt =====
-- Runs of the methods and constructors of bindings/BlobstreamX.go over the simulated contract at
-- block 10.
use blobstreamx.Base.{ℕ, ◌≡◌, refl, true, String, List, none, some, [], ◌∷◌, arith}
use blobstreamx.Base.Int.{pos}
use blobstreamx.Bindings.Values
use blobstreamx.Bindings.Values.{Value, uint64, bytes32, new_uint64, as_uint64, returned, panicked}
use blobstreamx.Bindings.Instance.{
  BlobstreamX, BlobstreamXSession, BlobstreamXRaw, OrError, whole, new_blobstreamx,
}
use blobstreamx.Bindings.Raw.{raw_transact}
use blobstreamx.Bindings.Session
use blobstreamx.Contract.Types.{Storage, Outcome, ok}
use blobstreamx.Contract.Transactions.{
  exec, commits_next_header, requests_header_range, requests_next_header, updates_gateway,
  initializes,
}
use blobstreamx.Onchain.Dispatch.{parameters}
use blobstreamx.Onchain.Reads.{session_reads}
use blobstreamx.Onchain.Instances.{new_blobstreamx_session}
use blobstreamx.Onchain.Writes.{Performs, session_writes}
use blobstreamx.Onchain.Stale.{Fails, commit_header_range_unreachable, removed_functions}
use blobstreamx.Base.Bytes.{be_bytes, le_bytes, of_be_bytes, of_le_bytes}
use blobstreamx.Contract.{commit_next_header, verify_attestation}
use blobstreamx.Contract.Abi.{decode_result}
use blobstreamx.Contract.Commits.{Commits}
use blobstreamx.Onchain.Committed.{commit_next_header_shows}
use blobstreamx.Onchain.Attested.{go_tuple, go_proof, session_verify_attestation}
use blobstreamx.Tests.ContractRuns.{
  access, client, message, knows_nine, tuple, proof, committed, stepped,
}
use blobstreamx.Tests.Simulated.{simulated, deployed}

abbrev session : BlobstreamXSession simulated
session = record { contract = whole simulated (some 8); call_opts = tt; transact_opts = tt }

abbrev raw : BlobstreamXRaw simulated
raw = record { contract = whole simulated (some 8) }

session_reads_example :
    (Session.latest_block simulated session client ≡ returned (10, none))
    × (Session.state_proof_nonce simulated session client ≡ returned (some (pos 1), none))
    × (Session.block_height_to_header_hash simulated session 10 client ≡ returned (5, none))
    × (Session.state_data_commitments simulated session (pos 3) client ≡ returned (0, none))
    × (Session.gateway simulated session client ≡ returned (4, none))
    × (Session.header_range_function_id simulated session client ≡ returned (21, none))
    × (Session.next_header_function_id simulated session client ≡ returned (22, none))
    × (Session.data_commitment_max simulated session client ≡ returned (10000, none))
    × (Session.version simulated session client ≡ returned ("0.1.0", none))
session_reads_example =
    session_reads simulated access knows_nine 8 deployed session client 10 3 refl (omega arith)

abbrev init : Values.InitParameters
init = record {
  guardian = 3;
  gateway = 4;
  height = 9;
  header = 5;
  next_header_function_id = 22;
  header_range_function_id = 21;
}

session_writes_example :
    Performs simulated access knows_nine 8 deployed tt client client
      (commits_next_header 10)
      (Session.commit_next_header simulated session 10 client)
    × Performs simulated access knows_nine 8 deployed tt client client
        (requests_header_range 10)
        (Session.request_header_range simulated session 10 client)
    × Performs simulated access knows_nine 8 deployed tt client client requests_next_header
        (Session.request_next_header simulated session client)
    × Performs simulated access knows_nine 8 deployed tt client client
        (updates_gateway 6)
        (Session.update_gateway simulated session 6 client)
    × Performs simulated access knows_nine 8 deployed tt client client
        (initializes (parameters init))
        (Session.initialize simulated session init client)
session_writes_example =
    session_writes simulated access knows_nine 8 deployed session client client 10 6 init refl

commit_header_range_unreachable_example :
    (q : OrError simulated (String × List Value) × Storage ℕ) × (raw_transact simulated raw tt
        "commitHeaderRange"
        (uint64 10 ∷ uint64 12 ∷ [])
        client
      ≡ returned q)
    × (q.1 ≡ client)
    × Fails simulated access knows_nine 8 deployed client q.0.0
commit_header_range_unreachable_example =
    commit_header_range_unreachable simulated access knows_nine 8 deployed raw tt
      (uint64 10 ∷ uint64 12 ∷ []) client client refl

removed_functions_example :
    (e : String) × (q r : OrError simulated (String × List Value) × Storage ℕ)
    × (Session.get_header_hash simulated session 10 client ≡ returned (0, some e))
    × (Session.update_header_range_id simulated session 30 client ≡ returned q)
    × (q.1 ≡ client)
    × Fails simulated access knows_nine 8 deployed client q.0.0
    × (Session.update_next_header_id simulated session 30 client ≡ returned r)
    × (r.1 ≡ client)
    × Fails simulated access knows_nine 8 deployed client r.0.0
removed_functions_example =
    removed_functions simulated access knows_nine 8 deployed session 10 30 client client refl refl

abbrev session_of : BlobstreamX simulated → BlobstreamXSession simulated
session_of b = record { contract = b; call_opts = tt; transact_opts = tt }

new_blobstreamx_session_example :
    (b : BlobstreamX simulated) × (new_blobstreamx simulated "abi" "bin" 8 (tt, tt, tt)
      ≡ returned (some b, none))
    × ((Session.latest_block simulated (session_of b) client ≡ returned (10, none))
        × (Session.state_data_commitments simulated (session_of b) (pos 3) client
            ≡ returned (0, none))
        × Performs simulated access knows_nine 8 deployed tt client client
            (commits_next_header 10)
            (Session.commit_next_header simulated (session_of b) 10 client))
new_blobstreamx_session_example =
    new_blobstreamx_session simulated "abi" "bin" access knows_nine 8 tt tt tt tt deployed tt tt
      client client 10 3 refl (omega arith)

session_verify_attestation_example :
    Session.verify_attestation simulated session
      (pos 1)
      (go_tuple tuple)
      (go_proof proof)
      committed.storage
    ≡ returned (true, none)
unfolding verify_attestation
session_verify_attestation_example =
    session_verify_attestation simulated access knows_nine 8 deployed session committed.storage 1
      tuple proof refl (omega arith) (omega arith) (omega arith) (omega arith)

commit_next_header_shows_example :
    (o : Outcome ℕ) × (commit_next_header 10 message client ≡ ok o)
    × (c : Commits client 10 11 o) × (Session.latest_block simulated session stepped.storage
        ≡ returned (11, none))
    × (Session.block_height_to_header_hash simulated session 11 stepped.storage
        ≡ returned (c.header, none))
    × (Session.state_data_commitments simulated session (pos 1) stepped.storage
        ≡ returned (c.commitment, none))
unfolding Session.commit_next_header exec commit_next_header decode_result be_bytes le_bytes
    of_be_bytes of_le_bytes
commit_next_header_shows_example =
    commit_next_header_shows simulated access knows_nine 8 deployed session client client client
      stepped.storage ("commitNextHeader", uint64 10 ∷ []) 10 refl refl refl refl refl (omega arith)
