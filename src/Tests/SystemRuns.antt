-- ===== src/Tests/SystemRuns.antt =====
-- Turns of the whole system: the contract of ContractRuns at block 10 of a chain whose header at the
-- height `h` has the hash `h + 7`, with the head at 19 and circuits of two batches of two blocks.
use blobstreamx.Base.{
  ℕ, ◌+◌, ◌%◌, ◌^◌, ◌≡◌, ◌≤◌, ◌<◌, refl, true, none, some, arith, ◌==◌, if◌then◌else◌, length,
  update, inl, inr, Option-cases,
}
use blobstreamx.Circuits.{DataCommitmentProof}
use blobstreamx.Circuits.Programs.{Library, LibraryLaws, combined_skip, combined_step}
use blobstreamx.Contract.Types.{Storage, Message}
use blobstreamx.Inputs.{Source, hint, replicate, zero_proof}
use blobstreamx.Inputs.Shape.{hint-IsFull, length-replicate}
use blobstreamx.Operator.{Answers}
use blobstreamx.Operator.Targets.{Finds}
use blobstreamx.System.{turns, Provisioned, Works, Follows, Committed}
use blobstreamx.System.Progress.{turns_catch_up}
use blobstreamx.Tests.ContractRuns.{access, client}
use blobstreamx.Tests.Headers.{leaf, data_hash, source as headers_source, source-Knows}
use blobstreamx.Tests.Prover.{library as past_library, library_laws as past_laws}

abbrev hash : ℕ → ℕ
hash h = h + 7

abbrev source : Source ℕ
source = headers_source hash

-- The fetcher's hint; zeros where it panics or the blocks have more than 64 bits.
abbrev blank : ℕ → DataCommitmentProof
blank n = record {
  start_header = 0;
  end_header = 0;
  data_hash_proofs = replicate n (zero_proof 34);
  last_block_id_proofs = replicate n (zero_proof 72);
}

abbrev hints : ℕ → ℕ → ℕ → DataCommitmentProof
hints n s e = elim (hint source n s e) [
  | none ↦ blank n
  | some p ↦ if length p.data_hash_proofs == n then p else blank n
]

length-hints : (n s e : ℕ) → length (hints n s e).data_hash_proofs ≡ n
length-hints n s e =
    let z = length-replicate n (zero_proof 34) in
    elim (Option-cases (hint source n s e)) [
      | inl x ↦ ground (arith, z)
      | inr (p, x) ↦ ground (arith, z)
    ]

hints-eq :
    (n s e : ℕ) (p : DataCommitmentProof)
    → s < 2 ^ 64
    → e < 2 ^ 64
    → hint source n s e ≡ some p
    → hints n s e ≡ p
hints-eq n s e p l m q = let (x, y) = hint-IsFull source n s e p l m q in ground (arith, x)

abbrev library : Library
library = record past_library { skip = λ m b h t. some (hash t % 2 ^ 256); hint = hints }

skip-lt : (t h : ℕ) → some (hash t % 2 ^ 256) ≡ some h → h < 2 ^ 256
skip-lt t h e = ground arith

library_laws : LibraryLaws library
library_laws = record {
  gadget_laws = past_laws.gadget_laws;
  mapreduce_laws = past_laws.mapreduce_laws;
  evm_read_u64_lem = past_laws.evm_read_u64_lem;
  evm_read_bytes32_lem = past_laws.evm_read_bytes32_lem;
  evm_write_bytes32_lem = past_laws.evm_write_bytes32_lem;
  sha256-lt = past_laws.sha256-lt;
  leaf_hash-lt = past_laws.leaf_hash-lt;
  step-lt = past_laws.step-lt;
  step_links = past_laws.step_links;
  skip-lt = λ m b h t x e. skip-lt t x e;
  length-hint = length-hints;
}

-- The gateway's two functions are the circuits.
abbrev message : Message
message = record {
  sender = 3;
  value = 0;
  gateway = record {
    verified_call = λ address id input.
        if id == 21
        then combined_skip library 4 1 2 input
        else if id == 22
        then combined_step library input
        else none;
    request_call = λ address r. true;
  };
}

abbrev observe : Storage ℕ → Answers
observe s = record {
  next_header_function_id = some s.next_header_function_id;
  header_range_function_id = some s.header_range_function_id;
  latest_block = some s.latest_block;
  block_height_to_header_hash = λ h. some (s.block_height_to_header_hash h);
  latest_height = 19;
  find_block_to_request = λ start end. end;
  submit_request = λ r. true;
  relay_proof = true;
}

observe-Finds : (s : Storage ℕ) → Finds (observe s)
unfolding Finds
observe-Finds s start end l = (l, omega arith)

skips : (t : ℕ) → t < 19 → some (hash t % 2 ^ 256) ≡ some (hash t)
skips t l = ground arith

steps : (t : ℕ) → t < 19 → library.step t (hash t) ≡ some (hash (t + 1))
steps t l = ground arith

works : Works library source hash 4 1 1 19 4 21 22 observe message
works = record {
  reads = λ s. record { next_read = refl; range_read = refl; latest_read = refl; hash_read = refl };
  finds = observe-Finds;
  at_head = λ s. refl;
  takes = λ s r. refl;
  relays = λ s. refl;
  skips = λ s start end l m. skips end m;
  steps = λ start l. steps start (omega arith);
  fetches = hints-eq;
  runs_skip = λ input. refl;
  runs_step = λ input. refl;
}

abbrev start : Storage ℕ
start = record client { block_height_to_header_hash = update (λ h. 0) 10 17 }

follows : Follows hash 19 4 21 22 start
follows = record {
  thawed = refl;
  gateway_kept = refl;
  range_kept = refl;
  next_kept = refl;
  positive = omega arith;
  below = omega arith;
  header = refl;
}

provisioned : Provisioned source hash 4 1 1 19
provisioned = record {
  jobs = omega arith;
  small = omega arith;
  blocks-lt = omega arith;
  ahead = omega arith;
  latest-lt = omega arith;
  hash-lt = λ h l. omega arith;
  hash_ne = λ h z l. omega arith;
}

abbrev later : Storage ℕ
later = turns access 2 4 observe message 5 start

turns_catch_up_example :
    Follows hash 19 4 21 22 later
    × (19 ≤ later.latest_block + 4)
    × Committed library.gadgets data_hash later.state_data_commitments start.state_proof_nonce 10
        later.state_proof_nonce later.latest_block
turns_catch_up_example =
    turns_catch_up library library_laws source hash leaf data_hash
      (source-Knows hash (λ h l. omega arith)) 4 1 1 19 provisioned works access 2 4 (omega arith)
      (omega arith) (omega arith) (omega arith) 5 start follows (omega arith) (omega arith)
