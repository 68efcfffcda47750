-- ===== src/Operator.antt =====
-- The operator of bin/blobstreamx.rs, built for release, so that `u64` arithmetic wraps. What the
-- RPC clients answer in one round of its loop is an argument; `none` is an error that `unwrap` turns
-- into a panic.
pub mod Targets
pub mod Progress
pub mod Requests
use Prim.Native.Nat.{min}
use blobstreamx.Base.{
  ℕ, ◌+◌, ◌-◌, ◌%◌, ◌^◌, Bool, true, false, ◌&&◌, Option, none, some, List, [], ◌∷◌, ltb, leb, ◌==◌,
  if◌then◌else◌,
}
use blobstreamx.Base.Bytes.{Bytes}
use blobstreamx.Contract.Types.{Callback, commit_header_range_callback, commit_next_header_callback}
use blobstreamx.Contract.Abi.{encode_header_range_input, encode_next_header_input}

-- What `submit_request` is given: the call that the callback makes, the function and the input. The
-- chain and the contract's address are constants of the operator.
pub record Submission : Type 0 where
  pub function_data : Callback
  pub function_id : ℕ
  pub input : Bytes

-- The answers of one round: the contract's getters, the height of the latest signed header, and
-- `find_block_to_request`; and whether the prover takes the request and the relay succeeds.
pub record Answers : Type 0 where
  pub next_header_function_id : Option ℕ
  pub header_range_function_id : Option ℕ
  pub latest_block : Option ℕ
  pub block_height_to_header_hash : ℕ → Option ℕ
  pub latest_height : ℕ
  pub find_block_to_request : (start_block max_end_block : ℕ) → ℕ
  pub submit_request : Submission → Bool
  pub relay_proof : Bool

-- How a round ends: it sleeps with nothing requested, a request fails and the loop goes on at once,
-- or a request is made, perhaps relayed, and then it sleeps.
pub data Round : Type 0 where
  panicked idle : Round
  failed : Submission → Round
  requested : Submission → (relayed : Bool) → Round

-- What a round submitted, taken or not.
abbrev pub submission : Round → Option Submission
submission (failed s) = some s
submission (requested s relayed) = some s
submission r = none

infixl 5 ◌>>=◌
abbrev ◌>>=◌ : Option ℕ → (ℕ → Round) → Round
none >>= f = panicked
some a >>= f = f a

-- `u64` addition and subtraction.
abbrev pub add : ℕ → ℕ → ℕ
add a b = (a + b) % 2 ^ 64

abbrev pub sub : ℕ → ℕ → ℕ
sub a b = (a + (2 ^ 64 - b)) % 2 ^ 64

-- The request is submitted and, if it is taken, relayed.
abbrev pub submit : Answers → Submission → Round
submit w s = if w.submit_request s then requested s w.relay_proof else failed s

abbrev pub next_header_submission : (trusted_block trusted_header_hash function_id : ℕ) → Submission
next_header_submission trusted_block trusted_header_hash function_id = record {
  function_data = commit_next_header_callback trusted_block;
  function_id = function_id;
  input = encode_next_header_input trusted_block trusted_header_hash;
}

abbrev pub header_range_submission :
    (trusted_block trusted_header_hash target_block function_id : ℕ) → Submission
header_range_submission trusted_block trusted_header_hash target_block function_id = record {
  function_data = commit_header_range_callback target_block;
  function_id = function_id;
  input = encode_header_range_input trusted_block trusted_header_hash target_block;
}

unfoldable pub request_next_header : Answers → (trusted_block next_header_function_id : ℕ) → Round
request_next_header w trusted_block next_header_function_id = do
  trusted_header_hash ← w.block_height_to_header_hash trusted_block
  submit w (next_header_submission trusted_block trusted_header_hash next_header_function_id)

unfoldable pub request_header_range :
    Answers → (trusted_block target_block header_range_function_id : ℕ) → Round
request_header_range w trusted_block target_block header_range_function_id = do
  trusted_header_hash ← w.block_height_to_header_hash trusted_block
  submit w (
      header_range_submission trusted_block trusted_header_hash target_block
        header_range_function_id)

-- `max_block - (max_block % block_interval)`; the remainder by zero panics.
unfoldable pub block_to_request :
    (block_interval data_commitment_max latest_height current_block : ℕ) → Option ℕ
block_to_request block_interval data_commitment_max latest_height current_block =
    let max_block = min latest_height (add data_commitment_max current_block) in
    if block_interval == 0 then none else some (max_block - max_block % block_interval)

-- The next header is requested when the target is the next block, and a header range otherwise.
unfoldable pub request :
    Answers
    → (current_block target_block next_header_function_id header_range_function_id : ℕ) → Round
unfolding request_next_header request_header_range
request w current_block target_block next_header_function_id header_range_function_id =
    if sub target_block current_block == 1
    then request_next_header w current_block next_header_function_id
    else request_header_range w current_block target_block header_range_function_id

-- One round of the loop of `run`.
unfoldable pub round : (block_interval data_commitment_max : ℕ) → Answers → Round
unfolding block_to_request request
round block_interval data_commitment_max w = do
  next_header_function_id ← w.next_header_function_id
  header_range_function_id ← w.header_range_function_id
  current_block ← w.latest_block
  max_end_block ← block_to_request block_interval data_commitment_max w.latest_height current_block
  let latest_stable_block = sub w.latest_height 1
  let is_due = leb max_end_block latest_stable_block && ltb current_block max_end_block
  let target_block = w.find_block_to_request current_block max_end_block
  if is_due
      then request w current_block target_block next_header_function_id header_range_function_id
      else idle

-- `run`: a check of the contract's maximum, and then one round after another, up to a panic.
unfoldable pub rounds : (block_interval data_commitment_max : ℕ) → List Answers → List Round
unfolding round
rounds block_interval data_commitment_max [] = []
rounds block_interval data_commitment_max (w ∷ ws) =
    let rest = rounds block_interval data_commitment_max ws in
    elim (round block_interval data_commitment_max w) [ panicked ↦ panicked ∷ [] | r ↦ r ∷ rest ]

unfoldable pub run :
    (block_interval data_commitment_max : ℕ)
    → (header_range_max : Option ℕ) → List Answers
    → List Round
unfolding rounds
run block_interval data_commitment_max none ws = panicked ∷ []
run block_interval data_commitment_max (some header_range_max) ws =
    if header_range_max == 0 then panicked ∷ [] else rounds block_interval data_commitment_max ws
