-- ===== src/Operator/Targets.antt =====
-- Which blocks the operator of bin/blobstreamx.rs asks for.
use Prim.Native.Nat.{min}
use blobstreamx.Base.{
  ℕ, ◌+◌, ◌-◌, ◌%◌, ◌≡◌, ◌≢◌, ◌<◌, ◌≤◌, ◌^◌, some, true, arith, inl, inr, Option-cases, ◌⊎◌,
}
use blobstreamx.Contract.Types.{Callback, commit_header_range_callback, commit_next_header_callback}
use blobstreamx.Operator.{
  Submission, Answers, add, submission, submit, next_header_submission, header_range_submission,
  requested, request_next_header, request_header_range, request, block_to_request, round,
}

-- The block up to which the call of a callback commits.
abbrev pub target : Callback → ℕ
target (commit_header_range_callback t) = t
target (commit_next_header_callback b) = b + 1

-- `find_block_to_request` looks for a block after `start` and at most at `end`.
unfoldable pub Finds : Answers → Type 0
Finds w =
    (start end : ℕ)
    → start < end
    → (start < w.find_block_to_request start end) × (w.find_block_to_request start end ≤ end)

-- `t` is after the current block, at most `m` blocks on, and below the head of the chain.
pub record Reaches (m : ℕ) (w : Answers) (current t : ℕ) : Type 0 where
  pub after : current < t
  pub within : t ≤ current + m
  pub stable : t < w.latest_height

-- `s` is the submission for the blocks from `current` up to `t`: a next header if that is one block,
-- and a header range otherwise, with the function and the trusted header that the contract gave.
pub record Asks (w : Answers) (current t : ℕ) (s : Submission) : Type 0 where
  pub next_id : ℕ
  pub range_id : ℕ
  pub trusted : ℕ
  pub next_known : w.next_header_function_id ≡ some next_id
  pub range_known : w.header_range_function_id ≡ some range_id
  pub hash_known : w.block_height_to_header_hash current ≡ some trusted
  pub asked :
      ((t ≡ current + 1) × (next_header_submission current trusted next_id ≡ s))
      ⊎ ((t ≢ current + 1) × (header_range_submission current trusted t range_id ≡ s))

submission-submit : (w : Answers) (a s : Submission) → submission (submit w a) ≡ some s → a ≡ s
submission-submit w a s e = ground arith

submission-request :
    (current t n r : ℕ) (w : Answers) (s : Submission)
    → w.next_header_function_id ≡ some n
    → w.header_range_function_id ≡ some r
    → current < t
    → t < 2 ^ 64
    → submission (request w current t n r) ≡ some s
    → Asks w current t s
unfolding request request_next_header request_header_range
submission-request current t n r w s p q l b e =
    elim (Option-cases (w.block_height_to_header_hash current)) [
      | inl a ↦ absurd (ground arith)
      | inr (x, a) ↦ record {
        next_id = n;
        range_id = r;
        trusted = x;
        next_known = p;
        range_known = q;
        hash_known = a;
        asked = ground arith;
      }
    ]

-- The closest multiple of `i` at most at the head of the chain and at most `m` blocks on.
abbrev pub closest : (i m latest_height current : ℕ) → ℕ
closest i m latest_height current =
    let max_block = min latest_height (current + m) in max_block - max_block % i

-- The test of the source for a request.
pub record Due (i m current : ℕ) (w : Answers) : Type 0 where
  pub stable : closest i m w.latest_height current < w.latest_height
  pub ahead : current < closest i m w.latest_height current

-- A round that submits was due, and it made the request up to the block that was found.
pub record Sent (i m current : ℕ) (w : Answers) (s : Submission) : Type 0 where
  pub next_id : ℕ
  pub range_id : ℕ
  pub next_known : w.next_header_function_id ≡ some next_id
  pub range_known : w.header_range_function_id ≡ some range_id
  pub due : Due i m current w
  pub sent :
      submission (
        request w current
          (w.find_block_to_request current (closest i m w.latest_height current))
          next_id
          range_id)
      ≡ some s

pub round-Sent :
    (i m current : ℕ) (w : Answers) (s : Submission)
    → w.latest_block ≡ some current
    → current + m < 2 ^ 64
    → w.latest_height < 2 ^ 64
    → submission (round i m w) ≡ some s
    → Sent i m current w s
unfolding round block_to_request
round-Sent i m current w s c o h e =
    let a : add m current ≡ current + m = ground arith in
    elim (Option-cases w.next_header_function_id) [
      | inl q ↦ absurd (ground arith)
      | inr (n, q) ↦ elim (Option-cases w.header_range_function_id) [
        | inl q' ↦ absurd (ground arith)
        | inr (r, q') ↦ record {
          next_id = n;
          range_id = r;
          next_known = q;
          range_known = q';
          due = record { stable = ground (arith, a); ahead = ground (arith, a) };
          sent = ground (arith, a);
        }
      ]
    ]

-- A request that is taken is then relayed or not.
pub round-requested :
    (i m : ℕ) (w : Answers) (s : Submission)
    → w.submit_request s ≡ true
    → submission (round i m w) ≡ some s
    → round i m w ≡ requested s w.relay_proof
unfolding round block_to_request request request_next_header request_header_range
round-requested i m w s t e = ground arith

-- A round that submits makes the request up to the block that was found.
pub round-Found :
    (i m current : ℕ) (w : Answers) (s : Submission)
    → w.latest_block ≡ some current
    → current + m < 2 ^ 64
    → w.latest_height < 2 ^ 64
    → Finds w
    → submission (round i m w) ≡ some s
    → (end : ℕ) × (current < end)
      × (end < w.latest_height)
      × Reaches m w current (w.find_block_to_request current end)
      × Asks w current (w.find_block_to_request current end) s
unfolding Finds
round-Found i m current w s c o h f e =
    let d = round-Sent i m current w s c o h e in
    let end = closest i m w.latest_height current in
    let t = w.find_block_to_request current end in
    let g = f current end d.due.ahead in
    (
      end,
      d.due.ahead,
      d.due.stable,
      record {
        after = g.0;
        within = ground (arith, g, d.due.stable);
        stable = ground (arith, g, d.due.stable);
      },
      submission-request current t d.next_id d.range_id w s d.next_known d.range_known g.0
          (ground (arith, g, d.due.stable)) d.sent,
    )

-- A round that submits asks for the blocks from the current one up to a block after it, within
-- `DATA_COMMITMENT_MAX` blocks and below the head of the chain, with the function that the contract
-- gave and the header it trusts: a next header for one block, a header range for more. This holds
-- where `find_block_to_request` finds a block in the range it is given and nothing overflows.
pub round-Asks :
    (i m current : ℕ) (w : Answers) (s : Submission)
    → w.latest_block ≡ some current
    → current + m < 2 ^ 64
    → w.latest_height < 2 ^ 64
    → Finds w
    → submission (round i m w) ≡ some s
    → (t : ℕ) × (Reaches m w current t × Asks w current t s)
round-Asks i m current w s c o h f e =
    let (end, x, y, reach, asks) = round-Found i m current w s c o h f e in
    (w.find_block_to_request current end, (reach, asks))
