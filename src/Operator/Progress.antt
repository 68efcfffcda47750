-- ===== src/Operator/Progress.antt =====
-- When the operator of bin/blobstreamx.rs asks for blocks at all.
use Prim.Native.Nat.{min}
use native.Mathlib.Nat.{mod-add-mod, mod-eq_of_lt, mod-lt}
use blobstreamx.Base.{
  ℕ, ◌+◌, ◌-◌, ◌%◌, ◌≡◌, ◌<◌, ◌≤◌, ◌^◌, none, some, arith, inl, inr, Option-cases, sym, ◌∙◌,
}
use blobstreamx.Operator.{
  Submission, Answers, add, submission, request, request_next_header, request_header_range,
  block_to_request, round,
}
use blobstreamx.Operator.Targets.{closest, round-Sent}

closest-gt :
    (i m latest current : ℕ)
    → 0 < i
    → i ≤ m
    → current + m < latest
    → (closest i m latest current < latest) × (current < closest i m latest current)
closest-gt i m latest current z l g =
    let d : (current + m) % i < i = mod-lt (current + m) z in ground arith

closest-le : (i m latest current : ℕ) → current % i + m < i → closest i m latest current ≤ current
closest-le i m latest current l =
    let k = min latest (current + m) - current in
    let e : (current + k) % i ≡ current % i + k =
      sym (mod-add-mod current i k) ∙ mod-eq_of_lt (ground arith) in
    ground arith

-- When the block interval is positive and at most `DATA_COMMITMENT_MAX`, the head of the chain is
-- more than `DATA_COMMITMENT_MAX` blocks ahead and has 64 bits, and the contract's getters answer, a
-- round submits a request.
pub round_submits :
    (i m current n r x : ℕ) (w : Answers)
    → w.next_header_function_id ≡ some n
    → w.header_range_function_id ≡ some r
    → w.latest_block ≡ some current
    → w.block_height_to_header_hash current ≡ some x
    → 0 < i
    → i ≤ m
    → current + m < w.latest_height
    → w.latest_height < 2 ^ 64
    → (s : Submission) × (submission (round i m w) ≡ some s)
unfolding round block_to_request request request_next_header request_header_range
round_submits i m current n r x w p q c k z l g h =
    let a : add m current ≡ current + m = ground arith in
    let d = closest-gt i m w.latest_height current z l g in
    elim (Option-cases (submission (round i m w))) [
      | inl e ↦ absurd (ground (arith, a, d))
      | inr e ↦ e
    ]

-- When `DATA_COMMITMENT_MAX` is so small that it does not reach the next multiple of the block
-- interval, no round submits a request, whatever the head of the chain, as long as nothing overflows.
pub round_is_stuck :
    (i m current : ℕ) (w : Answers)
    → w.latest_block ≡ some current
    → current + m < 2 ^ 64
    → w.latest_height < 2 ^ 64
    → current % i + m < i
    → submission (round i m w) ≡ none
round_is_stuck i m current w c o h l =
    let b = closest-le i m w.latest_height current l in
    elim (Option-cases (submission (round i m w))) [
      | inl e ↦ e
      | inr (s, e) ↦
          let d = round-Sent i m current w s c o h e in absurd (ground (arith, d.due.ahead))
    ]
