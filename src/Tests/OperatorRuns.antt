-- ===== src/Tests/OperatorRuns.antt =====
-- Rounds of the operator of bin/blobstreamx.rs against the contract of ContractRuns at block 10: the
-- chain's head is 40, and `find_block_to_request` finds the end of the range it is given.
use blobstreamx.Base.{ℕ, ◌≡◌, refl, ap, false, true, none, some, [], ◌∷◌, arith, Bool}
use blobstreamx.Contract.Requests.{callback_call}
use blobstreamx.Contract.Transactions.{exec}
use blobstreamx.Contract.{store_commit}
use blobstreamx.Operator.{
  Submission, Answers, panicked, idle, failed, requested, submission, header_range_submission,
  next_header_submission, request_next_header, request_header_range, request, block_to_request,
  round, rounds, run,
}
use blobstreamx.Operator.Targets.{Finds, Reaches, Asks, round-Asks}
use blobstreamx.Operator.Progress.{round_submits, round_is_stuck}
use blobstreamx.Operator.Requests.{Reads, round-fulfilled}
use blobstreamx.Tests.ContractRuns.{access, client, message}

abbrev answers : (latest_height : ℕ) (is_taken : Bool) → Answers
answers latest_height is_taken = record {
  next_header_function_id = some 22;
  header_range_function_id = some 21;
  latest_block = some 10;
  block_height_to_header_hash = λ h. some (client.block_height_to_header_hash h);
  latest_height = latest_height;
  find_block_to_request = λ start end. end;
  submit_request = λ s. is_taken;
  relay_proof = true;
}

answers-Finds : (h : ℕ) (b : Bool) → Finds (answers h b)
unfolding Finds
answers-Finds h b start end l = (l, omega arith)

-- From block 10 with a round length of 5, and at most 8 blocks, block 15 is asked for; when the head
-- is 12, nothing; and with at most 3 blocks, nothing whatever the head.
range_requested : round 5 8 (answers 40 true) ≡ requested (header_range_submission 10 5 15 21) true
unfolding round block_to_request request request_header_range
range_requested = refl

next_requested : round 11 8 (answers 40 false) ≡ failed (next_header_submission 10 5 22)
unfolding round block_to_request request request_next_header
next_requested = refl

nothing_requested : round 5 8 (answers 12 true) ≡ idle
unfolding round block_to_request request request_header_range request_next_header
nothing_requested = refl

-- The remainder by a block interval of zero ends the operator.
zero_interval : run 0 8 (some 1000) (answers 40 true ∷ answers 40 true ∷ []) ≡ panicked ∷ []
unfolding run rounds round block_to_request
zero_interval = refl

-- Nothing overflows and the contract's own maximum is only compared with zero.
own_maximum :
    run 10 20 (some 1) (answers 40 true ∷ [])
    ≡ requested (header_range_submission 10 5 30 21) true ∷ []
unfolding run rounds round block_to_request request request_header_range
own_maximum = refl

round-Asks_example :
    (t : ℕ) × (Reaches 8 (answers 40 true) 10 t
      × Asks (answers 40 true) 10 t (header_range_submission 10 5 15 21))
round-Asks_example =
    round-Asks 5 8 10 (answers 40 true) (header_range_submission 10 5 15 21) refl (omega arith)
      (omega arith) (answers-Finds 40 true) (ap submission range_requested)

round_submits_example : (s : Submission) × (submission (round 5 8 (answers 40 true)) ≡ some s)
round_submits_example =
    round_submits 5 8 10 22 21 5 (answers 40 true) refl refl refl refl (omega arith) (omega arith)
      (omega arith) (omega arith)

round_is_stuck_example : submission (round 15 4 (answers 40 true)) ≡ none
round_is_stuck_example =
    round_is_stuck 15 4 10 (answers 40 true) refl (omega arith) (omega arith) (omega arith)

client-Reads : Reads client (answers 40 true)
client-Reads = record { next_read = refl; range_read = refl; latest_read = refl; hash_read = refl }

round-fulfilled_example :
    (t : ℕ) × (Reaches 8 (answers 40 true) 10 t
      × (exec access
            (callback_call (header_range_submission 10 5 15 21).function_data)
            message
            client
          ≡ store_commit 10 t 7 9 client))
round-fulfilled_example =
    round-fulfilled access 5 8 7 9 (answers 40 true) client message
      (header_range_submission 10 5 15 21) client-Reads (answers-Finds 40 true) (omega arith)
      (omega arith) (omega arith) refl (ground arith) (omega arith) (omega arith)
      (ap submission range_requested) refl
