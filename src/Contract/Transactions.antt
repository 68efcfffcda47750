-- ===== src/Contract/Transactions.antt =====
-- The external functions of contracts/src/BlobstreamX.sol as calls, and a history of them: a call
-- that reverts leaves the storage as it was and no log.
use blobstreamx.Base.{ℕ, Bool, List, [], ◌∷◌, ◌++◌}
use blobstreamx.Contract.Types.{
  InitParameters, Storage, Event, Upgradeable, Message, Result, ok, revert, Outcome,
}
use blobstreamx.Contract.{
  initialize, update_freeze, update_gateway, update_function_ids, update_genesis_state,
  request_header_range, request_next_header, commit_header_range, commit_next_header,
}

-- The functions that change state, with their arguments.
pub data Call : Type 0 where
  initializes : InitParameters → Call
  updates_freeze : Bool → Call
  updates_gateway : ℕ → Call
  updates_function_ids : (header_range next_header : ℕ) → Call
  updates_genesis_state : (height header : ℕ) → Call
  requests_header_range commits_header_range : (target_block : ℕ) → Call
  requests_next_header : Call
  commits_next_header : (trusted_block : ℕ) → Call

module _ {R : Type 0} where
  unfoldable pub exec : Upgradeable R → Call → Message → Storage R → Result (Outcome R)
  exec u (initializes p) msg s = initialize u p s
  exec u (updates_freeze b) msg s = update_freeze u b msg s
  exec u (updates_gateway a) msg s = update_gateway u a msg s
  exec u (updates_function_ids h n) msg s = update_function_ids u h n msg s
  exec u (updates_genesis_state h x) msg s = update_genesis_state u h x msg s
  exec u (requests_header_range t) msg s = request_header_range t msg s
  exec u (commits_header_range t) msg s = commit_header_range t msg s
  exec u requests_next_header msg s = request_next_header msg s
  exec u (commits_next_header t) msg s = commit_next_header t msg s

  abbrev pub storage_after : Storage R → Result (Outcome R) → Storage R
  storage_after s (ok o) = o.storage
  storage_after s (revert e) = s

  abbrev pub logs_of : Result (Outcome R) → List Event
  logs_of (ok o) = o.logs
  logs_of (revert e) = []

  -- The storage after a history, and the logs in the order of their emission.
  unfoldable pub run : Upgradeable R → List (Call × Message) → Storage R → Storage R × List Event
  run u [] s = (s, [])
  run u ((c, msg) ∷ cs) s =
      let r = exec u c msg s in
      let (s', logs) = run u cs (storage_after s r) in (s', logs_of r ++ logs)
