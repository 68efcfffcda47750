-- ===== src/Contract/Widths.antt =====
-- The words of contracts/src/BlobstreamX.sol keep the widths of their Solidity types.
use blobstreamx.Base.{ℕ, ◌+◌, ◌^◌, ◌≡◌, ◌<◌, refl, some, List, [], ◌∷◌, ◌++◌, drop, arith}
use blobstreamx.Base.Bytes.{Bytes, IsBytes, IsBytes-drop, of_be_bytes-lt}
use blobstreamx.Contract.Types.{
  Storage, Message, Result, ok, revert, Outcome, Event, Upgradeable, head_update,
  data_commitment_stored, next_header_requested, header_range_requested,
}
use blobstreamx.Contract.Abi.{decode_result}
use blobstreamx.Contract.{
  initialize, update_freeze, update_gateway, update_function_ids, update_genesis_state,
  request_header_range, request_next_header, store_commit,
}
use blobstreamx.Contract.Commits.{
  commit_header_range-Answered, commit_next_header-Answered, commit_next_header-lt,
}
use blobstreamx.Contract.Transactions.{
  Call, initializes, updates_freeze, updates_gateway, updates_function_ids, updates_genesis_state,
  requests_header_range, commits_header_range, requests_next_header, commits_next_header, exec, run,
  storage_after, logs_of,
}

-- The two words of a proof result have 256 bits.
decode_result-lt :
    (bs : Bytes) (header commitment : ℕ)
    → IsBytes bs
    → decode_result bs ≡ some (header, commitment)
    → (header < 2 ^ 256) × (commitment < 2 ^ 256)
unfolding decode_result
decode_result-lt bs header commitment h e =
    let a = of_be_bytes-lt 32 bs h in
    let b = of_be_bytes-lt 32 (drop 32 bs) (IsBytes-drop 32 bs h) in
    (ground (arith, a, b), ground (arith, a, b))

-- A log whose numbers fit their types.
abbrev pub Fits : Event → Type 0
Fits (head_update b h) = (b < 2 ^ 64) × (h < 2 ^ 256)
Fits (data_commitment_stored n a b c) = (n < 2 ^ 256) × (a < 2 ^ 64) × (b < 2 ^ 64) × (c < 2 ^ 256)
Fits (next_header_requested b h) = (b < 2 ^ 64) × (h < 2 ^ 256)
Fits (header_range_requested b h t) = (b < 2 ^ 64) × (h < 2 ^ 256) × (t < 2 ^ 64)

abbrev pub AllFit : List Event → Type 0
AllFit [] = Unit
AllFit (e ∷ es) = Fits e × AllFit es

AllFit-append : (es fs : List Event) → AllFit es → AllFit fs → AllFit (es ++ fs)
AllFit-append [] fs h k = k
AllFit-append (e ∷ es) fs h k = (h.0, AllFit-append es fs h.1 k)

-- The arguments of a call have their types: `initialize` takes a `uint64` height, and
-- `updateGenesisState` a `uint32` one.
abbrev pub IsTyped : Call → Type 0
IsTyped (initializes p) =
    (p.gateway < 2 ^ 160)
    × (p.height < 2 ^ 64)
    × (p.header < 2 ^ 256)
    × (p.header_range_function_id < 2 ^ 256)
    × (p.next_header_function_id < 2 ^ 256)
IsTyped (updates_freeze b) = Unit
IsTyped (updates_gateway a) = a < 2 ^ 160
IsTyped (updates_function_ids h n) = (h < 2 ^ 256) × (n < 2 ^ 256)
IsTyped (updates_genesis_state h x) = (h < 2 ^ 32) × (x < 2 ^ 256)
IsTyped (requests_header_range t) = t < 2 ^ 64
IsTyped (commits_header_range t) = t < 2 ^ 64
IsTyped requests_next_header = Unit
IsTyped (commits_next_header b) = b < 2 ^ 64

-- The gateway answers byte strings.
abbrev pub AnswersBytes : Message → Type 0
AnswersBytes msg =
    (address function_id : ℕ) (input output : Bytes)
    → msg.gateway.verified_call address function_id input ≡ some output
    → IsBytes output

abbrev pub AllTyped : List (Call × Message) → Type 0
AllTyped [] = Unit
AllTyped ((c, msg) ∷ cs) = IsTyped c × AnswersBytes msg × AllTyped cs

module _ {R : Type 0} where
  pub record InWidth (s : Storage R) : Type 0 where
    pub gateway-lt : s.gateway < 2 ^ 160
    pub latest_block-lt : s.latest_block < 2 ^ 64
    pub state_proof_nonce-lt : s.state_proof_nonce < 2 ^ 256
    pub header_range_function_id-lt : s.header_range_function_id < 2 ^ 256
    pub next_header_function_id-lt : s.next_header_function_id < 2 ^ 256
    pub header-lt : (h : ℕ) → s.block_height_to_header_hash h < 2 ^ 256
    pub commitment-lt : (n : ℕ) → s.state_data_commitments n < 2 ^ 256

  pub record Keeps (o : Outcome R) : Type 0 where
    pub storage : InWidth o.storage
    pub logs : AllFit o.logs

  store_commit-Keeps :
      (start end header commitment : ℕ) (s : Storage R) (o : Outcome R)
      → InWidth s
      → start < 2 ^ 64
      → end < 2 ^ 64
      → header < 2 ^ 256
      → commitment < 2 ^ 256
      → store_commit start end header commitment s ≡ ok o
      → Keeps o
  store_commit-Keeps start end header commitment s o w a b c d e = grind arith

  exec-Keeps :
      (u : Upgradeable R) (c : Call) (msg : Message) (s : Storage R) (o : Outcome R)
      → IsTyped c
      → AnswersBytes msg
      → InWidth s
      → exec u c msg s ≡ ok o
      → Keeps o
  unfolding exec initialize update_genesis_state update_freeze update_gateway update_function_ids
      request_header_range request_next_header
  exec-Keeps u (initializes p) msg s o t b w e = grind arith
  exec-Keeps u (updates_freeze f) msg s o t b w e = grind arith
  exec-Keeps u (updates_gateway a) msg s o t b w e = grind arith
  exec-Keeps u (updates_function_ids a b') msg s o t b w e = grind arith
  exec-Keeps u (updates_genesis_state h x) msg s o t b w e = grind arith
  exec-Keeps u (requests_header_range h) msg s o t b w e = grind arith
  exec-Keeps u requests_next_header msg s o t b w e = grind arith
  exec-Keeps u (commits_header_range h) msg s o t b w e =
      let a = commit_header_range-Answered h msg s o e in
      let (x, y) =
        decode_result-lt a.bytes a.header a.commitment (b _ _ _ a.bytes a.answered) a.decoded in
      store_commit-Keeps s.latest_block h a.header a.commitment s o w w.latest_block-lt t x y
        a.stored
  exec-Keeps u (commits_next_header h) msg s o t b w e =
      let a = commit_next_header-Answered h msg s o e in
      let (x, y) =
        decode_result-lt a.bytes a.header a.commitment (b _ _ _ a.bytes a.answered) a.decoded in
      store_commit-Keeps h (h + 1) a.header a.commitment s o w t (commit_next_header-lt h msg s o e)
        x y a.stored

  result-Keeps :
      (s : Storage R) (r : Result (Outcome R))
      → InWidth s
      → ((o : Outcome R) → r ≡ ok o → Keeps o)
      → InWidth (storage_after s r) × AllFit (logs_of r)
  result-Keeps s (ok o) w h = let x = h o refl in (x.storage, x.logs)
  result-Keeps s (revert e) w h = (w, tt)

  -- Over any history of calls whose arguments have their Solidity types, where the gateway answers
  -- byte strings: if the numbers in the storage fit their types at first, those in the storage
  -- afterwards and in all logs do.
  pub run-InWidth :
      (u : Upgradeable R) (cs : List (Call × Message)) (s : Storage R)
      → AllTyped cs
      → InWidth s
      → let (s', logs) = run u cs s in InWidth s' × AllFit logs
  unfolding run
  run-InWidth u [] s t w = (w, tt)
  run-InWidth u ((c, msg) ∷ cs) s (t, b, ts) w =
      let q = exec u c msg s in
      let (w', fit) = result-Keeps s q w (λ o e. exec-Keeps u c msg s o t b w e) in
      let (w'', rest) = run-InWidth u cs (storage_after s q) ts w' in
      (w'', AllFit-append (logs_of q) (run u cs (storage_after s q)).1 fit rest)
