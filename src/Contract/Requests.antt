-- ===== src/Contract/Requests.antt =====
-- A request of contracts/src/BlobstreamX.sol and the commit that answers it fit together.
use blobstreamx.Base.{ℕ, ◌≡◌, ◌<◌, ◌^◌, ◌++◌, false, some, [], ◌∷◌, arith}
use blobstreamx.Base.Bytes.{Bytes, be_bytes}
use blobstreamx.Contract.Types.{
  Storage, Message, ok, Outcome, Upgradeable, Request, Callback, commit_header_range_callback,
  commit_next_header_callback,
}
use blobstreamx.Contract.Abi.{decode_result-words}
use blobstreamx.Contract.Transactions.{Call, commits_header_range, commits_next_header, exec}
use blobstreamx.Contract.{request_header_range, commit_header_range, store_commit}

-- The call that the gateway makes back.
abbrev pub callback_call : Callback → Call
callback_call (commit_header_range_callback t) = commits_header_range t
callback_call (commit_next_header_callback b) = commits_next_header b

-- The answer of a circuit: the header and the data commitment as two words.
abbrev pub answer : (header commitment : ℕ) → Bytes
answer header commitment = be_bytes 32 header ++ (be_bytes 32 commitment ++ [])

module _ {R : Type 0} where
  -- A header range request that is accepted changes no storage and makes one request. If the
  -- gateway then answers that request's function and input with two words while the contract is
  -- not frozen, the callback of the request comes to storing them for the blocks from the latest up
  -- to the requested one.
  pub request_header_range-fulfilled :
      (u : Upgradeable R) (t header commitment : ℕ) (msg msg' : Message) (s : Storage R)
      (o : Outcome R) (r : Request)
      → header < 2 ^ 256
      → commitment < 2 ^ 256
      → s.frozen ≡ false
      → request_header_range t msg s ≡ ok o
      → o.requests ≡ r ∷ []
      → msg'.gateway.verified_call s.gateway r.function_id r.input ≡ some (answer header commitment)
      → (o.storage ≡ s)
        × (exec u (callback_call r.callback) msg' s
            ≡ store_commit s.latest_block t header commitment s)
  unfolding exec request_header_range commit_header_range
  request_header_range-fulfilled u t header commitment msg msg' s o r h c f e q a =
      (ground arith, ground (arith, decode_result-words header commitment [] h c))
