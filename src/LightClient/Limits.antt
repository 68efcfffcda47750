-- ===== src/LightClient/Limits.antt =====
-- Requests to contracts/src/BlobstreamX.sol that the programs bin/header_range_1024.rs,
-- bin/header_range_2048.rs and bin/header_range_mocha.rs cannot answer.
use blobstreamx.Base.{
  ℕ, ◌+◌, ◌^◌, ◌≡◌, ◌<◌, false, Option, none, some, [], ◌∷◌, arith, inl, inr, Option-cases,
}
use blobstreamx.Base.Bytes.{Bytes}
use blobstreamx.Circuits.Programs.{Library, LibraryLaws}
use blobstreamx.Circuits.Entrypoints.{Config, HeaderRange}
use blobstreamx.Circuits.Entrypoints.Range.{HeaderRange-within}
use blobstreamx.Contract.Abi.{encode_header_range_input}
use blobstreamx.Contract.Requests.{callback_call}
use blobstreamx.Contract.Transactions.{exec}
use blobstreamx.Contract.Types.{
  Storage, Message, ok, revert, Outcome, Upgradeable, Request, gateway_reverted,
}
use blobstreamx.Contract.{request_header_range, commit_header_range}

module _ {R : Type 0} where
  -- What an accepted request asks for, and its callback where the gateway has no answer.
  record Asked (u : Upgradeable R) (t : ℕ) (s : Storage R) (r : Request) : Type 0 where
    function : r.function_id ≡ s.header_range_function_id
    input :
        r.input
        ≡ encode_header_range_input s.latest_block (s.block_height_to_header_hash s.latest_block) t
    ahead : s.latest_block < t
    refused :
        (msg : Message)
        → s.frozen ≡ false
        → msg.gateway.verified_call s.gateway r.function_id r.input ≡ none
        → exec u (callback_call r.callback) msg s ≡ revert gateway_reverted

  request_header_range-Asked :
      (u : Upgradeable R) (t : ℕ) (msg : Message) (s : Storage R) (o : Outcome R) (r : Request)
      → request_header_range t msg s ≡ ok o
      → o.requests ≡ r ∷ []
      → Asked u t s r
  unfolding exec request_header_range commit_header_range
  request_header_range-Asked u t msg s o r e q = record {
    function = ground arith;
    input = ground arith;
    ahead = ground arith;
    refused = λ msg' f n. ground arith;
  }

  -- A header range request to an unfrozen contract, whose latest header has 256 bits, for a target of
  -- 64 bits more than `SKIP_MAX` blocks ahead: where the contract accepts it and the gateway answers
  -- its function and input only with outputs of one of the header range programs, its callback
  -- reverts, since the gateway has no answer.
  pub long_request_unanswered :
      (lib : Library) (laws : LibraryLaws lib) (c : Config) (program : Bytes → Option Bytes)
      → HeaderRange lib c program
      → (u : Upgradeable R) (t : ℕ) (msg msg' : Message) (s : Storage R) (o : Outcome R)
        (r : Request)
      → t < 2 ^ 64
      → s.block_height_to_header_hash s.latest_block < 2 ^ 256
      → s.frozen ≡ false
      → s.latest_block + c.skip_max < t
      → request_header_range t msg s ≡ ok o
      → o.requests ≡ r ∷ []
      → ((output : Bytes)
          → msg'.gateway.verified_call s.gateway r.function_id r.input ≡ some output
          → program r.input ≡ some output)
      → exec u (callback_call r.callback) msg' s ≡ revert gateway_reverted
  long_request_unanswered lib laws c program x u t msg msg' s o r w h f far e q serves =
      let a = request_header_range-Asked u t msg s o r e q in
      elim (Option-cases (msg'.gateway.verified_call s.gateway r.function_id r.input)) [
        | inl n ↦ a.refused msg' f n
        | inr (output, n) ↦
            let most =
              HeaderRange-within lib laws x s.latest_block
                (s.block_height_to_header_hash s.latest_block) t output w h a.ahead
                (rw a.input at (serves output n)) in
            absurd (omega arith)
      ]
