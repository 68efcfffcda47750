-- ===== src/Contract/Rollback.antt =====
-- What `updateGenesisState` of contracts/src/BlobstreamX.sol leaves open: headers above the new
-- latest block stay stored, and `commitNextHeader` trusts them.
use blobstreamx.Base.{ℕ, ◌≡◌, ◌≢◌, ◌<◌, ◌+◌, ◌^◌, false, some, [], arith}
use blobstreamx.Contract.Types.{Storage, Message, ok, Outcome, Upgradeable}
use blobstreamx.Contract.Abi.{encode_next_header_input, decode_result-words}
use blobstreamx.Contract.Requests.{answer}
use blobstreamx.Contract.{commit_next_header, store_commit, update_genesis_state}

module _ {R : Type 0} where
  -- After the guardian has set the genesis state to a height below a block `b` whose header is
  -- still stored, the latest block is that height, and yet a next header commit for `b` comes to
  -- storing, on an unfrozen contract whose gateway answers with two words, a data commitment that
  -- starts at `b` and not at the latest block.
  pub rollback_leaves_gap :
      (u : Upgradeable R) (height genesis_header b header commitment : ℕ) (msg msg' : Message)
      (s : Storage R) (o : Outcome R)
      → update_genesis_state u height genesis_header msg s ≡ ok o
      → height < b
      → s.block_height_to_header_hash b ≢ 0
      → s.frozen ≡ false
      → b + 1 < 2 ^ 64
      → header < 2 ^ 256
      → commitment < 2 ^ 256
      → msg'.gateway.verified_call s.gateway s.next_header_function_id
          (encode_next_header_input b (s.block_height_to_header_hash b))
        ≡ some (answer header commitment)
      → (o.storage.latest_block ≡ height)
        × (commit_next_header b msg' o.storage ≡ store_commit b (b + 1) header commitment o.storage)
  unfolding update_genesis_state commit_next_header
  rollback_leaves_gap u height genesis_header b header commitment msg msg' s o e l n f w h c q =
      (ground arith, ground (arith, decode_result-words header commitment [] h c))
