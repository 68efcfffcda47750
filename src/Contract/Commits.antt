-- ===== src/Contract/Commits.antt =====
-- When a commit of contracts/src/BlobstreamX.sol succeeds, and what it then leaves behind.
use blobstreamx.Base.{
  ℕ, ◌+◌, ◌≡◌, ◌≢◌, ◌<◌, ◌≤◌, ◌^◌, ◌++◌, false, Option, some, arith, inl, inr, Option-cases,
}
use blobstreamx.Base.Bytes.{Bytes, be_bytes}
use blobstreamx.Contract.Types.{Storage, Message, ok, Outcome}
use blobstreamx.Contract.Abi.{
  encode_header_range_input, encode_next_header_input, decode_result, decode_result-words,
}
use blobstreamx.Contract.{commit_header_range, commit_next_header, store_commit}

module _ {R : Type 0} where
  -- The blocks from `start` up to `end` have been committed by `o`, on top of `s`.
  pub record Commits (s : Storage R) (start end : ℕ) (o : Outcome R) : Type 0 where
    pub header : ℕ
    pub commitment : ℕ
    pub stored : store_commit start end header commitment s ≡ ok o
    pub thawed : s.frozen ≡ false
    pub trusted : s.block_height_to_header_hash start ≢ 0
    pub forward : s.latest_block < end

  -- The gateway's answer to the verified call of a commit has been decoded and stored.
  pub record Answered (answer : Option Bytes) (s : Storage R) (start end : ℕ) (o : Outcome R)
      : Type 0 where
    pub bytes : Bytes
    pub header : ℕ
    pub commitment : ℕ
    pub answered : answer ≡ some bytes
    pub decoded : decode_result bytes ≡ some (header, commitment)
    pub stored : store_commit start end header commitment s ≡ ok o

  pub commit_header_range-Answered :
      (t : ℕ) (msg : Message) (s : Storage R) (o : Outcome R)
      → commit_header_range t msg s ≡ ok o
      → Answered
          (msg.gateway.verified_call s.gateway s.header_range_function_id (
            encode_header_range_input s.latest_block
              (s.block_height_to_header_hash s.latest_block)
              t))
          s
          s.latest_block
          t
          o
  unfolding commit_header_range
  commit_header_range-Answered t msg s o e =
      let input =
        encode_header_range_input s.latest_block (s.block_height_to_header_hash s.latest_block) t in
      elim (Option-cases (msg.gateway.verified_call s.gateway s.header_range_function_id input)) [
        | inl q ↦ absurd (ground arith)
        | inr (bytes, q) ↦ elim (Option-cases (decode_result bytes)) [
          | inl d ↦ absurd (ground arith)
          | inr ((h, c), d) ↦ record {
            bytes = bytes;
            header = h;
            commitment = c;
            answered = q;
            decoded = d;
            stored = ground arith;
          }
        ]
      ]

  pub commit_next_header-Answered :
      (b : ℕ) (msg : Message) (s : Storage R) (o : Outcome R)
      → commit_next_header b msg s ≡ ok o
      → Answered
          (msg.gateway.verified_call s.gateway s.next_header_function_id
            (encode_next_header_input b (s.block_height_to_header_hash b)))
          s
          b
          (b + 1)
          o
  unfolding commit_next_header
  commit_next_header-Answered b msg s o e =
      let input = encode_next_header_input b (s.block_height_to_header_hash b) in
      elim (Option-cases (msg.gateway.verified_call s.gateway s.next_header_function_id input)) [
        | inl q ↦ absurd (ground arith)
        | inr (bytes, q) ↦ elim (Option-cases (decode_result bytes)) [
          | inl d ↦ absurd (ground arith)
          | inr ((h, c), d) ↦ record {
            bytes = bytes;
            header = h;
            commitment = c;
            answered = q;
            decoded = d;
            stored = ground arith;
          }
        ]
      ]

  -- A header range commit that succeeds was made on an unfrozen contract with a header for the
  -- latest block, moves 1 to 10000 blocks ahead, and is a commit from the latest block to the target.
  pub commit_header_range-Commits :
      (t : ℕ) (msg : Message) (s : Storage R) (o : Outcome R)
      → commit_header_range t msg s ≡ ok o
      → Commits s s.latest_block t o × (t ≤ s.latest_block + 10000)
  unfolding commit_header_range
  commit_header_range-Commits t msg s o e =
      let a = commit_header_range-Answered t msg s o e in
      (
        record {
          header = a.header;
          commitment = a.commitment;
          stored = a.stored;
          thawed = ground arith;
          trusted = ground (arith, a.answered, a.decoded);
          forward = ground (arith, a.answered, a.decoded);
        },
        ground (arith, a.answered, a.decoded),
      )

  -- A next header commit that succeeds was made on an unfrozen contract with a header for the trusted
  -- block, and is a commit of that one block, whose end is above the latest block.
  pub commit_next_header-Commits :
      (b : ℕ) (msg : Message) (s : Storage R) (o : Outcome R)
      → commit_next_header b msg s ≡ ok o
      → Commits s b (b + 1) o
  unfolding commit_next_header
  commit_next_header-Commits b msg s o e =
      let a = commit_next_header-Answered b msg s o e in
      record {
        header = a.header;
        commitment = a.commitment;
        stored = a.stored;
        thawed = ground arith;
        trusted = ground (arith, a.answered, a.decoded);
        forward = ground (arith, a.answered, a.decoded);
      }

  -- The next block of a next header commit has 64 bits.
  pub commit_next_header-lt :
      (b : ℕ) (msg : Message) (s : Storage R) (o : Outcome R)
      → commit_next_header b msg s ≡ ok o
      → b + 1 < 2 ^ 64
  unfolding commit_next_header
  commit_next_header-lt b msg s o e =
      let a = commit_next_header-Answered b msg s o e in ground (arith, a.answered, a.decoded)

  -- The other way round: on an unfrozen contract that knows the latest header, with a target 1 to
  -- 10000 blocks ahead and a gateway that answers with two words and any more bytes, the commit comes
  -- to storing the two words for the blocks from the latest up to the target.
  pub commit_header_range_succeeds :
      (t header commitment : ℕ) (rest : Bytes) (msg : Message) (s : Storage R)
      → s.frozen ≡ false
      → s.block_height_to_header_hash s.latest_block ≢ 0
      → s.latest_block < t
      → t ≤ s.latest_block + 10000
      → header < 2 ^ 256
      → commitment < 2 ^ 256
      → msg.gateway.verified_call s.gateway s.header_range_function_id (
          encode_header_range_input s.latest_block (s.block_height_to_header_hash s.latest_block) t)
        ≡ some (be_bytes 32 header ++ (be_bytes 32 commitment ++ rest))
      → commit_header_range t msg s ≡ store_commit s.latest_block t header commitment s
  unfolding commit_header_range
  commit_header_range_succeeds t header commitment rest msg s f k l m h c q =
      ground (arith, decode_result-words header commitment rest h c)

  -- A next header commit for the latest block, likewise, where the next block fits 64 bits.
  pub commit_next_header_succeeds :
      (header commitment : ℕ) (rest : Bytes) (msg : Message) (s : Storage R)
      → s.frozen ≡ false
      → s.block_height_to_header_hash s.latest_block ≢ 0
      → s.latest_block + 1 < 2 ^ 64
      → header < 2 ^ 256
      → commitment < 2 ^ 256
      → msg.gateway.verified_call s.gateway s.next_header_function_id
          (encode_next_header_input s.latest_block (s.block_height_to_header_hash s.latest_block))
        ≡ some (be_bytes 32 header ++ (be_bytes 32 commitment ++ rest))
      → commit_next_header s.latest_block msg s
        ≡ store_commit s.latest_block (s.latest_block + 1) header commitment s
  unfolding commit_next_header
  commit_next_header_succeeds header commitment rest msg s f k l h c q =
      ground (arith, decode_result-words header commitment rest h c)
