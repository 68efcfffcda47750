-- ===== src/LightClient/Commits.antt =====
-- What a commit to contracts/src/BlobstreamX.sol proves when the gateway serves the circuits.
use blobstreamx.Base.{
  ℕ, ◌+◌, ◌*◌, ◌^◌, ◌≡◌, ◌≤◌, ◌<◌, refl, Option, sym, ◌∙◌, some, List, [], ◌∷◌, length, arith,
}
use blobstreamx.Base.Bytes.{Bytes}
use blobstreamx.Circuits.Chain.{Chain}
use blobstreamx.Circuits.Merkle.{merkle_root}
use blobstreamx.Circuits.DataCommitment.Leaves.{tuples}
use blobstreamx.Circuits.Programs.{Library, LibraryLaws}
use blobstreamx.Circuits.Programs.Soundness.{Proven, combined_skip-Proven, combined_step-Proven}
use blobstreamx.Contract.Types.{Storage, Message, ok, Outcome, head_update, data_commitment_stored}
use blobstreamx.Contract.Abi.{encode_header_range_input, encode_next_header_input}
use blobstreamx.Contract.{commit_header_range, commit_next_header, store_commit}
use blobstreamx.Contract.Commits.{
  Answered, commit_header_range-Answered, commit_next_header-Answered, commit_header_range-Commits,
  commit_next_header-lt,
}
use blobstreamx.LightClient.{Serves, Certified}

module _ (lib : Library) (laws : LibraryLaws lib) {R : Type 0} where
  -- The commit stores a header that is linked to that of `start`, by one header for each block up to
  -- `end`, and the Merkle root of these blocks' heights and data hashes.
  pub record Proves (s : Storage R) (start end : ℕ) (o : Outcome R) : Type 0 where
    pub hashes : List ℕ
    pub headers :
        Chain lib.gadgets
          (s.block_height_to_header_hash start)
          hashes
          (o.storage.block_height_to_header_hash end)
    pub blocks : start + length hashes ≡ end
    pub commitment :
        o.storage.state_data_commitments s.state_proof_nonce
        ≡ merkle_root lib.gadgets (tuples start hashes)
    pub latest : o.storage.latest_block ≡ end
    pub header-lt : o.storage.block_height_to_header_hash end < 2 ^ 256
    pub certified :
        Certified lib.gadgets
          (s.block_height_to_header_hash start)
          o.logs
          (o.storage.block_height_to_header_hash end)

  store_commit-Proves :
      (s : Storage R) (start end header commitment : ℕ) (o : Outcome R) (hashes : List ℕ)
      → Chain lib.gadgets (s.block_height_to_header_hash start) hashes header
      → start + length hashes ≡ end
      → commitment ≡ merkle_root lib.gadgets (tuples start hashes)
      → header < 2 ^ 256
      → store_commit start end header commitment s ≡ ok o
      → Proves s start end o
  store_commit-Proves s start end header commitment o hashes c n r b h =
      let e : o.storage.block_height_to_header_hash end ≡ header = ground arith in
      record {
        hashes = hashes;
        headers = rw e c;
        blocks = n;
        commitment =
            let k : o.storage.state_data_commitments s.state_proof_nonce ≡ commitment =
              ground arith in
            k ∙ r;
        latest = ground arith;
        header-lt = rw e b;
        certified =
            let l : o.logs
                ≡ head_update end header
                  ∷ data_commitment_stored s.state_proof_nonce start end commitment
                  ∷ [] =
              ground arith in
            rw (l, e) (header, hashes, c, n, r, refl);
      }

  Answered-Proves :
      {answer : Option Bytes} (s : Storage R) (start end : ℕ) (o : Outcome R)
      (a : Answered answer s start end o)
      → Proven lib.gadgets start end (s.block_height_to_header_hash start) a.bytes
      → Proves s start end o
  Answered-Proves s start end o a p =
      let root = merkle_root lib.gadgets (tuples start p.hashes) in
      let same : some (a.header, a.commitment) ≡ some (p.end_header, root) =
        sym a.decoded ∙ p.decoded in
      let x : a.header ≡ p.end_header = cc same in
      let y : a.commitment ≡ root = cc same in
      store_commit-Proves s start end a.header a.commitment o p.hashes (rw x p.headers) p.blocks y
        (rw x p.end_header-lt) a.stored

  -- A header range commit that succeeds where the gateway serves the circuits, for a target and a
  -- latest header of their widths: what it stores is the header of the target, linked to the latest
  -- one by one header for each block, and the Merkle root of these blocks' heights and data hashes.
  pub commit_header_range-Proves :
      (skip_max depth b t : ℕ) (msg : Message) (s : Storage R) (o : Outcome R)
      → 2 ^ depth * 2 ^ b ≤ 2 ^ 64
      → t < 2 ^ 64
      → s.block_height_to_header_hash s.latest_block < 2 ^ 256
      → Serves lib skip_max depth b s.gateway s.header_range_function_id s.next_header_function_id
          msg
      → commit_header_range t msg s ≡ ok o
      → Proves s s.latest_block t o
  commit_header_range-Proves skip_max depth b t msg s o m l h serves e =
      let header = s.block_height_to_header_hash s.latest_block in
      let input = encode_header_range_input s.latest_block header t in
      let a = commit_header_range-Answered t msg s o e in
      let (c, k) = commit_header_range-Commits t msg s o e in
      Answered-Proves s s.latest_block t o a (
        combined_skip-Proven lib laws skip_max depth b s.latest_block header t a.bytes m l h
          c.forward (serves.header_range_lem input a.bytes a.answered))

  -- The same of a next header commit, for the trusted block and the one after it.
  pub commit_next_header-Proves :
      (skip_max depth b t : ℕ) (msg : Message) (s : Storage R) (o : Outcome R)
      → s.block_height_to_header_hash t < 2 ^ 256
      → Serves lib skip_max depth b s.gateway s.header_range_function_id s.next_header_function_id
          msg
      → commit_next_header t msg s ≡ ok o
      → Proves s t (t + 1) o
  commit_next_header-Proves skip_max depth b t msg s o h serves e =
      let header = s.block_height_to_header_hash t in
      let input = encode_next_header_input t header in
      let a = commit_next_header-Answered t msg s o e in
      let l = commit_next_header-lt t msg s o e in
      Answered-Proves s t (t + 1) o a (
        combined_step-Proven lib laws t header a.bytes (omega arith) h
          (serves.next_header_lem input a.bytes a.answered))
