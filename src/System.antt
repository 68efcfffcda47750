-- ===== src/System.antt =====
-- The whole system at work: the operator of bin/blobstreamx.rs, the circuits of circuits/ with the
-- fetcher that feeds them, and the contract of contracts/src/BlobstreamX.sol, in turns.
pub mod Deployed
pub mod Proofs
pub mod Progress
use blobstreamx.Base.{ℕ, zero, suc, ◌+◌, ◌-◌, ◌*◌, ◌^◌, ◌≡◌, ◌≢◌, ◌<◌, ◌≤◌, true, false, some}
use blobstreamx.Base.Bytes.{Bytes}
use blobstreamx.Circuits.{Gadgets, DataCommitmentProof}
use blobstreamx.Circuits.Completeness.Roots.{blocks_root}
use blobstreamx.Circuits.Programs.{Library, combined_skip, combined_step}
use blobstreamx.Contract.Types.{Storage, Message, Upgradeable}
use blobstreamx.Contract.Transactions.{exec, storage_after}
use blobstreamx.Contract.Requests.{callback_call}
use blobstreamx.Inputs.{Source, hint}
use blobstreamx.Operator.{Submission, Answers, requested, round}
use blobstreamx.Operator.Targets.{Finds}
use blobstreamx.Operator.Requests.{Reads}

module _ {R : Type 0} (u : Upgradeable R) (block_interval data_commitment_max : ℕ)
    (observe : Storage R → Answers) (msg : Message) where
  -- A round of the operator, and the transaction of the call that it names when the request was
  -- taken and relayed.
  unfoldable pub turn : Storage R → Storage R
  unfolding exec round
  turn s = elim (round block_interval data_commitment_max (observe s)) [
    | requested r true ↦ storage_after s (exec u (callback_call r.function_data) msg s)
    | _ ↦ s
  ]

  unfoldable pub turns : ℕ → Storage R → Storage R
  unfolding turn
  turns zero s = s
  turns (suc n) s = turns n (turn s)

-- The circuits are large enough for `skip` and for the blocks up to the head, the fetcher's source is
-- ahead of it, nothing overflows up to there, and the chain's headers have hashes of 256 bits that
-- are not zero.
pub record Provisioned {H : Type 0} (source : Source H) (hash : ℕ → ℕ) (skip_max depth b head : ℕ)
    : Type 0 where
  pub jobs : 2 ^ depth * 2 ^ b ≤ skip_max
  pub small : 2 ^ b < 2 ^ 32
  pub blocks-lt : head + 2 ^ depth * 2 ^ b < 2 ^ 64
  pub ahead : head < source.latest_block_number
  pub latest-lt : source.latest_block_number + 200 < 2 ^ 64
  pub hash-lt : (h : ℕ) → h ≤ head → hash h < 2 ^ 256
  pub hash_ne : (h : ℕ) → 0 < h → h ≤ head → hash h ≢ 0

-- The services do their work: the getters read the contract, `head` is the height of the latest
-- signed header, requests are taken and relayed, and the block that is found is one that `skip`
-- accepts. The gateway at `address` runs the circuits under their function ids.
pub record Works {R : Type 0} {H : Type 0} (lib : Library) (source : Source H) (hash : ℕ → ℕ)
    (skip_max depth b head address range_id next_id : ℕ) (observe : Storage R → Answers)
    (msg : Message) : Type 0 where
  pub reads : (s : Storage R) → Reads s (observe s)
  pub finds : (s : Storage R) → Finds (observe s)
  pub at_head : (s : Storage R) → (observe s).latest_height ≡ head
  pub takes : (s : Storage R) (r : Submission) → (observe s).submit_request r ≡ true
  pub relays : (s : Storage R) → (observe s).relay_proof ≡ true
  pub skips :
      (s : Storage R) (start end : ℕ)
      → start < end
      → end < head
      → let t = (observe s).find_block_to_request start end in
        lib.skip skip_max start (hash start) t ≡ some (hash t)
  pub steps : (start : ℕ) → start + 1 < head → lib.step start (hash start) ≡ some (hash (start + 1))
  pub fetches :
      (n s e : ℕ) (p : DataCommitmentProof)
      → s < 2 ^ 64
      → e < 2 ^ 64
      → hint source n s e ≡ some p
      → lib.hint n s e ≡ p
  pub runs_skip :
      (input : Bytes)
      → msg.gateway.verified_call address range_id input
        ≡ combined_skip lib skip_max depth (2 ^ b) input
  pub runs_step :
      (input : Bytes) → msg.gateway.verified_call address next_id input ≡ combined_step lib input

-- The commitments under the nonces from `n` up to `n'` are the Merkle roots of the tuples of
-- successive ranges of blocks, from the block `a` up to `b`, with the chain's data hashes.
pub data Committed (g : Gadgets) (data_hash commitments : ℕ → ℕ) : (n a n' b : ℕ) → Type 0 where
  nothing : {n a : ℕ} → Committed g data_hash commitments n a n a
  range :
      {n a b n' c : ℕ}
      → a < b
      → commitments n ≡ blocks_root g data_hash a (b - a)
      → Committed g data_hash commitments (n + 1) b n' c
      → Committed g data_hash commitments n a n' c

-- The contract follows the chain: it is not frozen, and its latest block is one of the chain, not
-- above `head`, with its header.
pub record Follows {R : Type 0} (hash : ℕ → ℕ) (head address range_id next_id : ℕ) (s : Storage R)
    : Type 0 where
  pub thawed : s.frozen ≡ false
  pub gateway_kept : s.gateway ≡ address
  pub range_kept : s.header_range_function_id ≡ range_id
  pub next_kept : s.next_header_function_id ≡ next_id
  pub positive : 0 < s.latest_block
  pub below : s.latest_block ≤ head
  pub header : s.block_height_to_header_hash s.latest_block ≡ hash s.latest_block
