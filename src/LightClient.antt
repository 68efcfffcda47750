-- ===== src/LightClient.antt =====
-- The contract of contracts/src/BlobstreamX.sol with the circuits of circuits/ behind its gateway.
pub mod Commits
pub mod History
pub mod Limits
use blobstreamx.Base.{ℕ, ◌+◌, ◌^◌, ◌≡◌, Bool, true, false, some, List, [], ◌∷◌, length, ltb}
use blobstreamx.Base.Bytes.{Bytes}
use blobstreamx.Circuits.{Gadgets}
use blobstreamx.Circuits.Chain.{Chain}
use blobstreamx.Circuits.Merkle.{merkle_root}
use blobstreamx.Circuits.DataCommitment.Leaves.{tuples}
use blobstreamx.Circuits.Programs.{Library, combined_skip, combined_step}
use blobstreamx.Contract.Types.{
  Message, Event, head_update, data_commitment_stored, next_header_requested,
  header_range_requested,
}
use blobstreamx.Contract.Transactions.{
  Call, initializes, updates_freeze, updates_gateway, updates_function_ids, updates_genesis_state,
  requests_header_range, commits_header_range, requests_next_header, commits_next_header,
}

-- In this message, the gateway at the address answers a verified call of one of the two function ids
-- only with an output of that circuit on the input; the circuits' parameters are `SKIP_MAX` and, as
-- logarithms, `NB_MAP_JOBS` and `BATCH_SIZE`.
pub record Serves (lib : Library) (skip_max depth b address header_range next_header : ℕ)
    (msg : Message) : Type 0 where
  pub header_range_lem :
      (input output : Bytes)
      → msg.gateway.verified_call address header_range input ≡ some output
      → combined_skip lib skip_max depth (2 ^ b) input ≡ some output
  pub next_header_lem :
      (input output : Bytes)
      → msg.gateway.verified_call address next_header input ≡ some output
      → combined_step lib input ≡ some output

-- From one header to another, the logs' data commitments stand for linked headers, one commitment
-- after the other, and each is the Merkle root of its blocks' heights and data hashes.
abbrev pub Certified : Gadgets → ℕ → List Event → ℕ → Type 0
Certified g header [] last = header ≡ last
Certified g header (data_commitment_stored n start end commitment ∷ es) last =
    (middle : ℕ) × (hashes : List ℕ) × Chain g header hashes middle
    × (start + length hashes ≡ end)
    × (commitment ≡ merkle_root g (tuples start hashes))
    × Certified g middle es last
Certified g header (head_update b h ∷ es) last = Certified g header es last
Certified g header (next_header_requested b h ∷ es) last = Certified g header es last
Certified g header (header_range_requested b h t ∷ es) last = Certified g header es last

-- The calls that set the state anew or change which circuits are trusted.
abbrev pub administers : Call → Bool
administers (initializes p) = true
administers (updates_genesis_state h x) = true
administers (updates_gateway a) = true
administers (updates_function_ids h n) = true
administers _ = false

-- Whether the argument of a commit is a `uint64`.
abbrev pub fits : Call → Bool
fits (commits_header_range t) = ltb t (2 ^ 64)
fits _ = true

-- No call of the history administers the contract, and each message's gateway serves the circuits.
abbrev pub Served :
    Library
    → (skip_max depth b address header_range next_header : ℕ) → List (Call × Message)
    → Type 0
Served lib m d b a h n [] = Unit
Served lib m d b a h n ((c, msg) ∷ cs) =
    (administers c ≡ false)
    × (fits c ≡ true)
    × Serves lib m d b a h n msg
    × Served lib m d b a h n cs
