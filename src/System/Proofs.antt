-- ===== src/System/Proofs.antt =====
-- What the gateway answers to the operator of bin/blobstreamx.rs when it runs the circuits of circuits/
-- for a chain that their fetcher knows.
use blobstreamx.Base.{ℕ, ◌+◌, ◌-◌, ◌*◌, ◌^◌, ◌≡◌, ◌≤◌, ◌<◌, ◌∙◌, some, map, arith, inl, inr}
use blobstreamx.Base.Bytes.{Bytes}
use blobstreamx.Circuits.{encode_data_root_tuple, hash_in}
use blobstreamx.Circuits.Completeness.Batches.{Supplied-first}
use blobstreamx.Circuits.Completeness.Roots.{blocks_root, blocks_root-one}
use blobstreamx.Circuits.DataCommitment.{range_from}
use blobstreamx.Circuits.DataCommitment.Leaves.{tuples}
use blobstreamx.Circuits.Programs.{Library, LibraryLaws}
use blobstreamx.Circuits.Programs.Acceptance.{combined_skip_accepts, combined_step_accepts}
use blobstreamx.Circuits.Programs.Soundness.{merkle_root-lt}
use blobstreamx.Contract.Abi.{encode_header_range_input, encode_next_header_input}
use blobstreamx.Contract.Requests.{answer}
use blobstreamx.Contract.Types.{Storage, Message}
use blobstreamx.Inputs.{Source}
use blobstreamx.Inputs.Accepted.{fetched_accepts}
use blobstreamx.Inputs.Supplied.{Knows, hint-Supplied}
use blobstreamx.Operator.{Submission, Answers}
use blobstreamx.Operator.Targets.{Reaches, Asks}
use blobstreamx.System.{Provisioned, Works, Follows}

module _ {H : Type 0} (lib : Library) (laws : LibraryLaws lib) (source : Source H) (hash : ℕ → ℕ)
    (leaf : ℕ → Bytes) (data_hash : ℕ → ℕ) (k : Knows lib.gadgets source hash leaf data_hash)
    (skip_max depth b head : ℕ) (p : Provisioned source hash skip_max depth b head) {R : Type 0}
    {address range_id next_id : ℕ} {observe : Storage R → Answers} {msg : Message}
    (works : Works lib source hash skip_max depth b head address range_id next_id observe msg) where
  -- The commitment to the blocks from `start` up to `t`.
  abbrev root : (start t : ℕ) → ℕ
  root start t = blocks_root lib.gadgets data_hash start (t - start)

  pub root-lt : (start t : ℕ) → root start t < 2 ^ 256
  unfolding blocks_root
  root-lt start t =
      merkle_root-lt lib laws (tuples start (map data_hash (range_from start (t - start))))

  range_answer :
      (start t : ℕ)
      → 0 < start
      → start < t
      → t < head
      → t ≤ start + 2 ^ depth * 2 ^ b
      → lib.skip skip_max start (hash start) t ≡ some (hash t)
      → msg.gateway.verified_call address range_id (encode_header_range_input start (hash start) t)
        ≡ some (answer (hash t) (root start t))
  range_answer start t z l m n q =
      let x =
        fetched_accepts lib.gadgets source hash leaf data_hash k laws.gadget_laws lib.mapreduce
          laws.mapreduce_laws (lib.hint (2 ^ b)) depth b start t (works.fetches (2 ^ b)) p.small z l
          n (omega arith) (omega arith) p.latest-lt in
      works.runs_skip (encode_header_range_input start (hash start) t)
      ∙ combined_skip_accepts lib laws skip_max depth (2 ^ b) start (hash start) t (hash t)
          (root start t) (omega arith) (p.hash-lt start (omega arith)) (omega arith) p.jobs q
          (root-lt start t) x

  next_answer :
      (start : ℕ)
      → 0 < start
      → start + 1 < head
      → msg.gateway.verified_call address next_id (encode_next_header_input start (hash start))
        ≡ some (answer (hash (start + 1)) (root start (start + 1)))
  next_answer start z l =
      let (d, q, sup) =
        hint-Supplied lib.gadgets source hash leaf data_hash k 1 start (start + 1) z (omega arith)
          (omega arith) (omega arith) p.latest-lt in
      let (x, e, r, c) =
        Supplied-first lib.gadgets hash data_hash sup (omega arith) (omega arith) in
      let one : start + 1 - start ≡ 1 = omega arith in
      let leaf_only : root start (start + 1)
          ≡ lib.gadgets.leaf_hash (encode_data_root_tuple (hash_in x) start) =
        rw (one, c) (blocks_root-one lib.gadgets data_hash start) in
      rw leaf_only (
        works.runs_step (encode_next_header_input start (hash start))
        ∙ combined_step_accepts lib laws start (hash start) (hash (start + 1)) x (omega arith)
            (p.hash-lt start (omega arith)) (works.steps start l)
            (rw (works.fetches 1 start (start + 1) d (omega arith) (omega arith) q) e) r)

  -- The gateway's answer to a submission of the operator.
  pub submitted_answer :
      (m t : ℕ) (s : Storage R) (r : Submission)
      → Follows hash head address range_id next_id s
      → m ≤ 2 ^ depth * 2 ^ b
      → lib.skip skip_max s.latest_block (hash s.latest_block) t ≡ some (hash t)
      → Reaches m (observe s) s.latest_block t
      → Asks (observe s) s.latest_block t r
      → msg.gateway.verified_call s.gateway r.function_id r.input
        ≡ some (answer (hash t) (root s.latest_block t))
  submitted_answer m t s r f l q reach asks =
      let reads = works.reads s in
      let head_is = works.at_head s in
      let z = f.positive in
      let x : asks.trusted ≡ s.block_height_to_header_hash s.latest_block =
        ground (arith, asks.hash_known, reads.hash_read) in
      let y = f.gateway_kept in
      let h = f.header in
      elim asks.asked [
        | inl (one, e) ↦
            let i : asks.next_id ≡ s.next_header_function_id =
              ground (arith, asks.next_known, reads.next_read) in
            let j = f.next_kept in
            let v = next_answer s.latest_block z (omega (arith, reach.stable, one, head_is)) in
            rw one (cc)
        | inr (many, e) ↦
            let i : asks.range_id ≡ s.header_range_function_id =
              ground (arith, asks.range_known, reads.range_read) in
            let j = f.range_kept in
            let v =
              range_answer s.latest_block t z reach.after (omega (arith, reach.stable, head_is))
                (omega (arith, reach.within)) q in
            (cc)
      ]
