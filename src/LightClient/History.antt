-- ===== src/LightClient/History.antt =====
-- What a history of calls to contracts/src/BlobstreamX.sol proves when the gateway serves the
-- circuits.
use blobstreamx.Base.{
  ℕ, ◌+◌, ◌*◌, ◌^◌, ◌≡◌, ◌≤◌, ◌<◌, refl, ◌∙◌, false, true, List, [], ◌∷◌, ◌++◌, arith,
}
use blobstreamx.Circuits.{Gadgets}
use blobstreamx.Circuits.Programs.{Library, LibraryLaws}
use blobstreamx.Contract.Types.{
  Storage, Message, Event, Upgradeable, Result, ok, revert, Outcome, head_update,
  data_commitment_stored, next_header_requested, header_range_requested,
}
use blobstreamx.Contract.{
  update_freeze, request_header_range, request_next_header, commit_next_header,
}
use blobstreamx.Contract.Commits.{Commits, commit_header_range-Commits, commit_next_header-Commits}
use blobstreamx.Contract.History.{NoneAbove, IsBounded, NoneAbove-IsBounded, exec-Extends, resets}
use blobstreamx.Contract.Transactions.{
  Call, initializes, updates_freeze, updates_gateway, updates_function_ids, updates_genesis_state,
  requests_header_range, commits_header_range, requests_next_header, commits_next_header, exec, run,
  storage_after, logs_of,
}
use blobstreamx.LightClient.{Serves, Served, Certified, administers, fits}
use blobstreamx.LightClient.Commits.{Proves, commit_header_range-Proves, commit_next_header-Proves}

Certified-append :
    (g : Gadgets) (h k m : ℕ) (es fs : List Event)
    → Certified g h es k
    → Certified g k fs m
    → Certified g h (es ++ fs) m
Certified-append g h k m [] fs s t = rw s t
Certified-append g h k m (data_commitment_stored i a b c ∷ es) fs s t =
    (s.0, s.1, s.2, s.3, s.4, Certified-append g s.0 k m es fs s.5 t)
Certified-append g h k m (head_update b x ∷ es) fs s t = Certified-append g h k m es fs s t
Certified-append g h k m (next_header_requested b x ∷ es) fs s t =
    Certified-append g h k m es fs s t
Certified-append g h k m (header_range_requested b x i ∷ es) fs s t =
    Certified-append g h k m es fs s t

administers-resets : (c : Call) → administers c ≡ false → resets c ≡ false
administers-resets c a = ground arith

module _ (lib : Library) (laws : LibraryLaws lib) {R : Type 0} (skip_max depth b : ℕ)
    (small : 2 ^ depth * 2 ^ b ≤ 2 ^ 64) (address header_range next_header : ℕ) where
  abbrev latest_header : Storage R → ℕ
  latest_header s = s.block_height_to_header_hash s.latest_block

  -- The contract trusts these circuits, and its latest header is the highest and has its width.
  record IsTrusting (s : Storage R) : Type 0 where
    trusted_gateway : s.gateway ≡ address
    trusted_header_range : s.header_range_function_id ≡ header_range
    trusted_next_header : s.next_header_function_id ≡ next_header
    bounded : IsBounded s
    wide : latest_header s < 2 ^ 256

  record Follows (s : Storage R) (o : Outcome R) : Type 0 where
    certified : Certified lib.gadgets (latest_header s) o.logs (latest_header o.storage)
    trusting : IsTrusting o.storage

  Serves-at :
      (s : Storage R) (msg : Message)
      → IsTrusting s
      → Serves lib skip_max depth b address header_range next_header msg
      → Serves lib skip_max depth b s.gateway s.header_range_function_id s.next_header_function_id
          msg
  Serves-at s msg k serves =
      rw (k.trusted_gateway, k.trusted_header_range, k.trusted_next_header) serves

  -- A call that leaves the circuits alone and stores no header.
  keeps-Follows :
      (s : Storage R) (o : Outcome R)
      → IsTrusting s
      → IsBounded o.storage
      → o.storage.gateway ≡ s.gateway
      → o.storage.header_range_function_id ≡ s.header_range_function_id
      → o.storage.next_header_function_id ≡ s.next_header_function_id
      → latest_header o.storage ≡ latest_header s
      → Certified lib.gadgets (latest_header s) o.logs (latest_header s)
      → Follows s o
  keeps-Follows s o k n a h x e c = record {
    certified = rw e c;
    trusting = record {
      trusted_gateway = a ∙ k.trusted_gateway;
      trusted_header_range = h ∙ k.trusted_header_range;
      trusted_next_header = x ∙ k.trusted_next_header;
      bounded = n;
      wide = rw e k.wide;
    };
  }

  Commits-Follows :
      (s : Storage R) (end : ℕ) (o : Outcome R)
      → IsTrusting s
      → IsBounded o.storage
      → Commits s s.latest_block end o
      → Proves lib laws s s.latest_block end o
      → Follows s o
  Commits-Follows s end o k n c p = record {
    certified = rw p.latest p.certified;
    trusting = record {
      trusted_gateway = ground (arith, c.stored, k.trusted_gateway);
      trusted_header_range = ground (arith, c.stored, k.trusted_header_range);
      trusted_next_header = ground (arith, c.stored, k.trusted_next_header);
      bounded = n;
      wide = rw p.latest p.header-lt;
    };
  }

  exec-Follows :
      (u : Upgradeable R) (c : Call) (msg : Message) (s : Storage R) (o : Outcome R)
      → administers c ≡ false
      → fits c ≡ true
      → Serves lib skip_max depth b address header_range next_header msg
      → IsTrusting s
      → IsBounded o.storage
      → exec u c msg s ≡ ok o
      → Follows s o
  unfolding exec update_freeze request_header_range request_next_header
  exec-Follows u (initializes p) msg s o a f v k n e = absurd (ground arith)
  exec-Follows u (updates_genesis_state h x) msg s o a f v k n e = absurd (ground arith)
  exec-Follows u (updates_gateway x) msg s o a f v k n e = absurd (ground arith)
  exec-Follows u (updates_function_ids x y) msg s o a f v k n e = absurd (ground arith)
  exec-Follows u (updates_freeze x) msg s o a f v k n e =
      let l : o.logs ≡ [] = ground arith in
      keeps-Follows s o k n (ground arith) (ground arith) (ground arith) (ground arith) (rw l refl)
  exec-Follows u (requests_header_range t) msg s o a f v k n e =
      let st : o.storage ≡ s = ground arith in
      let l : o.logs ≡ header_range_requested s.latest_block (latest_header s) t ∷ [] =
        ground arith in
      keeps-Follows s o k n (ground arith) (ground arith) (ground arith) (ground arith) (rw l refl)
  exec-Follows u requests_next_header msg s o a f v k n e =
      let st : o.storage ≡ s = ground arith in
      let l : o.logs ≡ next_header_requested s.latest_block (latest_header s) ∷ [] = ground arith in
      keeps-Follows s o k n (ground arith) (ground arith) (ground arith) (ground arith) (rw l refl)
  exec-Follows u (commits_header_range t) msg s o a f v k n e =
      Commits-Follows s t o k n (commit_header_range-Commits t msg s o e).0 (
        commit_header_range-Proves lib laws skip_max depth b t msg s o small (ground arith) k.wide
          (Serves-at s msg k v) e)
  exec-Follows u (commits_next_header t) msg s o a f v k n e =
      let c = commit_next_header-Commits t msg s o e in
      let top : t ≡ s.latest_block = ground (arith, k.bounded t, c.trusted, c.forward) in
      let e' : commit_next_header s.latest_block msg s ≡ ok o = rw top at e in
      Commits-Follows s (s.latest_block + 1) o k n
        (commit_next_header-Commits s.latest_block msg s o e')
        (commit_next_header-Proves lib laws skip_max depth b s.latest_block msg s o k.wide
          (Serves-at s msg k v) e')

  result-Follows :
      (s : Storage R) (r : Result (Outcome R))
      → IsTrusting s
      → ((o : Outcome R) → r ≡ ok o → Follows s o)
      → Certified lib.gadgets (latest_header s) (logs_of r) (latest_header (storage_after s r))
        × IsTrusting (storage_after s r)
  result-Follows s (ok o) k h = let x = h o refl in (x.certified, x.trusting)
  result-Follows s (revert e) k h = (refl, k)

  run-Follows :
      (u : Upgradeable R) (cs : List (Call × Message)) (s : Storage R)
      → Served lib skip_max depth b address header_range next_header cs
      → IsTrusting s
      → Certified lib.gadgets (latest_header s) (run u cs s).1 (latest_header (run u cs s).0)
  unfolding run
  run-Follows u [] s h k = refl
  run-Follows u ((c, msg) ∷ cs) s h k =
      let q = exec u c msg s in
      let s' = storage_after s q in
      let (t, k') = result-Follows s q k (λ o e.
        exec-Follows u c msg s o h.0 h.1 h.2 k
          (exec-Extends u c msg s o (administers-resets c h.0) k.bounded e).none_above e) in
      Certified-append lib.gadgets (latest_header s) (latest_header s')
        (latest_header (run u cs s').0) (logs_of q) (run u cs s').1 t (run-Follows u cs s' h.3 k')

-- Circuits of powers of two whose blocks together are at most 2 ^ 64. Over any history in which no
-- call administers the contract, the targets are 64 bits wide and the gateway at the contract's
-- address answers its two function ids only with outputs of the circuits, from a storage with no
-- header above its latest block and a latest header of 256 bits: the data commitments in the logs
-- stand, one after the other, for linked headers from the old latest header to the new one, and
-- each is the Merkle root of its blocks' heights and data hashes.
pub run-Certified :
    (lib : Library) (laws : LibraryLaws lib) {R : Type 0} (skip_max depth b : ℕ) (u : Upgradeable R)
    (cs : List (Call × Message)) (s : Storage R)
    → 2 ^ depth * 2 ^ b ≤ 2 ^ 64
    → Served lib skip_max depth b s.gateway s.header_range_function_id s.next_header_function_id cs
    → NoneAbove s
    → s.block_height_to_header_hash s.latest_block < 2 ^ 256
    → let (s', logs) = run u cs s in
      Certified lib.gadgets
        (s.block_height_to_header_hash s.latest_block)
        logs
        (s'.block_height_to_header_hash s'.latest_block)
run-Certified lib laws skip_max depth b u cs s small served n w =
    run-Follows lib laws skip_max depth b small s.gateway s.header_range_function_id
      s.next_header_function_id u cs s served
      (record {
        trusted_gateway = refl;
        trusted_header_range = refl;
        trusted_next_header = refl;
        bounded = NoneAbove-IsBounded s n;
        wide = w;
      })
