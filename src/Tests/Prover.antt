-- ===== src/Tests/Prover.antt =====
-- A proving library for a chain whose header at the height `h` has the hash `h - 5` and the data hash
-- `h + 100`. It shows that the assumptions of `Circuits.Programs` can be met.
use blobstreamx.Base.{
  ℕ, zero, suc, ◌+◌, ◌-◌, ◌*◌, ◌%◌, ◌^◌, ◌≡◌, ◌<◌, refl, ◌∙◌, ap, Option, none, some, List, [], ◌∷◌,
  ◌++◌, map, ltb, length, take, drop, take-append, drop-append, length-append, arith, if◌then◌else◌,
}
use mathlib.Core.List.{append-nil}
use blobstreamx.Base.Bytes.{
  Bytes, be_bytes, of_be_bytes, take-be_bytes, drop-be_bytes, length-be_bytes, of_be_bytes-be_bytes,
}
use blobstreamx.Circuits.{MerkleProof, Gadgets, DataCommitmentProof, ◌>>=◌, hash_in}
use blobstreamx.Circuits.Chain.{HasLastBlock}
use blobstreamx.Circuits.Soundness.{length-map}
use blobstreamx.Circuits.Merkle.{levels, merkle_root}
use blobstreamx.Circuits.DataCommitment.{range_from, MapReduce, MapReduceLaws}
use blobstreamx.Circuits.DataCommitment.Leaves.{GadgetLaws}
use blobstreamx.Circuits.DataCommitment.Ranges.{length-range_from}
use blobstreamx.Circuits.Programs.{Library, LibraryLaws}

abbrev pub first : List ℕ → ℕ
first [] = 0
first (n ∷ ns) = n

-- A proof's root is its first aunt.
abbrev pub merkle_proof : (hash root : ℕ) → MerkleProof
merkle_proof hash root = record { leaf = 10 ∷ 32 ∷ be_bytes 32 hash; aunts = root ∷ [] }

abbrev hashes_only : Gadgets
hashes_only = record {
  root_from_proof = λ p path. first p.aunts;
  root_from_leaves = λ leaves enabled. 0;
  sha256 = λ bytes. 8;
  leaf_hash = λ bytes. 4;
}

abbrev pub gadgets : Gadgets
gadgets = record hashes_only {
  root_from_leaves = λ leaves enabled. merkle_root hashes_only (take enabled leaves);
}

levels-gadgets :
    (k : ℕ) (leaves : List Bytes) → levels hashes_only k leaves ≡ levels gadgets k leaves
unfolding levels
levels-gadgets zero [] = refl
levels-gadgets zero (leaf ∷ leaves) = refl
levels-gadgets (suc k) leaves = ground (arith, levels-gadgets k leaves)

pub gadget_laws : GadgetLaws gadgets
unfolding merkle_root
gadget_laws = record {
  root_from_leaves_lem = λ leaves n p m. levels-gadgets (length (take n leaves)) (take n leaves);
}

abbrev pub tree : MapReduce
tree zero size m r inputs = m inputs
tree (suc depth) size m r inputs = tree depth size m r (take (2 ^ depth * size) inputs) >>= λ x.
    tree depth size m r (drop (2 ^ depth * size) inputs) >>= λ y. r x y

pub tree_laws : MapReduceLaws tree
tree_laws = record {
  mapreduce_batch = λ size m r inputs n. refl;
  mapreduce_halves = λ depth size m r left right n k.
      rw (take-append (2 ^ depth * size) left right n, drop-append (2 ^ depth * size) left right n)
        refl;
}

abbrev read : ℕ → Bytes → Option (ℕ × Bytes)
read w bs = if ltb (length bs) w then none else some (of_be_bytes (take w bs), drop w bs)

read-be_bytes :
    (w n : ℕ) (rest : Bytes) → n < 256 ^ w → read w (be_bytes w n ++ rest) ≡ some (n, rest)
read-be_bytes w n rest h = ground (
  arith,
  length-append (be_bytes w n) rest,
  length-be_bytes w n,
  take-be_bytes w n rest,
  drop-be_bytes w n rest,
  of_be_bytes-be_bytes w n h,
)

abbrev headers : (max_leaves start_block end_block : ℕ) → DataCommitmentProof
headers max_leaves start_block end_block = record {
  start_header = start_block - 5;
  end_header = end_block - 5;
  data_hash_proofs = map (λ h. merkle_proof (h + 100) (h - 5)) (range_from start_block max_leaves);
  last_block_id_proofs =
      map (λ h. merkle_proof (h - 5) (h + 1 - 5)) (range_from start_block max_leaves);
}

abbrev pub library : Library
library = record {
  gadgets = gadgets;
  mapreduce = tree;
  evm_read_u64 = read 8;
  evm_read_bytes32 = read 32;
  evm_write_bytes32 = be_bytes 32;
  skip = λ m b h t. some ((t - 5) % 2 ^ 256);
  step = λ b h. if ltb (h + 1) (2 ^ 256) then some (h + 1) else none;
  hint = headers;
}

abbrev step : ℕ → Option ℕ
step h = if ltb (h + 1) (2 ^ 256) then some (h + 1) else none

skip-lt : (t hash : ℕ) → some ((t - 5) % 2 ^ 256) ≡ some hash → hash < 2 ^ 256
skip-lt t hash e = ground arith

step-lt : (h hash : ℕ) → step h ≡ some hash → (hash ≡ h + 1) × (h + 1 < 2 ^ 256)
step-lt h hash e = (ground arith, ground arith)

pub hash_in-merkle_proof :
    (hash root : ℕ) → hash < 2 ^ 256 → hash_in (merkle_proof hash root) ≡ hash
hash_in-merkle_proof hash root h =
    let e : take 32 (be_bytes 32 hash) ≡ be_bytes 32 hash =
      rw (append-nil (be_bytes 32 hash)) at (take-be_bytes 32 hash []) in
    ap of_be_bytes e ∙ of_be_bytes-be_bytes 32 hash h

step_links : (h hash : ℕ) → step h ≡ some hash → HasLastBlock gadgets hash h
step_links h hash e =
    let (x, y) = step-lt h hash e in
    (merkle_proof h hash, refl, hash_in-merkle_proof h hash (omega arith))

pub library_laws : LibraryLaws library
library_laws = record {
  gadget_laws = gadget_laws;
  mapreduce_laws = tree_laws;
  evm_read_u64_lem = λ n rest h. read-be_bytes 8 n rest h;
  evm_read_bytes32_lem = λ n rest h. read-be_bytes 32 n rest h;
  evm_write_bytes32_lem = λ n h. refl;
  sha256-lt = λ bytes. omega arith;
  leaf_hash-lt = λ bytes. omega arith;
  skip-lt = λ m b h t hash e. skip-lt t hash e;
  step-lt = λ b h hash e. let (x, y) = step-lt h hash e in omega arith;
  step_links = λ b h hash e. step_links h hash e;
  length-hint = λ n s e.
      length-map (λ h. merkle_proof (h + 100) (h - 5)) (range_from s n) ∙ length-range_from s n;
}
