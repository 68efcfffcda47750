-- ===== src/Bindings/Values.antt =====
-- The Go values of bindings/BlobstreamX.go: its structs, what an `interface{}` of the package holds,
-- and Go's panics. Arrays of bytes and addresses are numbers, a `*big.Int` is an integer and is
-- never nil.
use blobstreamx.Base.{ℕ, Bool, String, Option, none, some, List}
use blobstreamx.Base.Bytes.{Bytes}
use blobstreamx.Base.Int.{ℤ}

pub record BinaryMerkleProof : Type 0 where
  pub side_nodes : List ℕ
  pub key : ℤ
  pub num_leaves : ℤ

pub record InitParameters : Type 0 where
  pub guardian : ℕ
  pub gateway : ℕ
  pub height : ℕ
  pub header : ℕ
  pub next_header_function_id : ℕ
  pub header_range_function_id : ℕ

pub record DataRootTuple : Type 0 where
  pub height : ℤ
  pub data_root : ℕ

-- A value with its dynamic type.
pub data Value : Type 0 where
  uint64 uint32 uint8 bytes4 bytes32 address : ℕ → Value
  big_int : ℤ → Value
  boolean : Bool → Value
  text : String → Value
  byte_slice : Bytes → Value
  data_root_tuple : DataRootTuple → Value
  merkle_proof : BinaryMerkleProof → Value
  init_parameters : InitParameters → Value

-- The prototypes that are given to `abi.ConvertType`, such as `new(uint64)`.
pub data Proto : Type 0 where
  new_uint64 new_bytes32 new_address new_big_int new_bool new_string : Proto

-- The type assertions `.(*uint64)` and so on, each with the dereference; `none` is a panic.
abbrev pub as_uint64 : Value → Option ℕ
as_uint64 (uint64 n) = some n
as_uint64 _ = none

abbrev pub as_bytes32 : Value → Option ℕ
as_bytes32 (bytes32 n) = some n
as_bytes32 _ = none

abbrev pub as_address : Value → Option ℕ
as_address (address n) = some n
as_address _ = none

abbrev pub as_big_int : Value → Option ℤ
as_big_int (big_int n) = some n
as_big_int _ = none

abbrev pub as_bool : Value → Option Bool
as_bool (boolean b) = some b
as_bool _ = none

abbrev pub as_string : Value → Option String
as_string (text s) = some s
as_string _ = none

-- A Go function returns or panics.
pub data Go {ℓ} (A : Type ℓ) : Type ℓ where
  returned : A → Go A
  panicked : Go A

infixl 5 ◌>>=◌
abbrev pub ◌>>=◌ {ℓ κ} : {A : Type ℓ} {B : Type κ} → Go A → (A → Go B) → Go B
returned a >>= f = f a
panicked >>= f = panicked

abbrev pub or_panic {ℓ} : {A : Type ℓ} → Option A → Go A
or_panic none = panicked
or_panic (some a) = returned a
