-- ===== src/Contract/Abi.antt =====
-- Solidity's encodings that the contract uses: `abi.encodePacked` of its circuit inputs,
-- `abi.decode` of a proof result, and `abi.encode` of a data root tuple.
use blobstreamx.Base.{
  ℕ, ◌≡◌, ◌<◌, ◌^◌, ◌+◌, ◌++◌, Option, none, some, length, take, drop, ltb, if◌then◌else◌, arith,
  length-append,
}
use blobstreamx.Base.Bytes.{
  Bytes, be_bytes, of_be_bytes, take-be_bytes, drop-be_bytes, length-be_bytes, of_be_bytes-be_bytes,
}
use blobstreamx.Contract.Types.{DataRootTuple}

-- `abi.encodePacked(uint64, bytes32, uint64)`
unfoldable pub encode_header_range_input : (trusted_block trusted_header target_block : ℕ) → Bytes
encode_header_range_input trusted_block trusted_header target_block =
    be_bytes 8 trusted_block ++ (be_bytes 32 trusted_header ++ be_bytes 8 target_block)

-- `abi.encodePacked(uint64, bytes32)`
unfoldable pub encode_next_header_input : (trusted_block trusted_header : ℕ) → Bytes
encode_next_header_input trusted_block trusted_header =
    be_bytes 8 trusted_block ++ be_bytes 32 trusted_header

-- `abi.decode(_, (bytes32, bytes32))`: a shorter string reverts, what follows is ignored.
unfoldable pub decode_result : Bytes → Option (ℕ × ℕ)
decode_result bs =
    if ltb (length bs) 64
    then none
    else some (of_be_bytes (take 32 bs), of_be_bytes (take 32 (drop 32 bs)))

-- `abi.encode` of a `DataRootTuple`.
unfoldable pub encode_data_root_tuple : DataRootTuple → Bytes
encode_data_root_tuple t = be_bytes 32 t.height ++ be_bytes 32 t.data_root

-- The length of a result that ends in `rest`.
length-words :
    (header commitment : ℕ) (rest : Bytes)
    → length (be_bytes 32 header ++ (be_bytes 32 commitment ++ rest)) ≡ 64 + length rest
length-words header commitment rest = omega (
  arith,
  length-append (be_bytes 32 header) (be_bytes 32 commitment ++ rest),
  length-append (be_bytes 32 commitment) rest,
  length-be_bytes 32 header,
  length-be_bytes 32 commitment,
)

-- Decoding a result gives back the two words that were written, whatever follows them.
pub decode_result-words :
    (header commitment : ℕ) (rest : Bytes)
    → header < 2 ^ 256
    → commitment < 2 ^ 256
    → decode_result (be_bytes 32 header ++ (be_bytes 32 commitment ++ rest))
      ≡ some (header, commitment)
unfolding decode_result
decode_result-words header commitment rest h c =
    rw
      (
        take-be_bytes 32 header (be_bytes 32 commitment ++ rest),
        drop-be_bytes 32 header (be_bytes 32 commitment ++ rest),
        take-be_bytes 32 commitment rest,
        of_be_bytes-be_bytes 32 header h,
        of_be_bytes-be_bytes 32 commitment c,
      )
      (ground (arith, length-words header commitment rest))
