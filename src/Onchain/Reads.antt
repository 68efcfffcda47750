-- ===== src/Onchain/Reads.antt =====
-- What the read methods of bindings/BlobstreamX.go return where the contract of
-- contracts/src/BlobstreamX.sol is deployed.
use blobstreamx.Base.{
  ℕ, ◌≡◌, ◌<◌, ◌^◌, refl, true, false, String, Option, none, some, List, [], ◌∷◌, arith, subst,
}
use blobstreamx.Base.Int.{pos}
use blobstreamx.Bindings.Values.{
  Value, Proto, uint64, bytes32, address, big_int, text, new_uint64, new_bytes32, new_address,
  new_big_int, new_string, as_uint64, as_bytes32, as_address, as_string, returned,
}
use blobstreamx.Bindings.Geth.{Geth}
use blobstreamx.Bindings.Caller.{retrieve, as_big_int_pointer}
use blobstreamx.Bindings.Instance.{BlobstreamXCaller, BlobstreamXSession}
use blobstreamx.Bindings.Metadata.{well_typed, all_fit}
use blobstreamx.Bindings.Session
use blobstreamx.Contract.Types.{MerkleVerify, Upgradeable, ok, revert, Error}
use blobstreamx.Contract.{data_commitment_max}
use blobstreamx.Onchain.Dispatch.{view_function, is_inherited}
use blobstreamx.Onchain.Deployed.{Deployed, proto_of, Answers}

-- On an error of `Call`, whatever it has put into its results, a read method returns the zero value
-- with the error.
pub retrieve_error :
    (g : Geth) {T : Type 0} (zero_value : T) (proto : Proto) (cast : Value → Option T)
    (c : BlobstreamXCaller g) (bound : g.BoundContract) (opts : g.CallOpts) (name : String)
    (args : List Value) (chain : g.Chain) (e : g.Error)
    → c.contract ≡ some bound
    → (g.call bound opts [] name args chain).1 ≡ some e
    → retrieve g zero_value proto cast c opts name args chain ≡ returned (zero_value, some e)
unfolding retrieve
retrieve_error g zero_value proto cast c bound opts name args chain e b q = rw (b, q)

module _ (g : Geth) {R : Type 0} (u : Upgradeable R) (verify : MerkleVerify)
    (bound : g.BoundContract) (d : Deployed g u verify bound) where
  retrieve-Deployed :
      {T : Type 0} (zero_value : T) (proto : Proto) (cast : Value → Option T) (v : Value) (x : T)
      (c : BlobstreamXCaller g) (opts : g.CallOpts) (name : String) (args : List Value)
      (chain : g.Chain)
      → c.contract ≡ some bound
      → g.call bound opts [] name args chain ≡ (v ∷ [], none)
      → proto_of v ≡ some proto
      → cast v ≡ some x
      → retrieve g zero_value proto cast c opts name args chain ≡ returned (x, none)
  unfolding retrieve
  retrieve-Deployed zero_value proto cast v x c opts name args chain b q p e =
      ground (arith, d.convert_type_lem v proto p)

  -- A method whose call is encoded and answered with `v` returns the Go value `x` of `v`.
  module _ {T : Type 0} (zero_value : T) (proto : Proto) (cast : Value → Option T) (name : String)
      (args : List Value) (c : BlobstreamXCaller g) (opts : g.CallOpts) (chain : g.Chain)
      (b : c.contract ≡ some bound) (w : well_typed name args ≡ true) (f : all_fit args ≡ true)
      (i : is_inherited name ≡ false) where
    pub read_value :
        (v : Value) (x : T)
        → view_function verify name args (d.storage_at opts chain) ≡ some (ok v)
        → proto_of v ≡ some proto
        → cast v ≡ some x
        → retrieve g zero_value proto cast c opts name args chain ≡ returned (x, none)
    read_value v x a p e =
        let answer = d.call_lem opts name args chain w f i in
        retrieve-Deployed zero_value proto cast v x c opts name args chain b (rw a at answer) p e

    pub read_revert :
        (r : Error)
        → view_function verify name args (d.storage_at opts chain) ≡ some (revert r)
        → (e : g.Error) × (retrieve g zero_value proto cast c opts name args chain
            ≡ returned (zero_value, some e))
    read_revert r a =
        let (e, q) =
          subst (λ o. Answers o (g.call bound opts [] name args chain)) a
            (d.call_lem opts name args chain w f i) in
        (e, retrieve_error g zero_value proto cast c bound opts name args chain e b q)

  -- Nine getters of a session on the deployed contract return, with no error and no panic, what the
  -- contract's storage, or its constant, holds at the block that the session's options choose; the
  -- nonce has at most 256 bits.
  pub session_reads :
      (s : BlobstreamXSession g) (chain : g.Chain) (height nonce : ℕ)
      → s.contract.caller.contract ≡ some bound
      → nonce < 2 ^ 256
      → let st = d.storage_at s.call_opts chain in
        (Session.latest_block g s chain ≡ returned (st.latest_block, none))
        × (Session.state_proof_nonce g s chain ≡ returned (some (pos st.state_proof_nonce), none))
        × (Session.block_height_to_header_hash g s height chain
            ≡ returned (st.block_height_to_header_hash height, none))
        × (Session.state_data_commitments g s (pos nonce) chain
            ≡ returned (st.state_data_commitments nonce, none))
        × (Session.gateway g s chain ≡ returned (st.gateway, none))
        × (Session.header_range_function_id g s chain
            ≡ returned (st.header_range_function_id, none))
        × (Session.next_header_function_id g s chain ≡ returned (st.next_header_function_id, none))
        × (Session.data_commitment_max g s chain ≡ returned (data_commitment_max, none))
        × (Session.version g s chain ≡ returned ("0.1.0", none))
  unfolding Session.latest_block Session.state_proof_nonce Session.block_height_to_header_hash
      Session.state_data_commitments Session.gateway Session.header_range_function_id
      Session.next_header_function_id Session.data_commitment_max Session.version
  session_reads s chain height nonce b n =
      let st = d.storage_at s.call_opts chain in
      let c = s.contract.caller in
      let o = s.call_opts in
      (
        read_value 0 new_uint64 as_uint64 "latestBlock" [] c o chain b refl refl refl
            (uint64 st.latest_block) st.latest_block refl refl refl,
        read_value none new_big_int as_big_int_pointer "state_proofNonce" [] c o chain b refl refl
            refl (big_int (pos st.state_proof_nonce)) (some (pos st.state_proof_nonce)) refl refl
            refl,
        read_value 0 new_bytes32 as_bytes32 "blockHeightToHeaderHash" (uint64 height ∷ []) c o chain
            b refl refl refl (bytes32 (st.block_height_to_header_hash height))
            (st.block_height_to_header_hash height) refl refl refl,
        read_value 0 new_bytes32 as_bytes32 "state_dataCommitments" (big_int (pos nonce) ∷ []) c o
            chain b refl (ground arith) refl (bytes32 (st.state_data_commitments nonce))
            (st.state_data_commitments nonce) refl refl refl,
        read_value 0 new_address as_address "gateway" [] c o chain b refl refl refl
            (address st.gateway) st.gateway refl refl refl,
        read_value 0 new_bytes32 as_bytes32 "headerRangeFunctionId" [] c o chain b refl refl refl
            (bytes32 st.header_range_function_id) st.header_range_function_id refl refl refl,
        read_value 0 new_bytes32 as_bytes32 "nextHeaderFunctionId" [] c o chain b refl refl refl
            (bytes32 st.next_header_function_id) st.next_header_function_id refl refl refl,
        read_value 0 new_uint64 as_uint64 "DATA_COMMITMENT_MAX" [] c o chain b refl refl refl
            (uint64 data_commitment_max) data_commitment_max refl refl refl,
        read_value "" new_string as_string "VERSION" [] c o chain b refl refl refl (text "0.1.0")
            "0.1.0" refl refl refl,
      )
