-- ===== src/Onchain/Deployed.antt =====
-- What is assumed of go-ethereum and of the chain where the contract of
-- contracts/src/BlobstreamX.sol is deployed behind a bound contract of bindings/BlobstreamX.go.
use blobstreamx.Base.{◌≡◌, Bool, true, false, String, Option, none, some, List, [], ◌∷◌}
use blobstreamx.Bindings.Values.{
  Value, Proto, uint64, bytes32, address, big_int, boolean, text, new_uint64, new_bytes32,
  new_address, new_big_int, new_bool, new_string,
}
use blobstreamx.Bindings.Geth.{Geth}
use blobstreamx.Bindings.Metadata.{well_typed, all_fit}
use blobstreamx.Contract.Types.{
  Storage, MerkleVerify, Upgradeable, Message, Result, ok, revert, Outcome,
}
use blobstreamx.Contract.Transactions.{Call, exec}
use blobstreamx.Onchain.Dispatch.{view_function, function_call, is_inherited}

-- The prototype of a value's own type, for the types that a view function returns.
abbrev pub proto_of : Value → Option Proto
proto_of (uint64 n) = some new_uint64
proto_of (bytes32 n) = some new_bytes32
proto_of (address n) = some new_address
proto_of (big_int n) = some new_big_int
proto_of (boolean b) = some new_bool
proto_of (text s) = some new_string
proto_of _ = none

-- What `Call` gives for the answer of a view function: its value, or an error if it reverts or if
-- the contract has no such function.
abbrev pub Answers : {Error : Type 0} → Option (Result Value) → List Value × Option Error → Type 0
Answers (some (ok v)) r = r ≡ (v ∷ [], none)
Answers {Error} (some (revert e)) r = (err : Error) × (r.1 ≡ some err)
Answers {Error} none r = (err : Error) × (r.1 ≡ some err)

-- What the execution of a transaction that reaches `c` comes to, by its status and the storage before
-- and after: one that fails changes nothing, and one that succeeds has run the function. `none` is
-- no function of the contract; such a transaction fails, for the contract has no fallback function.
abbrev pub Ran :
    {R : Type 0} → Upgradeable R → Message → Option Call → Storage R → Bool → Storage R → Type 0
Ran u msg c s false s' = s' ≡ s
Ran u msg none s true s' = ⊥
Ran {R = R} u msg (some c) s true s' = (o : Outcome R) × (exec u c msg s ≡ ok o) × (s' ≡ o.storage)

-- The contract behind `bound`: `storage` is its storage at the head of the chain, `storage_at` that
-- at the block which the options choose.
pub record Deployed (g : Geth) {R : Type 0} (u : Upgradeable R) (verify : MerkleVerify)
    (bound : g.BoundContract) : Type 1 where
  pub storage : g.Chain → Storage R
  pub storage_at : g.CallOpts → g.Chain → Storage R
  -- the message of a transaction with these options when it is executed on a chain
  pub message : g.TransactOpts → g.Chain → Message
  -- The transaction has the options, and the calldata of the method and the arguments.
  pub Carries : g.TransactOpts → String → List Value → g.Transaction → Type 0
  -- Whether a transaction succeeds where a chain executes it, and the chain after that.
  pub execute : g.Transaction → g.Chain → Bool × g.Chain
  -- A call that can be encoded runs the function of its signature.
  pub call_lem :
      (opts : g.CallOpts) (name : String) (args : List Value) (chain : g.Chain)
      → well_typed name args ≡ true
      → all_fit args ≡ true
      → is_inherited name ≡ false
      → Answers
          (view_function verify name args (storage_at opts chain))
          (g.call bound opts [] name args chain)
  -- `Transact` only sends: the contract's storage stays what it is.
  pub transact_keeps :
      (opts : g.TransactOpts) (name : String) (args : List Value) (chain : g.Chain)
      → storage (g.transact bound opts name args chain).1 ≡ storage chain
  -- Without an error it returns the transaction that it has sent, and with one no transaction.
  pub transact_sent :
      (opts : g.TransactOpts) (name : String) (args : List Value) (chain : g.Chain)
      → (g.transact bound opts name args chain).0.1 ≡ none
      → (t : g.Transaction) × ((g.transact bound opts name args chain).0.0 ≡ some t)
        × Carries opts name args t
  pub transact_failed :
      (opts : g.TransactOpts) (name : String) (args : List Value) (chain : g.Chain) (e : g.Error)
      → (g.transact bound opts name args chain).0.1 ≡ some e
      → (g.transact bound opts name args chain).0.0 ≡ none
  -- A transaction, whenever it is executed, runs the function of its calldata or fails.
  pub execute_lem :
      (opts : g.TransactOpts) (name : String) (args : List Value) (t : g.Transaction)
      (chain : g.Chain)
      → Carries opts name args t
      → well_typed name args ≡ true
      → all_fit args ≡ true
      → is_inherited name ≡ false
      → Ran u
          (message opts chain)
          (function_call name args)
          (storage chain)
          (execute t chain).0
          (storage (execute t chain).1)
  -- Nothing is sent for a method that the ABI lacks, or for arguments of other types.
  pub transact_mistyped :
      (opts : g.TransactOpts) (name : String) (args : List Value) (chain : g.Chain)
      → well_typed name args ≡ false
      → (e : g.Error) × ((g.transact bound opts name args chain).0.1 ≡ some e)
  -- `abi.ConvertType` keeps a value that has the type already.
  pub convert_type_lem : (v : Value) (p : Proto) → proto_of v ≡ some p → g.convert_type v p ≡ some v
