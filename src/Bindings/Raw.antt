-- ===== src/Bindings/Raw.antt =====
-- The raw access of bindings/BlobstreamX.go: any method by its name.
use blobstreamx.Base.{String, Option, List}
use blobstreamx.Bindings.Values.{Value, Go, returned, ◌>>=◌, or_panic}
use blobstreamx.Bindings.Geth.{Geth}
use blobstreamx.Bindings.Instance.{
  BlobstreamXRaw, BlobstreamXCallerRaw, BlobstreamXTransactorRaw, OrError,
}

module _ (g : Geth) where
  open g use {Chain, Error, CallOpts, TransactOpts, Transaction}

  -- The new content of `*result`, and the error.
  unfoldable pub raw_call :
      BlobstreamXRaw g
      → CallOpts
      → List Value
      → String
      → List Value
      → Chain
      → Go (List Value × Option Error)
  raw_call b opts result method params chain = do
    contract ← or_panic b.contract.caller.contract
    returned (g.call contract opts result method params chain)

  unfoldable pub raw_transfer :
      BlobstreamXRaw g → TransactOpts → Chain → Go (OrError g Transaction × Chain)
  raw_transfer b opts chain = do
    contract ← or_panic b.contract.transactor.contract
    returned (g.transfer contract opts chain)

  unfoldable pub raw_transact :
      BlobstreamXRaw g
      → TransactOpts
      → String
      → List Value
      → Chain
      → Go (OrError g Transaction × Chain)
  raw_transact b opts method params chain = do
    contract ← or_panic b.contract.transactor.contract
    returned (g.transact contract opts method params chain)

  unfoldable pub caller_raw_call :
      BlobstreamXCallerRaw g
      → CallOpts
      → List Value
      → String
      → List Value
      → Chain
      → Go (List Value × Option Error)
  caller_raw_call b opts result method params chain = do
    contract ← or_panic b.contract.contract
    returned (g.call contract opts result method params chain)

  unfoldable pub transactor_raw_transfer :
      BlobstreamXTransactorRaw g → TransactOpts → Chain → Go (OrError g Transaction × Chain)
  transactor_raw_transfer b opts chain = do
    contract ← or_panic b.contract.contract
    returned (g.transfer contract opts chain)

  unfoldable pub transactor_raw_transact :
      BlobstreamXTransactorRaw g
      → TransactOpts
      → String
      → List Value
      → Chain
      → Go (OrError g Transaction × Chain)
  transactor_raw_transact b opts method params chain = do
    contract ← or_panic b.contract.contract
    returned (g.transact contract opts method params chain)
