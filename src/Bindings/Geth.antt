-- ===== src/Bindings/Geth.antt =====
-- What bindings/BlobstreamX.go takes from go-ethereum: a parameter of the model. The packages are
-- `accounts/abi`, `accounts/abi/bind`, `common` and `core/types`, with the chain behind a backend.
use blobstreamx.Base.{ℕ, String, Option, List}
use blobstreamx.Base.Bytes.{Bytes}
use blobstreamx.Bindings.Values.{Value, Proto}

-- A channel of logs, and the error channel of its subscription, as a receiver finds them: the logs
-- that wait in order of arrival, and what a receive from the error channel gives if it is ready,
-- where nil is `some none`.
pub record Feed (Log Error : Type 0) : Type 0 where
  pub logs : List Log
  pub ended : Option (Option Error)

pub record Geth : Type 1 where
  -- the chain, as a backend sees it
  pub Chain : Type 0
  pub Error : Type 0
  pub CallOpts : Type 0
  pub TransactOpts : Type 0
  pub FilterOpts : Type 0
  pub WatchOpts : Type 0
  pub Transaction : Type 0
  pub Log : Type 0
  pub Abi : Type 0
  -- `*bind.BoundContract`
  pub BoundContract : Type 0
  pub ContractCaller : Type 0
  pub ContractTransactor : Type 0
  pub ContractFilterer : Type 0
  -- `errors.New`
  pub new_error : String → Error
  -- `MetaData.GetAbi`
  pub get_abi : String → Option Abi × Option Error
  -- `common.FromHex`
  pub from_hex : String → Bytes
  -- `bind.NewBoundContract`; a backend that is not given is nil
  pub new_bound_contract :
      ℕ
      → Abi
      → Option ContractCaller
      → Option ContractTransactor
      → Option ContractFilterer
      → BoundContract
  -- `bind.DeployContract`: the address, the transaction, the contract and the error
  pub deploy_contract :
      TransactOpts
      → Abi
      → Bytes
      → ContractCaller × ContractTransactor × ContractFilterer
      → Chain
      → (ℕ × Option Transaction × Option BoundContract × Option Error) × Chain
  -- `BoundContract.Call`: the new content of `*results`, and the error
  pub call :
      BoundContract
      → CallOpts
      → List Value
      → String
      → List Value
      → Chain
      → List Value × Option Error
  -- `BoundContract.Transact`
  pub transact :
      BoundContract
      → TransactOpts
      → String
      → List Value
      → Chain
      → (Option Transaction × Option Error) × Chain
  -- `BoundContract.Transfer`
  pub transfer : BoundContract → TransactOpts → Chain → (Option Transaction × Option Error) × Chain
  -- `abi.ConvertType`; `none` is a panic
  pub convert_type : Value → Proto → Option Value
  -- `BoundContract.FilterLogs`: the channel of logs with its subscription, and the error
  pub filter_logs :
      BoundContract
      → FilterOpts
      → String
      → List (List Value)
      → Chain
      → Feed Log Error × Option Error
  -- `BoundContract.WatchLogs`
  pub watch_logs :
      BoundContract → WatchOpts → String → List (List Value) → Chain → Feed Log Error × Option Error
  -- `BoundContract.UnpackLog` into a new struct: what it has filled in, and the error
  pub unpack_log : (E : Type 0) → BoundContract → E → String → Log → E × Option Error
