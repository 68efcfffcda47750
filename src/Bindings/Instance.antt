-- ===== src/Bindings/Instance.antt =====
-- The types of bindings/BlobstreamX.go for an instance of the contract and its sessions, and the
-- functions that make them. A pointer to a bound contract may be nil.
use blobstreamx.Base.{ℕ, String, Option, none, some}
use blobstreamx.Bindings.Values.{Go, returned, or_panic, ◌>>=◌}
use blobstreamx.Bindings.Geth.{Geth}

module _ (g : Geth) where
  open g use {
    Chain, Error, CallOpts, TransactOpts, Transaction, Abi, BoundContract, ContractCaller,
    ContractTransactor, ContractFilterer,
  }

  pub record BlobstreamXCaller : Type 0 where
    pub contract : Option BoundContract

  pub record BlobstreamXTransactor : Type 0 where
    pub contract : Option BoundContract

  pub record BlobstreamXFilterer : Type 0 where
    pub contract : Option BoundContract

  pub record BlobstreamX : Type 0 where
    pub caller : BlobstreamXCaller
    pub transactor : BlobstreamXTransactor
    pub filterer : BlobstreamXFilterer

  pub record BlobstreamXSession : Type 0 where
    pub contract : BlobstreamX
    pub call_opts : CallOpts
    pub transact_opts : TransactOpts

  pub record BlobstreamXCallerSession : Type 0 where
    pub contract : BlobstreamXCaller
    pub call_opts : CallOpts

  pub record BlobstreamXTransactorSession : Type 0 where
    pub contract : BlobstreamXTransactor
    pub transact_opts : TransactOpts

  pub record BlobstreamXRaw : Type 0 where
    pub contract : BlobstreamX

  pub record BlobstreamXCallerRaw : Type 0 where
    pub contract : BlobstreamXCaller

  pub record BlobstreamXTransactorRaw : Type 0 where
    pub contract : BlobstreamXTransactor

  -- A `bind.ContractBackend` is the three interfaces together.
  abbrev pub ContractBackend : Type 0
  ContractBackend = ContractCaller × ContractTransactor × ContractFilterer

  -- Go's pair of a pointer and an error.
  abbrev pub OrError : Type 0 → Type 0
  OrError A = Option A × Option Error

  -- `&BlobstreamX{…}` with one bound contract behind all three faces.
  abbrev pub whole : Option BoundContract → BlobstreamX
  whole c = record {
    caller = record { contract = c };
    transactor = record { contract = c };
    filterer = record { contract = c };
  }

  -- `if err != nil { return nil, err }`, and else the wrapped contract.
  abbrev wrap : {A : Type 0} → (Option BoundContract → A) → OrError BoundContract → OrError A
  wrap f (contract, some e) = (none, some e)
  wrap f (contract, none) = (some (f contract), none)

  module _ (metadata_abi metadata_bin : String) where
    -- `*parsed` panics if `parsed` is nil.
    unfoldable pub bind_blobstreamx :
        ℕ
        → Option ContractCaller
        → Option ContractTransactor
        → Option ContractFilterer
        → Go (OrError BoundContract)
    bind_blobstreamx address caller transactor filterer =
        let (parsed, err) = g.get_abi metadata_abi in
        elim err [
          | some e ↦ returned (none, some e)
          | none ↦ do
            abi ← or_panic parsed
            returned (some (g.new_bound_contract address abi caller transactor filterer), none)
        ]

    unfoldable pub new_blobstreamx : ℕ → ContractBackend → Go (OrError BlobstreamX)
    unfolding bind_blobstreamx
    new_blobstreamx address (caller, transactor, filterer) = do
      bound ← bind_blobstreamx address (some caller) (some transactor) (some filterer)
      returned (wrap whole bound)

    unfoldable pub new_blobstreamx_caller : ℕ → ContractCaller → Go (OrError BlobstreamXCaller)
    unfolding bind_blobstreamx
    new_blobstreamx_caller address caller = do
      bound ← bind_blobstreamx address (some caller) none none
      returned (wrap (λ c. record { contract = c }) bound)

    unfoldable pub new_blobstreamx_transactor :
        ℕ → ContractTransactor → Go (OrError BlobstreamXTransactor)
    unfolding bind_blobstreamx
    new_blobstreamx_transactor address transactor = do
      bound ← bind_blobstreamx address none (some transactor) none
      returned (wrap (λ c. record { contract = c }) bound)

    unfoldable pub new_blobstreamx_filterer :
        ℕ → ContractFilterer → Go (OrError BlobstreamXFilterer)
    unfolding bind_blobstreamx
    new_blobstreamx_filterer address filterer = do
      bound ← bind_blobstreamx address none none (some filterer)
      returned (wrap (λ c. record { contract = c }) bound)

    -- The address, the transaction, the instance and the error, and the chain afterwards.
    unfoldable pub deploy_blobstreamx :
        TransactOpts
        → ContractBackend
        → Chain
        → (ℕ × Option Transaction × OrError BlobstreamX) × Chain
    deploy_blobstreamx auth backend chain =
        let (parsed, err) = g.get_abi metadata_abi in
        elim err [
          | some e ↦ ((0, none, (none, some e)), chain)
          | none ↦ elim parsed [
            | none ↦ ((0, none, (none, some (g.new_error "GetABI returned nil"))), chain)
            | some abi ↦
                let ((address, tx, contract, failure), chain') =
                  g.deploy_contract auth abi (g.from_hex metadata_bin) backend chain in
                (
                  elim failure [
                    | some e ↦ (0, none, (none, some e))
                    | none ↦ (address, tx, (some (whole contract), none))
                  ],
                  chain',
                )
          ]
        ]
