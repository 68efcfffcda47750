-- ===== src/Lib.antt =====
-- BlobstreamX is a light client of a Celestia chain on Ethereum. The contract
-- contracts/src/BlobstreamX.sol keeps the latest header and a list of data commitments, one for
-- each range of blocks; anyone asks it for a range (`requestHeaderRange`, `requestNextHeader`),
-- a gateway outside the repository runs the circuits of circuits/ and calls back
-- (`commitHeaderRange`, `commitNextHeader`), and users check data roots (`verifyAttestation`).
-- The package bindings/BlobstreamX.go is how Go programs reach it: read methods, paid methods,
-- and for each event a filter with an iterator, a watch and a parser.
--
-- Base is what the library shares: lists, integers and bytes over native numbers.
--
-- Contract is contracts/src/BlobstreamX.sol with contracts/src/interfaces/IBlobstreamX.sol. One
-- function stands for each function of the source, by its name: it takes the message (sender,
-- value and the gateway as this transaction finds it) and the storage, and returns a new storage
-- with the logs and the requests, or reverts with the error. Contract.Types has the storage, one
-- field for each state variable; Contract.Abi the encodings of circuit inputs, proof results and
-- data root tuples; Contract.Transactions the calls as data, and histories of them, in which a
-- call that reverts changes nothing. The proofs are in Contract.Commits (one commit),
-- Contract.History (the blocks that the commits of a history cover), Contract.Attestations (what
-- a history leaves for `verifyAttestation`), Contract.Requests (a request and its callback),
-- Contract.Widths (the integer types of the storage), Contract.Frozen (a frozen contract) and
-- Contract.Rollback (`updateGenesisState`).
--
-- Circuits is circuits/builder.rs, as functions on the values of the wires; `none` says that an
-- assertion fails, and the gadgets of the proving library are a parameter. `verify_block` is one
-- round of the loop of `prove_subchain`, and `reduce` the reduce stage of
-- `prove_data_commitment`. Circuits.DataCommitment has the map stage and `prove_data_commitment`
-- itself, Circuits.Programs the circuits of circuits/header_range.rs, circuits/next_header.rs
-- and circuits/data_commitment.rs from input bytes to output bytes, and Circuits.Merkle the tree
-- of Tendermint, as a reference for the roots. Circuits.Chain and Circuits.Soundness are about
-- `prove_subchain`, Circuits.Reduction about the reduce stage, Circuits.DataCommitment with its
-- children Ranges, Leaves, Segments and Whole about the whole tree, Circuits.Programs.Soundness
-- and Circuits.Programs.Standalone about the outputs as the contract decodes them,
-- Circuits.Programs.Acceptance about the inputs for which there are outputs,
-- Circuits.Completeness with its children Roots, Batches, Joins and Whole about what the circuit
-- accepts and with which root, Circuits.Tuples about the encoding that circuits and contract
-- share, and Circuits.Entrypoints has the circuits at the sizes of the programs of bin/ with the
-- configurations of circuits/config.rs, and Circuits.Entrypoints.Range their ranges.
--
-- Inputs is what the circuits' hint fetches: `get_signed_header_range`, `get_data_commitment`
-- and `get_data_commitment_inputs` of circuits/input.rs and the hint of
-- circuits/data_commitment.rs, over a record of the functions of the RPC client; a panic is
-- `none`. Inputs.Fetched says what is fetched, Inputs.Shape how long its arrays are,
-- Inputs.Supplied what the arrays are for a chain that the source knows, and Inputs.Accepted
-- that the circuit accepts them.
--
-- LightClient joins the contract to the circuits behind its gateway: LightClient.Commits is
-- about one commit, LightClient.History about histories, and LightClient.Limits about requests
-- that the programs of bin/ cannot answer.
--
-- Operator is the loop of bin/blobstreamx.rs, one round for each time that it wakes up, as a
-- function of what its clients answer. Operator.Targets is about the blocks that it asks for,
-- Operator.Progress about when it asks at all, and Operator.Requests about its requests against
-- the contract.
--
-- Deploy is the script contracts/script/Deploy.s.sol, over the values of its environment
-- variables, the storage of a new proxy and that of the existing contract; `upgradeTo` is an
-- argument.
--
-- System puts the parts together: a turn is a round of the operator and the transaction that a
-- request of it ends in, with the circuits behind the gateway. System.Deployed is about the
-- contract that the script leaves, System.Proofs about the circuits that answer such a request,
-- and System.Progress about the block that the contract reaches and the commitments that it
-- stores.
--
-- Bindings is bindings/BlobstreamX.go. Bindings.Geth is go-ethereum as a parameter: a record of
-- the functions that the package calls, over a chain of any type. Bindings.Values has the Go
-- structs, `interface{}` values and panics; Bindings.Metadata the methods of
-- `BlobstreamXMetaData.ABI`; Bindings.Instance the structs and constructors; Bindings.Raw the
-- raw methods. Bindings.Caller, Bindings.Transactor, Bindings.Session, Bindings.CallerSession
-- and Bindings.TransactorSession have one function for each Go method of these types.
-- Bindings.Iterator is the code that the thirteen iterators repeat, Bindings.Watch the goroutine
-- that the thirteen watches repeat, as a step relation, and Bindings.Filterer the rest of the
-- filters, watches and parsers; one module for each event under Bindings.Events applies them to
-- its struct, its name and its indexed arguments.
--
-- Onchain joins the package to the contract: Onchain.Dispatch reads a method's name and
-- arguments as a function of the contract, Onchain.Deployed says what is assumed of go-ethereum
-- and of a chain where the contract is deployed, and Onchain.Reads, Onchain.Attested,
-- Onchain.Writes, Onchain.Instances, Onchain.Committed and Onchain.Stale say what the package's
-- methods then do. Tests runs all of this at concrete inputs; Tests.Simulated is a go-ethereum
-- and a chain that meet the assumptions of Onchain.Deployed, and Tests.Prover is a proving
-- library that meets those of Circuits.
--
-- Numbers. Addresses, `bytes32` and unsigned integers are natural numbers. The contract's
-- additions are checked at 64 and 256 bits, as Solidity 0.8 checks them, and its one subtraction
-- is made only above the latest block. The circuits' `U64Variable`s wrap at 64 bits, and so do
-- the `u64`s of the fetcher and the operator, as in a release build. The arguments of `uint64`
-- and `bytes32` type are not bounded, except where a theorem says so. A `*big.Int` of the
-- package is an integer that is never nil.
--
-- Fuel. The loop `collect` over an iterator has one unit of fuel for each call of `Next`; its
-- theorems give it one unit more than there are logs, and show that the loop has ended. The loop
-- `get_signed_headers` over batches has one unit more than there are blocks, which is enough
-- where the end block is 200 below 2 ^ 64; above that the source's loop need not end, and the
-- model gives `none`.
--
-- Parameters. The gateway's answers, `TimelockedUpgradeable` (the test of `onlyGuardian`, and
-- the `initializer` modifier), `BinaryMerkleTree.verify` and go-ethereum are arguments. The
-- gateway does not call the contract back within `requestCall`. In Onchain a transaction is
-- executed some time after it was sent, on any later chain, and fails there or runs the function
-- of its calldata; the functions that the contract inherits are left out. Of the proving
-- library, the gadgets, `mapreduce` and the reading and writing of bytes are arguments, with the
-- laws that mapreduce reduces the halves of a tree, that hashes have 256 bits and that arrays
-- have their length; `skip` and `step` of tendermintx are arguments, and a step is assumed to go
-- to a header that names the previous one. What the circuits prove holds for any hint; what they
-- accept is shown for a hint that supplies the proofs of a chain. `NB_MAP_JOBS` and `BATCH_SIZE`
-- are powers of two. The operator's `find_block_to_request` and its RPC clients are arguments,
-- and a request that it makes is answered while the contract is as it was read. That the
-- services around the system do their work is the record `Works` of System.
--
-- Not modelled. The JSON, the fixtures and the retries of the fetcher, the registration of
-- generators in circuits/, the programs bin/fetch.rs, bin/genesis.rs and bin/local_relay.rs,
-- which print or relay what a client returns, the entry point of the proving library, and the
-- environment variables and the logging of the operator are not part of this library. That a
-- proof convinces only of an accepted circuit is a matter of the proving system: the gateway is
-- assumed to answer with outputs of the circuits where a theorem says so. What the library shows
-- of Merkle roots is which ones are compared; that equal roots have equal leaves is a matter of
-- the hash function. The script contracts/script/UpdateFunctionIds.sol, the shell scripts, the
-- tests and the fixtures hold no logic of the program. The bytecode in `BlobstreamXMetaData.Bin`
-- is an argument of the constructors. Memory that the iterators and the goroutines share with
-- other goroutines is only what their channels carry.
pub mod Base
pub mod Contract
pub mod Deploy
pub mod LightClient
pub mod Inputs
pub mod Operator
pub mod System
pub mod Bindings
pub mod Circuits
pub mod Onchain
pub mod Tests
