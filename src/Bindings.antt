-- ===== src/Bindings.antt =====
-- The Go package of bindings/BlobstreamX.go: a contract's methods and events as Go functions, over
-- the `bind` package of go-ethereum.
pub mod Values
pub mod Geth
pub mod Instance
pub mod Metadata
pub mod Caller
pub mod Transactor
pub mod Session
pub mod CallerSession
pub mod TransactorSession
pub mod Raw
pub mod Iterator
pub mod Watch
pub mod Filterer
pub mod Events
