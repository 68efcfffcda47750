-- ===== src/Onchain.antt =====
-- The Go package of bindings/BlobstreamX.go in front of the contract of
-- contracts/src/BlobstreamX.sol: which function a call of the package reaches, and what is assumed
-- of go-ethereum and of the chain in between.
pub mod Dispatch
pub mod Deployed
pub mod Reads
pub mod Writes
pub mod Instances
pub mod Attested
pub mod Committed
pub mod Stale
