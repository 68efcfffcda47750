-- ===== src/Bindings/Events.antt =====
-- The events of bindings/BlobstreamX.go: the struct, the iterator and the functions of each.
pub mod AdminChanged
pub mod BeaconUpgraded
pub mod DataCommitmentStored
pub mod HeadUpdate
pub mod HeaderRangeRequested
pub mod Initialized
pub mod NextHeaderRequested
pub mod RoleAdminChanged
pub mod RoleGranted
pub mod RoleRevoked
pub mod SkipRequested
pub mod StepRequested
pub mod Upgraded
