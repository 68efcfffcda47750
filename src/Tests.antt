-- ===== src/Tests.antt =====
-- Runs at concrete inputs, and each theorem at an input that meets its hypotheses.
pub mod ContractRuns
pub mod Simulated
pub mod BindingRuns
pub mod CircuitRuns
pub mod EventRuns
pub mod Prover
pub mod LightClientRuns
pub mod LimitRuns
pub mod DeployRuns
pub mod OperatorRuns
pub mod Headers
pub mod InputRuns
pub mod SystemRuns
