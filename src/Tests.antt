-- ===== src/Tests.antt =====
-- A concrete configuration, runs of the code on it, and the theorems at concrete inputs.
pub mod Mock
pub mod Samples
pub mod NodeMock
mod Runs
mod PalletWitnesses
mod OffchainWitnesses
mod NodeWitnesses
mod RuntimeWitnesses
mod ThreadWitnesses
mod ReportWitnesses
mod StartupWitnesses
mod ChainWitnesses
