-- ===== src/Node.antt =====
-- The node: its chain specifications and how the command line picks one.
pub mod Startup
pub mod Rpc
pub mod Service
pub mod Stages
pub mod Order
pub mod Panics
pub mod Command
pub mod Start
pub mod Reach
pub mod ChainSpec
pub mod Genesis
pub mod Main
