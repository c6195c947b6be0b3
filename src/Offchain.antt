-- ===== src/Offchain.antt =====
-- The off-chain worker of the pallet: local storage, http requests, the delegate and task modules
-- of pallets/abc-demo/src, and the functions of lib.rs that run after each block.
pub mod Text
pub mod World
pub mod Storage
pub mod Http
pub mod Delegate
pub mod Locking
pub mod Task
pub mod Fetching
pub mod Signing
pub mod Threads
pub mod Worker
