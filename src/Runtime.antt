-- ===== src/Runtime.antt =====
-- What the runtime of runtime/src/lib.rs adds to the pallets that it is composed of.
pub mod Constants
pub mod Timing
pub mod Composition
pub mod Apis
pub mod Benchmarks
pub mod Transaction
pub mod Genesis
pub mod Testing
