-- ===== src/Offchain/Worker.antt =====
-- `offchain_worker` of pallets/abc-demo/src/lib.rs and the functions that it runs after each block,
-- as built with the feature `std`.
pub mod Apply
pub mod Results
pub mod Send
pub mod Sending
pub mod Initialising
pub mod Isolation
pub mod Entry
pub mod Reports
pub mod Reporting
pub mod Querying
pub mod Applications
pub mod Registration
pub mod Round
