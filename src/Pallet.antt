-- ===== src/Pallet.antt =====
-- The pallet of pallets/abc-demo/src/lib.rs: its data, its configuration, its storage, the
-- dispatchable calls with their helpers, and the proofs about them.
pub mod Types
pub mod Config
pub mod Store
pub mod Accounts
pub mod Errands
pub mod Delegation
pub mod Tasks
pub mod Results
pub mod Call
pub mod Books
pub mod Frame
pub mod Branches
pub mod Queue
pub mod Begin
pub mod Refines
pub mod Invariant
pub mod TaskInvariant
pub mod Authority
pub mod Payment
pub mod Voting
pub mod Weights
pub mod Potential
pub mod Settled
pub mod Sums
pub mod Conservation
pub mod AnyOrder
pub mod Chain
pub mod OrderFree
pub mod Owners
pub mod Parties
pub mod Money
pub mod Reward
pub mod Genesis
pub mod Lifecycle
