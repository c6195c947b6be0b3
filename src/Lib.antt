-- ===== src/Lib.antt =====
-- A substrate chain on which clients commission errands: a client reserves a fee for a task, a
-- delegate that has registered a machine initialises it as an errand, listed accounts report its
-- result, and the fee goes to the delegate. This library models the pallet that keeps the books
-- (pallets/abc-demo/src), its off-chain worker with the runs that share the storage of a node, the
-- chain specifications, the start and the command line of the node, and the transactions of the
-- runtime, and proves what they do.
--
-- Parts and files. Names are those of the source; a call `f` of the pallet is the function `f`.
--
-- - Prelude: tests, equality, lists, `StorageMap`, and the monad of fallible code over a state. Its
--   state comes back with an error too, because a call that fails late keeps what it has written.
-- - Pallet, of pallets/abc-demo/src/lib.rs: Types (the data, events, errors and calls), Config (the
--   configuration trait, with the laws of the currency, the codec and the origins), Store
--   (`decl_storage!` and the genesis), Accounts, Errands, Delegation, Tasks and Results (the helpers
--   and the calls). Call is the dispatch of one call, `Step` a dispatch from a storage, and `Reach`
--   any number of them, with the block number, the seed and the balances changing in between. Chain
--   runs the entries of a chain, which are calls and starts of blocks, and lists the results. Books
--   holds the abstract view, `ErrandBook` and `TaskBook`, with the few steps that they can make; the
--   other modules are the proofs: Frame, Branches, Queue and Begin on single calls, Refines on the abstract view, Invariant, TaskInvariant and Genesis on reachable
--   storages, Authority, Payment, Voting and Lifecycle on who may do what, who pays, how results are
--   accepted and how an errand ends, Potential (with the sums of Weights) and Settled on sequences of
--   reports, Reward on what a delegate is paid, Conservation (with the sums of Sums), Parties (with
--   Owners) and Money on the money of all accounts, and OrderFree (with AnyOrder) on the order in
--   which the open errands are listed.
-- - Offchain: Text (strings by their bytes, and the check of UTF-8), World (what the worker takes
--   from crates: local storage, http, parsers, keystore and signer), Storage (storage.rs and
--   error.rs, with `anyhow::Error` as what the code wraps in it), Http (http.rs), Delegate (delegate.rs), Task (task.rs), Signing and Worker (the
--   functions of lib.rs that run after each block, as built with the feature `std`). Proofs are in
--   Locking, Fetching, and Worker/Applications, Worker/Registration, Worker/Sending,
--   Worker/Initialising, Worker/Reports, Worker/Reporting, Worker/Querying, Worker/Isolation and
--   Worker/Round, where a run of the whole worker meets the calls of the pallet.
-- - Offchain/Threads: the runs of the worker that share the stored results and their lock. A run is
--   a program counter (`Pc`), `advance` one step of it with at most one access to the storage, and
--   Threads/System any number of runs in any interleaving. Threads/Moves is the abstract view of one
--   step, Threads/Refines shows that the code does such steps, Threads/Invariant and Threads/Safety
--   are about all interleavings, and Threads/Alone about one run by itself.
-- - Node: ChainSpec (node/src/chain_spec.rs, and `load_spec` of node/src/command.rs), with the proofs
--   in Genesis; a panic of `expect` is `none` there. Startup (what the node asks of the framework: a
--   call is a `Request` with its arguments, and is logged), Rpc (node/src/rpc.rs), Service
--   (node/src/service.rs) and Command (node/src/cli.rs, and `run` of node/src/command.rs), with the
--   proofs in Stages, Order, Panics, Start and Reach; Main, node/src/main.rs and what `SubstrateCli`
--   tells about the program.
-- - Runtime, of runtime/src/lib.rs: Constants (the version, time by blocks and the limits of a
--   block), Timing (the worker's rhythm in that time), Composition (the table of pallets), Apis and
--   Benchmarks (the functions of `impl_runtime_apis!`) and Transaction (`create_transaction`). Genesis
--   is runtime/src/genesis.rs beside the development specification of the node, and Testing the
--   runtime of pallets/abc-demo/src/mock.rs.
-- - Tests: concrete configurations that keep all laws, runs of the code on them, and the theorems at
--   concrete inputs.
--
-- How the parts interact. The calls change the storage of the chain (`Store`). The worker reads the
-- storage of the block (`Node`), writes the local storage of its node (`World`), talks to the
-- delegates' machines over http, and gives calls to a signer; `submitted` is the log of these calls
-- in their order. They come back to the pallet as calls of a later block, through `dispatch`. A run
-- of the worker starts after each block, and an earlier one may still be waiting for an answer, so
-- the runs of a node are threads over its local storage. The command line builds the parts of the
-- node that a subcommand needs, or starts the node with its worker.
--
-- Numbers. Fees, balances, block numbers and lengths are natural numbers: the code of the pallet adds
-- and subtracts none of them itself, the currency does, and its laws are stated without overflow.
-- The currency has a minimum balance, the existential deposit, which is 500 in the runtime; what a
-- payer keeps below it may be taken away with the payer's account, and is destroyed, because the
-- runtime handles dust by `()`. The laws leave open whether that happens, and say what it does.
-- `saturating_sub` is the subtraction that stops at zero. The block number of the runtime has 32
-- bits, so the conversions to 64 bits in the worker and in `create_transaction` do not fail. All
-- loops are structural recursion over lists, so there is no fuel; `advance_many` counts the steps of
-- a run.
--
-- Parameters. The currency, the encoding of accounts, hashing and the uuid crate, the origin, the
-- local storage, http, the JSON parsers, base64, hex and protobuf encodings, the keystore, the signer,
-- key derivation, payloads, eras and signatures, the parts that a node is made of and the runner of
-- the command line, fractions of `Perbill`, the executive, the modules of the other pallets and the
-- benchmarks are not in the repository. They are fields of `Trait`, `Offchain`, `Crypto`, `Signing`,
-- `SignedPayload`, `Handles`, `Framework`, `Shell`, `BuildEnv`, `Fractions`, `Modules`,
-- `Benchmarking` and `TestGenesis`; what theorems need of them are the laws of `IsLawful`,
-- `IsLawfulStorage`, `IsQuietSigner` (a signer leaves the results and the lock alone),
-- `IsLawfulPayload`, `IsLawfulShell`, `IsLawfulFractions` and `IsLawfulBenchmarking`. `mutate` of the
-- local storage may lose against another thread, but where a theorem asks for `IsUncontended` or for
-- a lock that is taken.
--
-- An `AccountId32` stands for its 32 bytes. Not modelled: log lines (but for the conversion that one evaluates in `send_task_internal`), the
-- texts of errors of crates, weights and transaction fees of calls, the crypto module, the telemetry
-- and the registry of metrics of a node, what `construct_runtime!` generates from its table, the
-- configuration traits, which name types of the framework, build scripts, and the tests, which call
-- the pallet with arguments that it no longer takes. The writes of the worker to the storage of the
-- chain are seen by the rest of the same run; what the framework does with them afterwards is left
-- open.
pub mod Prelude
pub mod Pallet
pub mod Offchain
pub mod Node
pub mod Runtime
pub mod Tests
