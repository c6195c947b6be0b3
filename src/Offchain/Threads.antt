-- ===== src/Offchain/Threads.antt =====
-- The runs of the worker that share the results in the local storage of a node: a run is started
-- after each block, and an earlier one may still be waiting for an answer. Here the code between
-- the accesses to the storage is one step: `fetch_errand_result_info` of
-- pallets/abc-demo/src/task.rs from its call of `operate_local_storage` on, and
-- `load_tasks_results_info` of pallets/abc-demo/src/lib.rs.
use substrate_demo.Prelude.{
  ℕ, zero, suc, ◌≡◌, Bool, true, false, Option, none, some, List, [], ◌∷◌, ◌++◌, nat_eq, ◌==◌,
  Result, ok, err, if◌then◌else◌,
}
use substrate_demo.Pallet.Types.{Cid, ErrandResultInfo, Call, local_storage_error}
use substrate_demo.Pallet.Config.{Trait}
use substrate_demo.Offchain.World.{Offchain, TaskResults}
use substrate_demo.Offchain.Storage.{
  storage_locked, with_key, acquire, local_storage_tasks_results_key,
  local_storage_tasks_results_lock,
}
use substrate_demo.Offchain.Signing.{Node, update_single_errand}
pub mod Moves
pub mod Alone
pub mod Invariant
pub mod System
pub mod Refines
pub mod Safety

-- Where a run stands, with what it has read.
pub data Pc : Type 0 where
  adding : Cid × ErrandResultInfo → Pc  -- before `lock.mutate` in `operate_local_storage`
  add_locked : Cid × ErrandResultInfo → Pc  -- before `value_ref.get` in the closure
  add_read : TaskResults → Cid × ErrandResultInfo → Pc  -- before `value_ref.set` in the closure
  draining : Pc  -- before `lock.mutate` in `load_tasks_results_info`
  drain_locked : Pc  -- before `value_ref.get`
  drain_read : TaskResults → Pc  -- in the loop, with the results that are not sent yet
  unlocking : Pc  -- before `lock.set(&false)`
  ended : Pc

abbrev pub stored_or_none : Option (Option TaskResults) → TaskResults
stored_or_none (some (some results)) = results
stored_or_none (some none) = []
stored_or_none none = []

-- `Ok(true)` is the answer of `mutate` that a run goes on with.
abbrev pub taken_or_ended : {E : Type 0} → Pc → Result E (Result Bool Bool) → Pc
taken_or_ended pc (ok (ok true)) = pc
taken_or_ended pc (ok (ok false)) = ended
taken_or_ended pc (ok (err _)) = ended
taken_or_ended pc (err _) = ended

-- The `match` on the results that `load_tasks_results_info` reads.
abbrev pub drain_or_unlock : Option (Option TaskResults) → Pc
drain_or_unlock (some (some results)) = drain_read results
drain_or_unlock (some none) = unlocking
drain_or_unlock none = unlocking

abbrev pub update : (ℕ → Pc) → ℕ → Pc → ℕ → Pc
update pcs i pc j = if j == i then pc else pcs j

module _ {T : Trait} (O : Offchain T) where
  abbrev pub attempt : {E : Type 0} → E → Pc → Node O → Pc × Node O
  attempt e pc n =
      let (res, w) = O.mutate O.bool_codec local_storage_tasks_results_lock (acquire e) n.world in
      (taken_or_ended pc res, record n { world = w })

  -- One step of one run.
  unfoldable pub advance : Pc → Node O → Pc × Node O
  advance (adding e) n =
      attempt (with_key local_storage_tasks_results_key storage_locked) (add_locked e) n
  advance (add_locked e) n = (
    add_read (stored_or_none (O.get O.results_codec local_storage_tasks_results_key n.world)) e,
    n,
  )
  advance (add_read results e) n = (
    unlocking,
    record n {
      world = O.set O.results_codec local_storage_tasks_results_key (results ++ e ∷ []) n.world;
    },
  )
  advance draining n = attempt local_storage_error drain_locked n
  advance drain_locked n =
      (drain_or_unlock (O.get O.results_codec local_storage_tasks_results_key n.world), n)
  advance (drain_read []) n = (
    unlocking,
    record n { world = O.set O.results_codec local_storage_tasks_results_key [] n.world },
  )
  advance (drain_read ((cid, info) ∷ results)) n =
      (drain_read results, update_single_errand O none info.result_cid cid n)
  advance unlocking n = (
    ended,
    record n { world = O.set O.bool_codec local_storage_tasks_results_lock false n.world },
  )
  advance ended n = (ended, n)

  -- A number of steps of one run, with no other run in between.
  unfoldable pub advance_many : ℕ → Pc → Node O → Pc × Node O
  advance_many zero pc n = (pc, n)
  advance_many (suc k) pc n = let (pc', n') = advance pc n in advance_many k pc' n'
