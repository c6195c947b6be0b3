-- ===== src/Offchain/Worker/Entry.antt =====
-- `offchain_worker` of pallets/abc-demo/src/lib.rs: the four parts in their order.
use substrate_demo.Prelude.{ℕ, ◌≡◌, false, arith}
use substrate_demo.Pallet.Config.{Trait}
use substrate_demo.Offchain.World.{Offchain}
use substrate_demo.Offchain.Signing.{Node}
use substrate_demo.Offchain.Worker.Apply.{apply_delegates}
use substrate_demo.Offchain.Worker.Send.{send_errand_tasks}
use substrate_demo.Offchain.Worker.Results.{query_errand_task_results, update_errand_task_results}

module _ {T : Trait} (O : Offchain T) where
  unfoldable pub offchain_worker : ℕ → Node O → Node O
  offchain_worker block_number n = update_errand_task_results O (
      query_errand_task_results O block_number
        (send_errand_tasks O block_number (apply_delegates O block_number n)))

  -- A node that has no key to sign with does nothing: no request, no call, no write.
  offchain_worker_unsigned :
      (block_number : ℕ) (n : Node O)
      → O.can_sign n.world ≡ false
      → offchain_worker block_number n ≡ n
  unfolding offchain_worker apply_delegates send_errand_tasks query_errand_task_results
      update_errand_task_results
  offchain_worker_unsigned block_number n h = ground arith
