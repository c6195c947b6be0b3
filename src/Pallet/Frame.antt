-- ===== src/Pallet/Frame.antt =====
-- What each call leaves alone: the part of the storage that holds the errands, and the part that
-- holds the tasks and their fees.
use substrate_demo.Prelude.{
  inl, inr, Result-cases, nat_eq, none, some, ℕ, ◌≡◌, refl, List, [], ◌∷◌, Bytes, arith,
}
use substrate_demo.Prelude.StorageMap
use substrate_demo.Prelude.StorageMap.{StorageMap}
use substrate_demo.Pallet.Types.{TaskInfo, Cid, ErrandId, DelegatorName, NetAddress}
use substrate_demo.Pallet.Books.{errand_book, task_book}
use substrate_demo.Pallet.Config.{Trait}
use substrate_demo.Pallet.Store.{Store}
use substrate_demo.Pallet.Delegation.{request_delegate, update_delegate_status, unreserve}
use substrate_demo.Pallet.Tasks.{ensure_fresh, reserve_fee, queue_task, begin_task, init_errand}
use substrate_demo.Pallet.Results.{add_completed, update_errand}
use substrate_demo.Pallet.Errands.{update_errand_result, pay_delegate}

module _ (T : Trait) (o : T.Origin) (s : Store T) where
  pub request_delegate-errand_book :
      (n : DelegatorName) (a : NetAddress)
      → errand_book (request_delegate T o n a s).1 ≡ errand_book s
  unfolding request_delegate
  request_delegate-errand_book n a = ground arith

  pub request_delegate-task_book :
      (n : DelegatorName) (a : NetAddress) → task_book (request_delegate T o n a s).1 ≡ task_book s
  unfolding request_delegate
  request_delegate-task_book n a = ground arith

  pub update_delegate_status-errand_book :
      (a : T.AccountId) → errand_book (update_delegate_status T o a s).1 ≡ errand_book s
  unfolding update_delegate_status
  update_delegate_status-errand_book a = ground arith

  pub update_delegate_status-task_book :
      (a : T.AccountId) → task_book (update_delegate_status T o a s).1 ≡ task_book s
  unfolding update_delegate_status
  update_delegate_status-task_book a = ground arith

  pub unreserve-errand_book :
      (n : DelegatorName) (a : T.AccountId) → errand_book (unreserve T o n a s).1 ≡ errand_book s
  unfolding unreserve
  unreserve-errand_book n a = refl

module _ (T : Trait) where
  pub ensure_fresh-state :
      (c : Cid) (ts : List TaskInfo) (s : Store T) → (ensure_fresh T c ts s).1 ≡ s
  unfolding ensure_fresh
  ensure_fresh-state c [] s = refl
  ensure_fresh-state c (t ∷ ts) s = ground (arith, ensure_fresh-state c ts s)

  reserve_fee-errand_book :
      (a : T.AccountId) (f : ℕ) (s : Store T) → errand_book (reserve_fee T a f s).1 ≡ errand_book s
  unfolding reserve_fee
  reserve_fee-errand_book a f s = ground arith

  queue_task-errand_book :
      (a : T.AccountId) (t : TaskInfo) (c : Cid) (f n : ℕ) (s : Store T)
      → errand_book (queue_task T a t c f n s).1 ≡ errand_book s
  unfolding queue_task reserve_fee
  queue_task-errand_book a t c f n s = ground (
    arith,
    ensure_fresh-state c (elim (s.tasks n) [ none ↦ [] | some v ↦ v ])
        (record s { tasks = StorageMap.remove n s.tasks }),
  )

  pub begin_task-errand_book :
      (o : T.Origin) (n : DelegatorName) (c : Cid) (f : ℕ) (s : Store T)
      → errand_book (begin_task T o n c f s).1 ≡ errand_book s
  unfolding begin_task
  begin_task-errand_book o n c f s = grind (arith, queue_task-errand_book)

  pub init_errand-task_book :
      (o : T.Origin) (a : T.AccountId) (i : ErrandId) (c : Cid) (s : Store T)
      → task_book (init_errand T o a i c s).1 ≡ task_book s
  unfolding init_errand
  init_errand-task_book o a i c s = ground arith

  pub update_errand_result-task_book :
      (c : Cid) (r : Bytes) (s : Store T) → task_book (update_errand_result c r s) ≡ task_book s
  unfolding update_errand_result pay_delegate
  update_errand_result-task_book c r s = ground arith

  pub update_errand-task_book :
      (o : T.Origin) (c : Cid) (r : Bytes) (s : Store T)
      → task_book (update_errand T o c r s).1 ≡ task_book s
  unfolding update_errand add_completed
  update_errand-task_book o c r s = elim (Result-cases (T.ensure_signed o)) [
    | inl (e, refused) ↦ rw refused
    | inr (a, sent) ↦ ground (
      arith,
      sent,
      update_errand_result-task_book c r s,
      update_errand_result-task_book c r (add_completed T c a s),
    )
  ]
