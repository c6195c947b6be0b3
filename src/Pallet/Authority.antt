-- ===== src/Pallet/Authority.antt =====
-- Who can change what: the signatures that the calls ask for, and the one that asks for none.
use substrate_demo.Prelude.{
  ℕ, [], ◌≡◌, ◌≢◌, refl, ap, sym, ◌∙◌, nat_eq, inl, inr, true, none, some, Bytes, Eq, bytes_eq, ok,
  arith, Result-cases,
}
use substrate_demo.Prelude.StorageMap
use substrate_demo.Pallet.Types.{TaskInfo, Call, DelegatorName, Cid}
use substrate_demo.Pallet.Config.{Trait}
use substrate_demo.Pallet.Store.{Store}
use substrate_demo.Pallet.Delegation.{request_delegate, update_delegate_status, unreserve}
use substrate_demo.Pallet.Call.{dispatch}
use substrate_demo.Pallet.Results.{update_errand, add_completed}
use substrate_demo.Pallet.Tasks.{begin_task, queue_task, reserve_fee, init_errand}
use substrate_demo.Pallet.Errands.{update_errand_result, pay_delegate}
use substrate_demo.Pallet.Frame.{ensure_fresh-state}

module _ (T : Trait) where
  instance abbrev account_eq : Eq T.AccountId
  account_eq = T.account_eq

  queue_task-delegates :
      (a : T.AccountId) (t : TaskInfo) (c : Cid) (f n : ℕ) (s : Store T)
      → (queue_task T a t c f n s).1.delegates ≡ s.delegates
  unfolding queue_task reserve_fee
  queue_task-delegates a t c f n s = ground (
    arith,
    ensure_fresh-state T c (StorageMap.get_or [] n s.tasks)
        (record s { tasks = StorageMap.remove n s.tasks }),
  )

  begin_task-delegates :
      (o : T.Origin) (n : DelegatorName) (c : Cid) (f : ℕ) (s : Store T)
      → (begin_task T o n c f s).1.delegates ≡ s.delegates
  unfolding begin_task
  begin_task-delegates o n c f s = grind (arith, queue_task-delegates)

  update_errand_result-delegates :
      (c : Cid) (r : Bytes) (s : Store T) → (update_errand_result c r s).delegates ≡ s.delegates
  unfolding update_errand_result pay_delegate
  update_errand_result-delegates c r s = ground arith

  update_errand-delegates :
      (o : T.Origin) (c : Cid) (r : Bytes) (s : Store T)
      → (update_errand T o c r s).1.delegates ≡ s.delegates
  unfolding update_errand add_completed
  update_errand-delegates o c r s = elim (Result-cases (T.ensure_signed o)) [
    | inl (e, refused) ↦ rw refused
    | inr (a, sent) ↦ ground (
      arith,
      sent,
      update_errand_result-delegates c r s,
      update_errand_result-delegates c r (add_completed T c a s),
    )
  ]

  -- An account becomes a ready delegate only by its own signature on `update_delegate_status`.
  pub dispatch_ready_delegate :
      (c : Call T.AccountId) (o : T.Origin) (s : Store T) (a : T.AccountId)
      → (dispatch T c o s).1.delegates a ≡ some true
      → s.delegates a ≢ some true
      → (c ≡ Call.update_delegate_status a) × (T.ensure_signed o ≡ ok a)
  unfolding dispatch request_delegate update_delegate_status unreserve init_errand
  dispatch_ready_delegate (Call.request_delegate n x) o s a h ne = absurd (ground arith)
  dispatch_ready_delegate (Call.update_delegate_status x) o s a h ne = (ground arith, ground arith)
  dispatch_ready_delegate (Call.begin_task n k f) o s a h ne =
      absurd (ne (ap (λ m. m a) (sym (begin_task-delegates o n k f s)) ∙ h))
  dispatch_ready_delegate (Call.init_errand x i k) o s a h ne = absurd (ground arith)
  dispatch_ready_delegate (Call.update_errand k r) o s a h ne =
      absurd (ne (ap (λ m. m a) (sym (update_errand-delegates o k r s)) ∙ h))
  dispatch_ready_delegate (Call.unreserve n x) o s a h ne = absurd (ground arith)

  -- `unreserve` succeeds for every origin, also for one that carries no signature, and takes the
  -- client's registration as a delegate, its delegate and the named delegate's account away.
  pub unreserve_any_origin :
      (o : T.Origin) (n : DelegatorName) (a : T.AccountId) (s : Store T)
      → let (r, t) = unreserve T o n a s in
        (r ≡ ok tt)
        × (t.delegates a ≡ none)
        × (t.client_delegate a ≡ none)
        × (t.delegate_accounts n ≡ none)
        × (t.balances ≡ s.balances)
  unfolding unreserve bytes_eq
  unreserve_any_origin o n a s = (refl, ground arith, ground arith, ground arith, refl)
