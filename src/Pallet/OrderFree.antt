-- ===== src/Pallet/OrderFree.antt =====
-- No call looks at the order in which the open errands are listed.
use mathlib.Core.List.{Perm}
use mathlib.Core.List.Perm
use substrate_demo.Prelude.{
  ap, Option, ℕ, ◌≡◌, refl, inl, inr, List, [], ◌∷◌, ◌++◌, Bytes, bytes_eq, nat_eq, Eq, without,
  leb, length, Result-cases, Bool, ◌&&◌, ◌||◌, ok, err, Bool-cases, is_ok, arith, if◌then◌else◌,
}
use substrate_demo.Prelude.StorageMap
use substrate_demo.Pallet.Types.{
  min_update_result_account, Cid, Call, TaskInfo, ErrandId, DelegatorName, NetAddress,
}
use substrate_demo.Pallet.Config.{Trait}
use substrate_demo.Pallet.Store.{Store}
use substrate_demo.Pallet.Accounts.{account_to_bytes, allow_to_update_result, generate_errand_id}
use substrate_demo.Pallet.Delegation.{request_delegate, update_delegate_status, unreserve}
use substrate_demo.Pallet.Tasks.{begin_task, queue_task, ensure_fresh, reserve_fee, init_errand}
use substrate_demo.Pallet.Errands.{update_errand_result, pay_delegate}
use substrate_demo.Pallet.Results.{update_errand, add_completed, is_processing, finish_errand}
use substrate_demo.Pallet.Call.{dispatch}
use substrate_demo.Pallet.Chain.{Entry, entry_call, entry_block, enter, dispatch_all}
use substrate_demo.Pallet.Queue.{new_task}
use substrate_demo.Pallet.AnyOrder.{
  without-Perm, with_open, AgreesInAnyOrder, Respects, edit-Respects, blind-Respects,
}

module _ (T : Trait) where
  instance abbrev account_eq : Eq T.AccountId
  account_eq = T.account_eq

  request_delegate-Respects :
      (o : T.Origin) (n : DelegatorName) (a : NetAddress) → Respects (request_delegate T o n a)
  unfolding request_delegate
  request_delegate-Respects o n a = blind-Respects (λ s l. ground arith)

  update_delegate_status-Respects :
      (o : T.Origin) (a : T.AccountId) → Respects (update_delegate_status T o a)
  unfolding update_delegate_status
  update_delegate_status-Respects o a = blind-Respects (λ s l. ground arith)

  unreserve-Respects :
      (o : T.Origin) (n : DelegatorName) (a : T.AccountId) → Respects (unreserve T o n a)
  unfolding unreserve
  unreserve-Respects o n a = blind-Respects (λ s l. refl)

  ensure_fresh-with_open :
      (c : Cid) (tasks : List TaskInfo) (s : Store T) (l : List Cid)
      → ensure_fresh T c tasks (with_open s l)
        ≡ ((ensure_fresh T c tasks s).0, with_open (ensure_fresh T c tasks s).1 l)
  unfolding ensure_fresh
  ensure_fresh-with_open c [] s l = refl
  ensure_fresh-with_open c (t ∷ ts) s l = ground (arith, ensure_fresh-with_open c ts s l)

  reserve_fee-with_open :
      (a : T.AccountId) (fee : ℕ) (s : Store T) (l : List Cid)
      → reserve_fee T a fee (with_open s l)
        ≡ ((reserve_fee T a fee s).0, with_open (reserve_fee T a fee s).1 l)
  unfolding reserve_fee
  reserve_fee-with_open a fee s l = ground arith

  init_errand-Respects :
      (o : T.Origin) (a : T.AccountId) (i : ErrandId) (c : Cid) → Respects (init_errand T o a i c)
  unfolding init_errand
  init_errand-Respects o a i c =
      edit-Respects (λ s l. if is_ok (init_errand T o a i c s).0 then l ++ c ∷ [] else l)
        (λ s l k p. elim (Bool-cases (is_ok (init_errand T o a i c s).0)) [
          | inl e ↦ rw e (Perm.append_right (c ∷ []) p)
          | inr e ↦ rw e p
        ])
        (λ s l. ground arith)

  queue_task-with_open :
      (a : T.AccountId) (task : TaskInfo) (c : Cid) (fee n : ℕ) (s : Store T) (l : List Cid)
      → queue_task T a task c fee n (with_open s l)
        ≡ ((queue_task T a task c fee n s).0, with_open (queue_task T a task c fee n s).1 l)
  unfolding queue_task
  queue_task-with_open a task c fee n s l =
      let queue = StorageMap.get_or [] n s.tasks in
      let taken : Store T = record s { tasks = StorageMap.remove n s.tasks } in
      ground (
        arith,
        ensure_fresh-with_open c queue taken l,
        reserve_fee-with_open a fee s l,
        reserve_fee-with_open a fee (ensure_fresh T c queue taken).1 l,
      )

  begin_task-Respects :
      (o : T.Origin) (n : DelegatorName) (c : Cid) (fee : ℕ) → Respects (begin_task T o n c fee)
  unfolding begin_task generate_errand_id
  begin_task-Respects o n c fee = blind-Respects (λ s l. elim (Result-cases (T.ensure_signed o)) [
    | inl (e, refused) ↦ ground (arith, refused)
    | inr (a, sent) ↦
        let d = StorageMap.get_or T.default_account n s.delegate_accounts in
        ground
          (arith, sent, queue_task-with_open a (new_task s a d n c fee) c fee s.block_number s l)
  ])

  update_errand_result-with_open :
      (c : Cid) (r : Bytes) (s : Store T) (l : List Cid)
      → update_errand_result c r (with_open s l)
        ≡ with_open (update_errand_result c r s) (without c l)
  unfolding update_errand_result pay_delegate
  update_errand_result-with_open c r s l = ground arith

  -- Whether a report of an account ends the errand.
  closes : T.AccountId → Bytes → Cid → Store T → Bool
  unfolding is_processing
  closes a b c s =
      StorageMap.contains_key c s.errands
      && (allow_to_update_result s (b ∷ [])
          && (s.development_mode
              || (is_processing T c s
                  && leb min_update_result_account
                      (length (StorageMap.get_or [] c (add_completed T c a s).completed_errands)))))

  edited : T.Origin → Cid → Store T → List Cid → List Cid
  edited o c s l = elim (T.ensure_signed o) [
    | err _ ↦ l
    | ok a ↦ elim (account_to_bytes T a) [
      | err _ ↦ l
      | ok b ↦ if closes a b c s then without c l else l
    ]
  ]

  update_errand-with_open :
      (o : T.Origin) (c : Cid) (r : Bytes) (s : Store T) (l : List Cid)
      → update_errand T o c r (with_open s l)
        ≡ ((update_errand T o c r s).0, with_open (update_errand T o c r s).1 (edited o c s l))
  unfolding update_errand add_completed closes edited allow_to_update_result is_processing
      finish_errand
  update_errand-with_open o c r s l = elim (Result-cases (T.ensure_signed o)) [
    | inl (e, refused) ↦ ground (arith, refused)
    | inr (a, sent) ↦ elim (Result-cases (account_to_bytes T a)) [
      | inl (e, bad) ↦ ground (arith, sent, bad)
      | inr (b, good) ↦ ground (
        arith,
        sent,
        good,
        update_errand_result-with_open c r s l,
        update_errand_result-with_open c r (add_completed T c a s) l,
      )
    ]
  ]

  edited-Perm :
      (o : T.Origin) (c : Cid) (s : Store T) (l k : List Cid)
      → Perm l k
      → Perm (edited o c s l) (edited o c s k)
  unfolding edited
  edited-Perm o c s l k p = elim (Result-cases (T.ensure_signed o)) [
    | inl (e, refused) ↦ rw (refused, edited) p
    | inr (a, sent) ↦ elim (Result-cases (account_to_bytes T a)) [
      | inl (e, bad) ↦ rw (sent, bad, edited) p
      | inr (b, good) ↦ elim (Bool-cases (closes a b c s)) [
        | inl ends ↦ rw (sent, good, ends, edited) (without-Perm c p)
        | inr stays ↦ rw (sent, good, stays, edited) p
      ]
    ]
  ]

  update_errand-Respects : (o : T.Origin) (c : Cid) (r : Bytes) → Respects (update_errand T o c r)
  update_errand-Respects o c r =
      edit-Respects (edited o c) (edited-Perm o c) (update_errand-with_open o c r)

  dispatch-Respects : (c : Call T.AccountId) (o : T.Origin) → Respects (dispatch T c o)
  unfolding dispatch
  dispatch-Respects (Call.request_delegate n a) o = request_delegate-Respects o n a
  dispatch-Respects (Call.update_delegate_status a) o = update_delegate_status-Respects o a
  dispatch-Respects (Call.begin_task n k f) o = begin_task-Respects o n k f
  dispatch-Respects (Call.init_errand a i k) o = init_errand-Respects o a i k
  dispatch-Respects (Call.update_errand k r) o = update_errand-Respects o k r
  dispatch-Respects (Call.unreserve n a) o = unreserve-Respects o n a

  -- The start of a block or of an extrinsic.
  enter-AgreesInAnyOrder :
      (n : ℕ) (seed : Bytes) (index : Option ℕ) (s t : Store T)
      → AgreesInAnyOrder s t
      → AgreesInAnyOrder (enter T n seed index s) (enter T n seed index t)
  enter-AgreesInAnyOrder n seed index s t g = record {
    rest = ap (enter T n seed index) g.rest;
    order = g.order;
  }

  -- From two storages that differ in the order of the open errands only, the same calls by the same
  -- origins, however many and in whatever blocks, return the same results one by one, and the
  -- storages in the end again differ in that order at most: no call can tell in which order the
  -- errands are listed.
  pub dispatch_all-AgreesInAnyOrder :
      (l : List (Entry T)) (s t : Store T)
      → AgreesInAnyOrder s t
      → ((dispatch_all T l t).0 ≡ (dispatch_all T l s).0)
        × AgreesInAnyOrder (dispatch_all T l s).1 (dispatch_all T l t).1
  unfolding dispatch_all
  dispatch_all-AgreesInAnyOrder [] s t g = (refl, g)
  dispatch_all-AgreesInAnyOrder (entry_block n seed index ∷ rest) s t g =
      dispatch_all-AgreesInAnyOrder rest (enter T n seed index s) (enter T n seed index t)
        (enter-AgreesInAnyOrder n seed index s t g)
  dispatch_all-AgreesInAnyOrder (entry_call c o ∷ rest) s t g =
      let (same, g') = (dispatch-Respects c o).respects s t g in
      let (others, g'') =
        dispatch_all-AgreesInAnyOrder rest (dispatch T c o s).1 (dispatch T c o t).1 g' in
      (rw (same, others) refl, g'')
