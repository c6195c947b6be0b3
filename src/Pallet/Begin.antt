-- ===== src/Pallet/Begin.antt =====
-- `begin_task` as a whole: when it succeeds, what it then writes, and what a failure leaves behind.
use substrate_demo.Prelude.{
  ℕ, ◌<◌, ◌≡◌, ◌∙◌, ap, ◌⊎◌, inl, inr, false, [], ◌∷◌, ◌++◌, List, Option-cases, bytes_eq, nat_eq,
  Eq, ok, err, is_ok, arith,
}
use substrate_demo.Prelude.StorageMap
use substrate_demo.Pallet.Types.{Cid, DelegatorName, TaskInfo, task_began, errand_already_executed}
use substrate_demo.Pallet.Config.{Trait, IsLawful}
use substrate_demo.Pallet.Store.{Store, push_or_insert}
use substrate_demo.Pallet.Tasks.{ensure_fresh, queue_task, begin_task}
use substrate_demo.Pallet.Queue.{
  IsFresh, MayBegin, new_task, dropped, begin_task_guards, begin_task_queue, queue_task_accepted,
  queue_task_stale, queue_task-cases, ensure_fresh-cases,
}

-- The fee of the task can be reserved.
abbrev pub IsPaid : {T : Trait} → Store T → T.AccountId → ℕ → Type 0
IsPaid {T} s client fee =
    (b : T.Balances) × (0 < fee) × (T.reserve client fee s.balances ≡ (ok tt, b))

-- The queue of the current block.
abbrev pub current_queue : {T : Trait} → Store T → List TaskInfo
current_queue s = StorageMap.get_or [] s.block_number s.tasks

module _ (T : Trait) where
  instance abbrev account_eq : Eq T.AccountId
  account_eq = T.account_eq

  -- What a successful call leaves.
  abbrev pub begun :
      Store T → T.AccountId → T.AccountId → DelegatorName → Cid → ℕ → T.Balances → Store T
  begun s client delegator name c fee b = record s {
    tasks = push_or_insert s.block_number (new_task s client delegator name c fee) s.tasks;
    client_task_fee = StorageMap.insert client fee s.client_task_fee;
    client_delegate = StorageMap.insert client delegator s.client_delegate;
    balances = b;
    events = s.events ++ task_began client c delegator ∷ [];
  }

  module _ (o : T.Origin) (name : DelegatorName) (c : Cid) (fee : ℕ) (s : Store T) where
    pub begin_task_accepted :
        (may : MayBegin T o name c s) (b : T.Balances)
        → IsFresh c (current_queue s)
        → 0 < fee
        → T.reserve may.client fee s.balances ≡ (ok tt, b)
        → begin_task T o name c fee s ≡ (ok tt, begun s may.client may.delegator name c fee b)
    begin_task_accepted may b fresh pos paid =
        begin_task_queue T o name c fee s may
        ∙ ground (
          arith,
          queue_task_accepted T may.client (new_task s may.client may.delegator name c fee) c fee
              s.block_number s b fresh pos paid,
        )

    begin_task-dropped :
        (may : MayBegin T o name c s) (e : T.DispatchError)
        → queue_task T may.client
            (new_task s may.client may.delegator name c fee)
            c
            fee
            s.block_number
            s
          ≡ (err e, dropped s.block_number s)
        → begin_task T o name c fee s ≡ (err e, dropped s.block_number s)
    begin_task-dropped may e failed = begin_task_queue T o name c fee s may ∙ ground (arith, failed)

    -- Every call either is accepted, and writes exactly `begun`; or fails at a guard and changes
    -- nothing; or fails at the queue and drops the tasks that were queued in the block.
    pub begin_task-cases :
        IsLawful T
        → ((may : MayBegin T o name c s) × IsFresh c (current_queue s)
            × ((p : IsPaid s may.client fee) × (begin_task T o name c fee s
                  ≡ (ok tt, begun s may.client may.delegator name c fee p.0))))
          ⊎ (((begin_task T o name c fee s).1 ≡ s)
              × (is_ok (begin_task T o name c fee s).0 ≡ false))
          ⊎ ((e : T.DispatchError) × (begin_task T o name c fee s
                ≡ (err e, dropped s.block_number s)))
    begin_task-cases law = elim (begin_task_guards T o name c fee s) [
      | inr refused ↦ inr (inl refused)
      | inl may ↦
          elim (queue_task-cases T law may.client (new_task s may.client may.delegator name c fee) c
            fee s.block_number s) [
              | inl (fresh, paid) ↦
                  inl (may, fresh, (paid, begin_task_accepted may paid.0 fresh paid.1 paid.2))
              | inr (e, failed) ↦ inr (inr (e, begin_task-dropped may e failed))
            ]
    ]

    -- A failed call changes nothing but the queue of the block, which it may drop.
    pub begin_task_failed :
        IsLawful T
        → is_ok (begin_task T o name c fee s).0 ≡ false
        → ((begin_task T o name c fee s).1 ≡ s)
          ⊎ ((begin_task T o name c fee s).1 ≡ dropped s.block_number s)
    begin_task_failed law bad = elim (begin_task-cases law) [
      | inl (may, fresh, (paid, done)) ↦ absurd (cc (ap (λ r. is_ok r.0) done))
      | inr (inl refused) ↦ inl refused.0
      | inr (inr (e, failed)) ↦ inr (ap (λ r. r.1) failed)
    ]

    -- A description that is queued in the block already: the call fails, and with it every task
    -- that was queued in this block is lost.
    begin_task_duplicate :
        MayBegin T o name c s
        → ¬ IsFresh c (current_queue s)
        → begin_task T o name c fee s ≡ (
          err (T.from_error errand_already_executed),
          record s { tasks = StorageMap.remove s.block_number s.tasks },
        )
    unfolding ensure_fresh
    begin_task_duplicate may stale =
        elim (ensure_fresh-cases T c (current_queue s)
          (record s { tasks = StorageMap.remove s.block_number s.tasks })) [
            | inl fresh ↦ absurd (stale fresh)
            | inr found ↦ elim (Option-cases (s.tasks s.block_number)) [
              | inl free ↦ absurd (ground (arith, found, free))
              | inr (ts, some_queued) ↦
                  begin_task-dropped may _ (
                    queue_task_stale T may.client (new_task s may.client may.delegator name c fee) c
                      fee s.block_number s found (ground arith))
                  ∙ ground (arith, some_queued)
            ]
          ]
