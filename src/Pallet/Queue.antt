-- ===== src/Pallet/Queue.antt =====
-- `begin_task`, branch by branch: its guards, the loop over the queued tasks, and what it writes.
use native.Mathlib.Decide.{dec_lt}
use substrate_demo.Prelude.{
  ℕ, ◌<◌, ◌≡◌, ◌≢◌, refl, ◌⊎◌, inl, inr, true, false, none, some, List, [], ◌∷◌, bytes_eq, nat_eq,
  Eq, ok, err, is_ok, is_some, arith, All, if◌then◌else◌, Option-cases, Result-cases, Bool-cases,
  modify, ◌>>◌,
}
use substrate_demo.Prelude.StorageMap
use substrate_demo.Pallet.Types.{
  TaskInfo, Cid, DelegatorName, task_began, errand_already_executed, insufficient_fee,
}
use substrate_demo.Pallet.Config.{Trait, IsLawful}
use substrate_demo.Pallet.Store.{Store, push_or_insert, deposit_event}
use substrate_demo.Pallet.Accounts.{generate_errand_id}
use substrate_demo.Pallet.Tasks.{ensure_fresh, reserve_fee, queue_task, begin_task}

-- No task of the list has this description.
abbrev pub IsFresh : Cid → List TaskInfo → Type 0
IsFresh c = All (λ t. t.description_cid ≢ c)

-- What a client must find for `begin_task` to come to the queue.
pub record MayBegin (T : Trait) (o : T.Origin) (name : DelegatorName) (c : Cid) (s : Store T)
    : Type 0 where
  pub client : T.AccountId
  pub delegator : T.AccountId
  pub sent : T.ensure_signed o ≡ ok client
  pub named : s.delegate_accounts name ≡ some delegator
  pub ready : s.delegates delegator ≡ some true
  pub new : s.errands c ≡ none

-- The task that `begin_task` queues.
abbrev pub new_task :
    {T : Trait} → Store T → T.AccountId → T.AccountId → DelegatorName → Cid → ℕ → TaskInfo
new_task {T} s client delegator name c fee = record {
  client = T.encode client;
  delegator = name;
  description_cid = c;
  errand_id = generate_errand_id T s delegator;
  fee = fee;
}

-- Either the client may begin the task, or the call fails and changes nothing.
pub begin_task_guards :
    (T : Trait) (o : T.Origin) (name : DelegatorName) (c : Cid) (fee : ℕ) (s : Store T)
    → MayBegin T o name c s
      ⊎ ((begin_task T o name c fee s).1 ≡ s) × (is_ok (begin_task T o name c fee s).0 ≡ false)
unfolding begin_task
begin_task_guards T o name c fee s = elim (Result-cases (T.ensure_signed o)) [
  | inl (e, refused) ↦ inr (ground arith, ground arith)
  | inr (a, sent) ↦ elim (Option-cases (s.delegate_accounts name)) [
    | inl missing ↦ inr (ground arith, ground arith)
    | inr (d, named) ↦ elim (Option-cases (s.delegates d)) [
      | inl unknown ↦ inr (ground arith, ground arith)
      | inr (r, known) ↦ elim (Bool-cases r) [
        | inr waiting ↦ inr (ground arith, ground arith)
        | inl ready ↦ elim (Option-cases (s.errands c)) [
          | inr (e, executed) ↦ inr (ground arith, ground arith)
          | inl new ↦ inl (record {
            client = a;
            delegator = d;
            sent = sent;
            named = named;
            ready = ground arith;
            new = new;
          })
        ]
      ]
    ]
  ]
]

-- What a call that fails at the queue leaves behind: the tasks of the block are gone.
abbrev pub dropped : {T : Trait} → ℕ → Store T → Store T
dropped n s = if is_some (s.tasks n) then record s { tasks = StorageMap.remove n s.tasks } else s

module _ (T : Trait) where
  instance abbrev account_eq : Eq T.AccountId
  account_eq = T.account_eq

  -- The loop passes exactly when no queued task has the description.
  pub ensure_fresh-IsFresh :
      (c : Cid) (ts : List TaskInfo) (s : Store T)
      → IsFresh c ts
      → ensure_fresh T c ts s ≡ (ok tt, s)
  unfolding ensure_fresh
  ensure_fresh-IsFresh c [] s h = refl
  ensure_fresh-IsFresh c (t ∷ ts) s h = ground (arith, ensure_fresh-IsFresh c ts s h.1)

  pub ensure_fresh-cases :
      (c : Cid) (ts : List TaskInfo) (s : Store T)
      → IsFresh c ts ⊎ (ensure_fresh T c ts s ≡ (err (T.from_error errand_already_executed), s))
  unfolding ensure_fresh
  ensure_fresh-cases c [] s = inl tt
  ensure_fresh-cases c (t ∷ ts) s = elim (bytes_eq.discrete t.description_cid c) [
    | yes p ↦ inr (ground arith)
    | no n ↦ elim (ensure_fresh-cases c ts s) [
      | inl fresh ↦ inl (n, fresh)
      | inr stale ↦ inr (ground arith)
    ]
  ]

  module _ (o : T.Origin) (name : DelegatorName) (c : Cid) (fee : ℕ) (s : Store T)
      (may : MayBegin T o name c s) where
    open may use {client, delegator}

    -- Past its guards the call queues the task, and on success notes the delegate of the client.
    pub begin_task_queue :
        begin_task T o name c fee s
        ≡ (queue_task T client (new_task s client delegator name c fee) c fee s.block_number
              >> modify (λ s. record s {
                client_delegate = StorageMap.insert client delegator s.client_delegate;
              })
              >> deposit_event (task_began client c delegator))
            s
    unfolding begin_task
    begin_task_queue = ground (arith, may.sent, may.named, may.ready, may.new)

  module _ (a : T.AccountId) (t : TaskInfo) (c : Cid) (fee n : ℕ) (s : Store T) where
    abbrev pub queued : List TaskInfo
    queued = StorageMap.get_or [] n s.tasks

    pub queue_task_accepted :
        (b : T.Balances)
        → IsFresh c queued
        → 0 < fee
        → T.reserve a fee s.balances ≡ (ok tt, b)
        → queue_task T a t c fee n s ≡ (
          ok tt,
          record s {
            tasks = push_or_insert n t s.tasks;
            client_task_fee = StorageMap.insert a fee s.client_task_fee;
            balances = b;
          },
        )
    unfolding queue_task reserve_fee push_or_insert
    queue_task_accepted b fresh pos paid = ground (
      arith,
      paid,
      ensure_fresh-IsFresh c queued (record s { tasks = StorageMap.remove n s.tasks }) fresh,
    )

    -- A description that is queued already, a fee of zero or a failed reservation: the call fails,
    -- and the tasks that were queued in this block are not put back.
    pub queue_task_stale :
        ensure_fresh T c queued (record s { tasks = StorageMap.remove n s.tasks }) ≡ (
          err (T.from_error errand_already_executed),
          record s { tasks = StorageMap.remove n s.tasks },
        )
        → is_some (s.tasks n) ≡ true
        → queue_task T a t c fee n s ≡ (err (T.from_error errand_already_executed), dropped n s)
    unfolding queue_task
    queue_task_stale stale some_queued = ground (arith, stale)

    pub queue_task_unpaid :
        {e : T.DispatchError}
        → IsFresh c queued
        → reserve_fee T a fee (dropped n s) ≡ (err e, dropped n s)
        → queue_task T a t c fee n s ≡ (err e, dropped n s)
    unfolding queue_task
    queue_task_unpaid fresh unpaid = ground (
      arith,
      unpaid,
      ensure_fresh-IsFresh c queued (record s { tasks = StorageMap.remove n s.tasks }) fresh,
    )

  -- Either the fee is reserved, or the call fails and changes nothing.
  pub reserve_fee-cases :
      IsLawful T
      → (a : T.AccountId) (fee : ℕ) (s : Store T)
      → ((b : T.Balances) × (0 < fee) × (T.reserve a fee s.balances ≡ (ok tt, b)))
        ⊎ ((e : T.DispatchError) × (reserve_fee T a fee s ≡ (err e, s)))
  unfolding reserve_fee
  reserve_fee-cases law a fee s = elim (dec_lt 0 fee) [
    | no zero_fee ↦ inr (T.from_error insufficient_fee, ground arith)
    | yes pos ↦ elim (Result-cases (T.reserve a fee s.balances).0) [
      | inr (_, paid) ↦ inl ((T.reserve a fee s.balances).1, pos, ground arith)
      | inl (e, unpaid) ↦
          let p : T.reserve a fee s.balances ≡ (err e, (T.reserve a fee s.balances).1) =
            ground arith in
          inr (e, ground (arith, law.reserve_failed a fee s.balances _ e p))
    ]
  ]

  -- The call at the queue: it is accepted, or it fails and the tasks of the block are dropped.
  pub queue_task-cases :
      IsLawful T
      → (a : T.AccountId) (t : TaskInfo) (c : Cid) (fee n : ℕ) (s : Store T)
      → (IsFresh c (queued a t c fee n s)
          × ((b : T.Balances) × (0 < fee) × (T.reserve a fee s.balances ≡ (ok tt, b))))
        ⊎ ((e : T.DispatchError) × (queue_task T a t c fee n s ≡ (err e, dropped n s)))
  unfolding ensure_fresh
  queue_task-cases law a t c fee n s =
      elim (ensure_fresh-cases c (queued a t c fee n s)
        (record s { tasks = StorageMap.remove n s.tasks })) [
          | inl fresh ↦ elim (reserve_fee-cases law a fee (dropped n s)) [
            | inl (b, pos, paid) ↦ inl (fresh, (b, pos, ground (arith, paid)))
            | inr (e, unpaid) ↦ inr (e, queue_task_unpaid a t c fee n s fresh unpaid)
          ]
          | inr stale ↦ elim (Bool-cases (is_some (s.tasks n))) [
            | inl some_queued ↦ inr (
              T.from_error errand_already_executed,
              queue_task_stale a t c fee n s stale some_queued,
            )
            | inr free ↦ absurd (ground (arith, stale))
          ]
        ]
