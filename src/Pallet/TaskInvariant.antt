-- ===== src/Pallet/TaskInvariant.antt =====
-- The invariant of the queued tasks and of the clients' fees, kept by every execution of the chain.
use mathlib.Core.Logic.{if_pos, if_neg}
use substrate_demo.Prelude.{
  ℕ, ◌<◌, ◌≡◌, ◌≢◌, ◌++◌, refl, sym, ap, subst, ◌∙◌, inl, inr, true, some, List, [], ◌∷◌, Eq,
  bytes_eq, nat_eq, length, length-append, All, All-append, arith, is_some, Bool-cases,
}
use substrate_demo.Prelude.StorageMap
use substrate_demo.Prelude.StorageMap.{StorageMap}
use substrate_demo.Pallet.Types.{TaskInfo, Cid, DelegatorName, Call}
use substrate_demo.Pallet.Config.{Trait, IsLawful}
use substrate_demo.Pallet.Store.{
  Store, push_or_insert, push_or_insert_lem, get_or-push_or_insert, get_or-remove,
}
use substrate_demo.Pallet.Books.{
  TaskBook, task_book, queue_of, TaskStep, same, queued, lost, released,
}
use substrate_demo.Pallet.Frame.{
  request_delegate-task_book, update_delegate_status-task_book, init_errand-task_book,
  update_errand-task_book,
}
use substrate_demo.Pallet.Delegation.{unreserve}
use substrate_demo.Pallet.Queue.{IsFresh}
use substrate_demo.Pallet.Begin.{begin_task-cases}
use substrate_demo.Pallet.Tasks.{begin_task}
use substrate_demo.Pallet.Call.{dispatch, call, other_pallets, Reach, here, next}

-- No two tasks of the list have one description.
abbrev pub IsDistinct : List TaskInfo → Type 0
IsDistinct [] = Unit
IsDistinct (t ∷ ts) = IsFresh t.description_cid ts × IsDistinct ts

IsDistinct-push :
    (ts : List TaskInfo) (t : TaskInfo)
    → IsDistinct ts
    → IsFresh t.description_cid ts
    → IsDistinct (ts ++ t ∷ [])
IsDistinct-push [] t d f = (tt, tt)
IsDistinct-push (u ∷ ts) t d f =
    (All-append _ ts (t ∷ []) d.0 (λ e. f.0 (sym e), tt), IsDistinct-push ts t d.1 f.1)

TaskStep_other :
    {T : Trait} {n : ℕ} {b b' : TaskBook T} (k : ℕ)
    → k ≢ n
    → TaskStep n b b'
    → b'.tasks k ≡ b.tasks k
TaskStep_other k ne (same e) = ap (λ b. b.tasks k) e
TaskStep_other {n} {b} k ne (queued a d t own fresh pos e) =
    ap (λ b. b.tasks k) e ∙ ground (arith, push_or_insert_lem n k t b.tasks)
TaskStep_other k ne (lost e) = ap (λ b. b.tasks k) e ∙ ground arith
TaskStep_other k ne (released a e) = ap (λ b. b.tasks k) e

module _ (T : Trait) where
  begin_task-TaskStep :
      IsLawful T
      → (o : T.Origin) (name : DelegatorName) (c : Cid) (fee : ℕ) (s : Store T)
      → TaskStep s.block_number (task_book s) (task_book (begin_task T o name c fee s).1)
  begin_task-TaskStep law o name c fee s = elim (begin_task-cases T o name c fee s law) [
    | inl (may, fresh, (paid, done)) ↦
        queued may.client may.delegator _ refl fresh paid.1 (ap (λ r. task_book r.1) done)
    | inr (inl refused) ↦ same (ap task_book refused.0)
    | inr (inr (e, failed)) ↦ elim (Bool-cases (is_some (s.tasks s.block_number))) [
      | inl some_queued ↦ lost (rw failed (ground arith))
      | inr free ↦ same (rw failed (ground arith))
    ]
  ]

  dispatch-TaskStep :
      IsLawful T
      → (c : Call T.AccountId) (o : T.Origin) (s : Store T)
      → TaskStep s.block_number (task_book s) (task_book (dispatch T c o s).1)
  unfolding dispatch unreserve
  dispatch-TaskStep law (Call.request_delegate n a) o s =
      same (request_delegate-task_book T o s n a)
  dispatch-TaskStep law (Call.update_delegate_status a) o s =
      same (update_delegate_status-task_book T o s a)
  dispatch-TaskStep law (Call.begin_task n c f) o s = begin_task-TaskStep law o n c f s
  dispatch-TaskStep law (Call.init_errand a i c) o s = same (init_errand-task_book T o a i c s)
  dispatch-TaskStep law (Call.update_errand c r) o s = same (update_errand-task_book T o c r s)
  dispatch-TaskStep law (Call.unreserve n a) o s = released a refl

  -- A call of any kind changes the queue of no block but the current one.
  pub dispatch_other_blocks :
      IsLawful T
      → (c : Call T.AccountId) (o : T.Origin) (s : Store T) (n : ℕ) → n ≢ s.block_number
      → (dispatch T c o s).1.tasks n ≡ s.tasks n
  dispatch_other_blocks law c o s n ne = TaskStep_other n ne (dispatch-TaskStep law c o s)

module _ {T : Trait} where
  pub record IsTaskBook (b : TaskBook T) : Type 0 where
    -- No block queues one description twice.
    pub distinct : (n : ℕ) → IsDistinct (queue_of b n)
    -- No queue is kept empty.
    pub filled : (n : ℕ) → is_some (b.tasks n) ≡ true → 0 < length (queue_of b n)
    -- Every queued task has a fee, and its client, whose latest fee is on record.
    pub funded :
        (n : ℕ)
        → All
            (λ t.
              (0 < t.fee)
              × ((a : T.AccountId) × (t.client ≡ T.encode a)
                  × (is_some (b.client_task_fee a) ≡ true)))
            (queue_of b n)
    pub fees : (a : T.AccountId) (f : ℕ) → b.client_task_fee a ≡ some f → 0 < f
    -- Every client with a delegate has a fee on record.
    pub delegated :
        (a : T.AccountId)
        → is_some (b.client_delegate a) ≡ true
        → is_some (b.client_task_fee a) ≡ true

module _ (T : Trait) where
  instance abbrev account_eq : Eq T.AccountId
  account_eq = T.account_eq

  abbrev IsFunded : StorageMap T.AccountId ℕ → TaskInfo → Type 0
  IsFunded fees t =
      (0 < t.fee) × ((a : T.AccountId) × (t.client ≡ T.encode a) × (is_some (fees a) ≡ true))

  -- A fee that is noted keeps every fee that was on record.
  IsFunded-insert :
      (fees : StorageMap T.AccountId ℕ) (a : T.AccountId) (f : ℕ) (ts : List TaskInfo)
      → All (IsFunded fees) ts
      → All (IsFunded (StorageMap.insert a f fees)) ts
  IsFunded-insert fees a f [] h = tt
  IsFunded-insert fees a f (t ∷ ts) ((pos, (b, own, on_record)), rest) =
      ((pos, (b, own, ground arith)), IsFunded-insert fees a f ts rest)

  module _ (b : TaskBook T) (v : IsTaskBook b) (n : ℕ) where
    queued-IsTaskBook :
        (a d : T.AccountId) (t : TaskInfo)
        → t.client ≡ T.encode a
        → IsFresh t.description_cid (queue_of b n)
        → 0 < t.fee
        → IsTaskBook {T = T} (record {
          tasks = push_or_insert n t b.tasks;
          client_task_fee = StorageMap.insert a t.fee b.client_task_fee;
          client_delegate = StorageMap.insert a d b.client_delegate;
        })
    queued-IsTaskBook a d t own fresh pos = record {
      distinct = λ k. rw get_or-push_or_insert (elim (nat_eq.discrete k n) [
        | yes p ↦ rw (if_pos _ p) (IsDistinct-push (queue_of b n) t (v.distinct n) fresh)
        | no ne ↦ rw (if_neg _ ne) (v.distinct k)
      ]);
      filled = λ k h. ground (
        arith,
        v.filled k,
        push_or_insert_lem n k t b.tasks,
        length-append (queue_of b n) (t ∷ []),
      );
      funded = λ k. rw get_or-push_or_insert (elim (nat_eq.discrete k n) [
        | yes p ↦ rw (if_pos _ p) (
            All-append _ (queue_of b n) (t ∷ [])
              (IsFunded-insert b.client_task_fee a t.fee (queue_of b n) (v.funded n))
              ((pos, (a, own, ground arith)), tt))
        | no ne ↦
            rw (if_neg _ ne) (IsFunded-insert b.client_task_fee a t.fee (queue_of b k) (v.funded k))
      ]);
      fees = λ x f h. ground (arith, v.fees x f);
      delegated = λ x h. ground (arith, v.delegated x);
    }

    lost-IsTaskBook : IsTaskBook (record b { tasks = StorageMap.remove n b.tasks })
    lost-IsTaskBook = record {
      distinct = λ k. rw get_or-remove (elim (nat_eq.discrete k n) [
        | yes p ↦ rw (if_pos _ p) tt
        | no ne ↦ rw (if_neg _ ne) (v.distinct k)
      ]);
      filled = λ k h. ground (arith, v.filled k);
      funded = λ k. rw get_or-remove (elim (nat_eq.discrete k n) [
        | yes p ↦ rw (if_pos _ p) tt
        | no ne ↦ rw (if_neg _ ne) (v.funded k)
      ]);
      fees = v.fees;
      delegated = v.delegated;
    }

    released-IsTaskBook :
        (a : T.AccountId)
        → IsTaskBook (record b { client_delegate = StorageMap.remove a b.client_delegate })
    released-IsTaskBook a = record {
      distinct = v.distinct;
      filled = v.filled;
      funded = v.funded;
      fees = v.fees;
      delegated = λ x h. ground (arith, v.delegated x);
    }

  TaskStep-IsTaskBook : {n : ℕ} {b b' : TaskBook T} → TaskStep n b b' → IsTaskBook b → IsTaskBook b'
  TaskStep-IsTaskBook (same e) v = subst IsTaskBook (sym e) v
  TaskStep-IsTaskBook {n} {b} (queued a d t own fresh pos e) v =
      subst IsTaskBook (sym e) (queued-IsTaskBook b v n a d t own fresh pos)
  TaskStep-IsTaskBook {n} {b} (lost e) v = subst IsTaskBook (sym e) (lost-IsTaskBook b v n)
  TaskStep-IsTaskBook {n} {b} (released a e) v =
      subst IsTaskBook (sym e) (released-IsTaskBook b v n a)

  -- From a storage whose tasks are in order, every execution of the chain ends in such a storage:
  -- no block queues one description twice, no queue is kept empty, every queued task has a positive
  -- fee and a client with a fee on record, every fee on record is positive, and every client that
  -- has a delegate has a fee on record.
  pub Reach-IsTaskBook :
      IsLawful T
      → {s t : Store T} → Reach T s t
      → IsTaskBook (task_book s)
      → IsTaskBook (task_book t)
  Reach-IsTaskBook law here v = v
  Reach-IsTaskBook law (next r (call c o e)) v =
      subst (λ t. IsTaskBook (task_book t)) (sym e)
        (TaskStep-IsTaskBook (dispatch-TaskStep T law c o _) (Reach-IsTaskBook law r v))
  Reach-IsTaskBook law (next r (other_pallets n seed index b later e)) v =
      subst (λ t. IsTaskBook (task_book t)) (sym e) (Reach-IsTaskBook law r v)
