-- ===== src/Pallet/Books.antt =====
-- The abstract view of the storage: the book of the errands and the book of the tasks, and what may
-- happen to the book of the errands.
use substrate_demo.Prelude.{
  ℕ, ◌≤◌, ◌≡◌, Bool, true, false, Option, none, some, List, [], ◌∷◌, ◌++◌, Bytes, bytes_eq, without,
  length, ok, All, ◌≢◌, ◌<◌, nat_eq,
}
use substrate_demo.Prelude.StorageMap
use substrate_demo.Prelude.StorageMap.{StorageMap}
use substrate_demo.Pallet.Types.{
  Errand, TaskInfo, Cid, ErrandId, AccountId32, ErrandStatus, processing, done,
}
use substrate_demo.Pallet.Config.{Trait}
use substrate_demo.Pallet.Store.{Store, push_or_insert}
use substrate_demo.Pallet.Accounts.{account_to_bytes, any_allowed}

pub record ErrandBook (T : Trait) : Type 0 where
  pub errands : StorageMap Cid Errand
  pub processing_errands : List Cid
  pub completed_errands : StorageMap Cid (List T.AccountId)
  pub development_mode : Bool
  pub update_result_accounts : List AccountId32

pub record TaskBook (T : Trait) : Type 0 where
  pub tasks : StorageMap ℕ (List TaskInfo)
  pub client_task_fee : StorageMap T.AccountId ℕ
  pub client_delegate : StorageMap T.AccountId T.AccountId

abbrev pub errand_book : {T : Trait} → Store T → ErrandBook T
errand_book s = record {
  errands = s.errands;
  processing_errands = s.processing_errands;
  completed_errands = s.completed_errands;
  development_mode = s.development_mode;
  update_result_accounts = s.update_result_accounts;
}

abbrev pub task_book : {T : Trait} → Store T → TaskBook T
task_book s = record {
  tasks = s.tasks;
  client_task_fee = s.client_task_fee;
  client_delegate = s.client_delegate;
}

-- An errand is open while its status is `Processing`.
abbrev pub is_open_status : ErrandStatus → Bool
is_open_status processing = true
is_open_status done = false

abbrev pub is_open : Option Errand → Bool
is_open none = false
is_open (some e) = is_open_status e.status

abbrev pub finished : Bytes → Errand → Errand
finished result e = record e { status = done; result = result }

module _ {T : Trait} where
  -- A new errand, in place of any earlier one with its description.
  abbrev pub open_errand : Errand → ErrandBook T → ErrandBook T
  open_errand e b = record b {
    errands = StorageMap.insert e.description_cid e b.errands;
    processing_errands = b.processing_errands ++ e.description_cid ∷ [];
  }

  abbrev pub add_vote : Cid → T.AccountId → ErrandBook T → ErrandBook T
  add_vote c a b = record b { completed_errands = push_or_insert c a b.completed_errands }

  abbrev pub vote_count : Cid → ErrandBook T → ℕ
  vote_count c b = length (StorageMap.get_or [] c b.completed_errands)

  -- The errand is finished with this result, and is not listed as open any more.
  abbrev pub close_errand : Cid → Errand → Bytes → ErrandBook T → ErrandBook T
  close_errand c e result b = record b {
    errands = StorageMap.insert c (finished result e) b.errands;
    processing_errands = without c b.processing_errands;
  }

  -- The account may report results.
  abbrev pub IsReporter : ErrandBook T → T.AccountId → Type 0
  IsReporter b a =
      (w : AccountId32) × (account_to_bytes T a ≡ ok w)
      × (any_allowed b.update_result_accounts (w ∷ []) ≡ true)

-- What one step of the chain may do to the book.
pub data ErrandStep {T : Trait} (b b' : ErrandBook T) : Type 0 where
  unchanged : b' ≡ b → ErrandStep b b'
  opened :
      (a : T.AccountId) (i : ErrandId) (c : Cid)
      → b'
        ≡ open_errand
            (record {
              account_id = T.encode a;
              errand_id = i;
              description_cid = c;
              status = processing;
              result = [];
            })
            b
      → ErrandStep b b'
  -- In the development mode one report is enough.
  reported :
      (a : T.AccountId) (c : Cid) (e : Errand) (r : Bytes)
      → IsReporter b a
      → b.development_mode ≡ true
      → b.errands c ≡ some e
      → b' ≡ close_errand c e r b
      → ErrandStep b b'
  voted :
      (a : T.AccountId) (c : Cid) (e : Errand)
      → IsReporter b a
      → b.development_mode ≡ false
      → b.errands c ≡ some e
      → b' ≡ add_vote c a b
      → ErrandStep b b'
  decided :
      (a : T.AccountId) (c : Cid) (e : Errand) (r : Bytes)
      → IsReporter b a
      → b.development_mode ≡ false
      → b.errands c ≡ some e
      → e.status ≡ processing
      → 2 ≤ vote_count c (add_vote c a b)
      → b' ≡ close_errand c e r (add_vote c a b)
      → ErrandStep b b'

module _ {T : Trait} where
  abbrev pub queue_of : TaskBook T → ℕ → List TaskInfo
  queue_of b n = StorageMap.get_or [] n b.tasks

-- What one step of the chain at block `n` may do to the book of the tasks.
pub data TaskStep {T : Trait} (n : ℕ) (b b' : TaskBook T) : Type 0 where
  same : b' ≡ b → TaskStep n b b'
  -- A task is queued, its fee is noted for the client, and the delegate for the client.
  queued :
      (a d : T.AccountId) (t : TaskInfo)
      → t.client ≡ T.encode a
      → All (λ u. u.description_cid ≢ t.description_cid) (queue_of b n)
      → 0 < t.fee
      → b' ≡ record {
        tasks = push_or_insert n t b.tasks;
        client_task_fee = StorageMap.insert ⦃e = T.account_eq⦄ a t.fee b.client_task_fee;
        client_delegate = StorageMap.insert ⦃e = T.account_eq⦄ a d b.client_delegate;
      }
      → TaskStep n b b'
  -- A call fails at the queue, and the tasks of the block are lost.
  lost : b' ≡ record b { tasks = StorageMap.remove n b.tasks } → TaskStep n b b'
  released :
      (a : T.AccountId)
      → b' ≡ record b { client_delegate = StorageMap.remove ⦃e = T.account_eq⦄ a b.client_delegate }
      → TaskStep n b b'
