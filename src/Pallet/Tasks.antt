-- ===== src/Pallet/Tasks.antt =====
-- The calls `begin_task` and `init_errand` of pallets/abc-demo/src/lib.rs.
use substrate_demo.Prelude.{
  ℕ, false, not, List, [], ◌∷◌, ◌++◌, Eq, bytes_eq, nat_eq, ◌==◌, ltb, lift, gets, modify, ensure,
  pure, ◌>>=◌, ◌>>◌, if◌then◌else◌,
}
use substrate_demo.Prelude.StorageMap
use substrate_demo.Pallet.Types.{
  Cid, ErrandId, DelegatorName, TaskInfo, Errand, processing, client_delegator_not_exist,
  client_not_exist, client_not_ready, errand_already_executed, insufficient_fee, task_began,
  errand_inited,
}
use substrate_demo.Pallet.Config.{Trait}
use substrate_demo.Pallet.Store.{Dispatch, deposit_event}
use substrate_demo.Pallet.Accounts.{generate_errand_id}
use substrate_demo.Pallet.Errands.{add_processing}

module _ (T : Trait) where
  instance abbrev account_eq : Eq T.AccountId
  account_eq = T.account_eq

  -- The loop over the tasks of the block.
  unfoldable pub ensure_fresh : Cid → List TaskInfo → Dispatch T (Unit {0})
  ensure_fresh description_cid [] = pure tt
  ensure_fresh description_cid (task ∷ task_array) = do
    ensure (not (task.description_cid == description_cid)) (T.from_error errand_already_executed)
    ensure_fresh description_cid task_array

  -- The fee part of both branches of `begin_task`.
  unfoldable pub reserve_fee : T.AccountId → ℕ → Dispatch T (Unit {0})
  reserve_fee client fee = do
    ensure (ltb 0 fee) (T.from_error insufficient_fee)
    (λ s. let (r, b) = T.reserve client fee s.balances in (r, record s { balances = b }))
    modify (λ s. record s { client_task_fee = StorageMap.insert client fee s.client_task_fee })

  -- `if Tasks::contains_key(&block_number) { … } else { … }`
  unfoldable pub queue_task : T.AccountId → TaskInfo → Cid → ℕ → ℕ → Dispatch T (Unit {0})
  queue_task client task_info description_cid fee block_number = do
    queued ← gets (λ s. StorageMap.contains_key block_number s.tasks)
    if queued
        then (do
          task_array ← gets (λ s. StorageMap.get_or [] block_number s.tasks)
          modify (λ s. record s { tasks = StorageMap.remove block_number s.tasks })
          ensure_fresh description_cid task_array
          reserve_fee client fee
          modify (λ s. record s {
            tasks = StorageMap.insert block_number (task_array ++ task_info ∷ []) s.tasks;
          }))
        else (do
          reserve_fee client fee
          modify
              (λ s. record s { tasks = StorageMap.insert block_number (task_info ∷ []) s.tasks }))

  unfoldable pub begin_task : T.Origin → DelegatorName → Cid → ℕ → Dispatch T (Unit {0})
  begin_task origin delegator_name description_cid fee = do
    client ← lift (T.ensure_signed origin)
    ensure (← gets (λ s. StorageMap.contains_key delegator_name s.delegate_accounts))
        (T.from_error client_delegator_not_exist)
    delegator ← gets (λ s. StorageMap.get_or T.default_account delegator_name s.delegate_accounts)
    ensure (← gets (λ s. StorageMap.contains_key delegator s.delegates))
        (T.from_error client_not_exist)
    ensure (← gets (λ s. StorageMap.get_or false delegator s.delegates))
        (T.from_error client_not_ready)
    ensure (not (← gets (λ s. StorageMap.contains_key description_cid s.errands)))
        (T.from_error errand_already_executed)
    errand_id ← gets (λ s. generate_errand_id T s delegator)
    let task_info : TaskInfo = record {
      client = T.encode client;
      delegator = delegator_name;
      description_cid = description_cid;
      errand_id = errand_id;
      fee = fee;
    }
    block_number ← gets (λ s. s.block_number)
    queue_task client task_info description_cid fee block_number
    modify
        (λ s. record s { client_delegate = StorageMap.insert client delegator s.client_delegate })
    deposit_event (task_began client description_cid delegator)

  unfoldable pub init_errand : T.Origin → T.AccountId → ErrandId → Cid → Dispatch T (Unit {0})
  unfolding add_processing
  init_errand origin client errand_id description_cid = do
    sender ← lift (T.ensure_signed origin)
    ensure (← gets (λ s. StorageMap.contains_key client s.client_delegate))
        (T.from_error client_delegator_not_exist)
    ensure (sender == (← gets (λ s. StorageMap.get_or T.default_account client s.client_delegate)))
        (T.from_error client_delegator_not_exist)
    let errand : Errand = record {
      account_id = T.encode client;
      errand_id = errand_id;
      description_cid = description_cid;
      status = processing;
      result = [];
    }
    modify (λ s. record s { errands = StorageMap.insert description_cid errand s.errands })
    modify (add_processing description_cid)
    deposit_event (errand_inited client description_cid)
