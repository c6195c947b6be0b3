-- ===== src/Tests/Samples.antt =====
-- Storages of the mock configuration.
use substrate_demo.Prelude.{true, false, [], ◌∷◌, nat_eq, bytes_eq}
use substrate_demo.Prelude.StorageMap
use substrate_demo.Pallet.Types.{Errand, TaskInfo, processing, Cid}
use substrate_demo.Pallet.Store.{Store, GenesisConfig, build}
use substrate_demo.Pallet.Genesis.{empty_store}
use substrate_demo.Tests.Mock.{mock, Purse}

abbrev pub purse : Purse
purse = record { free = λ _. 1000; reserved = λ _. 0 }

abbrev pub production : GenesisConfig
production = record {
  development_mode = false;
  update_result_accounts = mock.encode 7 ∷ mock.encode 8 ∷ [];
}

abbrev pub development : GenesisConfig
development = record { development_mode = true; update_result_accounts = mock.encode 7 ∷ [] }

abbrev pub cid : Cid
cid = 1 ∷ 1 ∷ []

abbrev pub start : GenesisConfig → Store mock
start config = build config (empty_store purse)

-- Account 2 is a ready delegate by the name 5.
abbrev pub with_delegate : Store mock → Store mock
with_delegate s = record s {
  delegates = StorageMap.insert 2 true s.delegates;
  delegate_accounts = StorageMap.insert (5 ∷ []) 2 s.delegate_accounts;
}

abbrev pub task : TaskInfo
task = record {
  client = mock.encode 3;
  delegator = 5 ∷ [];
  description_cid = cid;
  errand_id = [];
  fee = 10;
}

-- A task is queued in the current block.
abbrev pub with_task : Store mock → Store mock
with_task s = record s { tasks = StorageMap.insert s.block_number (task ∷ []) s.tasks }

abbrev pub errand : Errand
errand = record {
  account_id = mock.encode 3;
  errand_id = [];
  description_cid = cid;
  status = processing;
  result = [];
}

-- The errand of client 3 with delegate 2 and a fee of 10, which is reserved.
abbrev pub with_errand : Errand → Store mock → Store mock
with_errand e s = record s {
  errands = StorageMap.insert cid e s.errands;
  processing_errands = cid ∷ [];
  client_delegate = StorageMap.insert 3 2 s.client_delegate;
  client_task_fee = StorageMap.insert 3 10 s.client_task_fee;
  balances = record { free = λ _. 1000; reserved = λ _. 10 };
}
