-- ===== src/Tests/OffchainWitnesses.antt =====
-- The theorems about the off-chain worker at concrete inputs.
use substrate_demo.Prelude.{
  ◌≡◌, ◌⊎◌, refl, true, false, none, some, List, [], ◌∷◌, Bytes, nat_eq, bytes_eq, ok, err, arith,
  ap, length,
}
use substrate_demo.Prelude.StorageMap
use substrate_demo.Pallet.Types.{TaskInfo}
use substrate_demo.Pallet.Store.{build}
use substrate_demo.Pallet.Accounts.{account_to_bytes}
use substrate_demo.Offchain.World.{TaskResults}
use substrate_demo.Offchain.Storage.{
  WorkerError, operate_local_storage, local_storage_tasks_results_key,
  local_storage_tasks_results_lock,
}
use substrate_demo.Offchain.Delegate.{get_url, load_delegate_info, save_delegate_info}
use substrate_demo.Offchain.Locking.{IsFree, operate_local_storage-cases, load-save}
use substrate_demo.Offchain.Signing.{Node, get_accounts, signer_filter}
use substrate_demo.Offchain.Worker.Results.{load_tasks_results_info}
use substrate_demo.Offchain.Worker.Entry.{offchain_worker}
use substrate_demo.Offchain.Worker.Reports.{report_calls, load_tasks_results_info_sends}
use substrate_demo.Offchain.Worker.Sending.{
  IsSameChain, send_all_unregistered, send_one_undelivered,
}
use substrate_demo.Offchain.Worker.Initialising.{IsInitialised, send_errand_tasks_initialises}
use substrate_demo.Pallet.Delegation.{request_delegate}
use substrate_demo.Offchain.Worker.Isolation.{offchain_worker-IsSameChain}
use substrate_demo.Offchain.Worker.Send.{send_errand_tasks, send_all, send_one, send_to_delegator}
use substrate_demo.Offchain.Http.{http_post, http_post_timeout}
use substrate_demo.Offchain.Fetching.{request_at, http_post_accepted, fetch_errand_result_info_adds}
use substrate_demo.Offchain.Task.{
  send_task_to_tea_network, send_task_internal, fetch_errand_result_info, http_query_task_result,
}
use substrate_demo.Offchain.Text.{from_utf8}
use substrate_demo.Offchain.World.{Response}
use substrate_demo.Offchain.Worker.Applications.{Submission}
use substrate_demo.Tests.Mock.{signed_by, mock, mock-IsLawful}
use substrate_demo.Tests.Samples.{production, cid, start, task, with_delegate, with_task}
use substrate_demo.Tests.NodeMock.{
  NodeWorld, flag, results, no_info, result_info, node_mock, node_mock-IsLawfulStorage,
}

abbrev empty_world : NodeWorld
empty_world = record { storage = StorageMap.empty; keys = [] }

-- The keys of account 2, whose application is in the current block, and of account 7.
abbrev keyed_world : NodeWorld
keyed_world = record { storage = StorageMap.empty; keys = 2 ∷ 7 ∷ [] }

abbrev stored_results : TaskResults
stored_results = (cid, result_info) ∷ []

abbrev results_world : NodeWorld
results_world = record keyed_world {
  storage =
      StorageMap.insert local_storage_tasks_results_key (results stored_results) StorageMap.empty;
}

abbrev node : NodeWorld → Node node_mock
node w = record { chain = start production; world = w; submitted = [] }

abbrev applied : Node node_mock
applied =
    let s = start production in
    record (node keyed_world) {
      chain = record s {
        delegates_applys = StorageMap.insert 4 ((5 ∷ [], 2) ∷ []) s.delegates_applys;
      };
    }

abbrev store_flag : Bytes → NodeWorld → Unit {0} × NodeWorld
store_flag key w = (tt, record w { storage = StorageMap.insert key (flag true) w.storage })

operate_local_storage-cases_example :
    (IsFree node_mock (2 ∷ []) empty_world
      × (operate_local_storage node_mock (1 ∷ []) (2 ∷ []) store_flag empty_world ≡ (
          let (r, w') =
            store_flag (1 ∷ []) (node_mock.set node_mock.bool_codec (2 ∷ []) true empty_world) in
          (ok r, node_mock.set node_mock.bool_codec (2 ∷ []) false w'))))
    ⊎ ((e : WorkerError) × (operate_local_storage node_mock (1 ∷ []) (2 ∷ []) store_flag empty_world
          ≡ (err e, empty_world)))
operate_local_storage-cases_example =
    operate_local_storage-cases node_mock node_mock-IsLawfulStorage (1 ∷ []) (2 ∷ []) store_flag
      empty_world

load-save_example :
    (load_delegate_info node_mock
      (6 ∷ [])
      (save_delegate_info node_mock (6 ∷ []) no_info empty_world).1).0
    ≡ ok no_info
unfolding save_delegate_info operate_local_storage bytes_eq
load-save_example =
    load-save node_mock node_mock-IsLawfulStorage (6 ∷ []) no_info empty_world refl refl

load_tasks_results_info_sends_example :
    let (r, n') = load_tasks_results_info node_mock none (node results_world) in
    (r ≡ ok tt)
    × (n'.submitted ≡ report_calls node_mock none stored_results)
    × (node_mock.get node_mock.results_codec local_storage_tasks_results_key n'.world
        ≡ some (some []))
    × IsFree node_mock local_storage_tasks_results_lock n'.world
    × (n'.chain ≡ start production)
unfolding bytes_eq
load_tasks_results_info_sends_example =
    load_tasks_results_info_sends node_mock node_mock-IsLawfulStorage none (node results_world) refl
      refl

abbrev queued : Node node_mock
queued = record (node keyed_world) { chain = with_task (with_delegate (start production)) }

abbrev unregistered : TaskInfo
unregistered = record task { delegator = 6 ∷ [] }

send_all_unregistered_example :
    send_all node_mock ((2, 2) ∷ []) (task ∷ unregistered ∷ task ∷ []) queued
    ≡ send_all node_mock ((2, 2) ∷ []) (task ∷ []) queued
unfolding build bytes_eq
send_all_unregistered_example =
    send_all_unregistered node_mock ((2, 2) ∷ []) (task ∷ []) unregistered (task ∷ []) queued refl

send_one_undelivered_example :
    let (go_on, n') = send_one node_mock ((2, 2) ∷ []) task queued in
    (go_on ≡ true)
    × (n'.submitted ≡ [])
    × (mock.reserved_balance n'.chain.balances 3 ≡ 0)
    × (mock.reserved_balance n'.chain.balances 2 ≡ 0)
unfolding bytes_eq nat_eq send_to_delegator signer_filter account_to_bytes send_task_to_tea_network
    send_task_internal load_delegate_info operate_local_storage send_one build
send_one_undelivered_example =
    send_one_undelivered node_mock mock-IsLawful ((2, 2) ∷ []) task queued refl refl
      (λ e. omega (arith, e)) (λ e. omega (arith, ap length e)) refl

offchain_worker-IsSameChain_example :
    IsSameChain node_mock queued (offchain_worker node_mock 4 queued)
offchain_worker-IsSameChain_example = offchain_worker-IsSameChain node_mock 4 queued

http_post_accepted_example :
    (pending : Unit {0}) × (response : Response) × ((node_mock.send
        (request_at node_mock (1 ∷ []) 0)
        empty_world).0
      ≡ ok pending)
    × ((node_mock.try_wait pending http_post_timeout empty_world).0 ≡ ok (ok response))
    × (response.code ≡ 200)
    × (res_body : Bytes) × (from_utf8 response.body ≡ some res_body)
    × (node_mock.parse_response res_body ≡ ok [])
unfolding http_post from_utf8
http_post_accepted_example = http_post_accepted node_mock (1 ∷ []) empty_world refl

fetch_errand_result_info_adds_example :
    let (r, w') = fetch_errand_result_info node_mock (1 ∷ []) cid (9 ∷ []) results_world in
    (r ≡ ok true)
    × (node_mock.get node_mock.results_codec local_storage_tasks_results_key w'
        ≡ some (some ((cid, result_info) ∷ (cid, result_info) ∷ [])))
    × IsFree node_mock local_storage_tasks_results_lock w'
unfolding bytes_eq http_post from_utf8 http_query_task_result get_url
fetch_errand_result_info_adds_example =
    fetch_errand_result_info_adds node_mock node_mock-IsLawfulStorage (1 ∷ []) cid (9 ∷ [])
      results_world refl refl refl refl refl

send_errand_tasks_initialises_example :
    (subs : List (Submission node_mock)) × ((send_errand_tasks node_mock 0 queued).submitted ≡ subs)
    × IsInitialised node_mock
        (get_accounts node_mock keyed_world)
        queued.chain.delegate_accounts
        (task ∷ [])
        subs
unfolding nat_eq build
send_errand_tasks_initialises_example = send_errand_tasks_initialises node_mock 0 queued refl refl

-- The storage after the application of account 2.
abbrev applying : Node node_mock
applying = record (node keyed_world) {
  chain = (request_delegate mock (signed_by 2) (5 ∷ []) (9 ∷ []) (start production)).1;
}
