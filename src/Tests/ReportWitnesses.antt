-- ===== src/Tests/ReportWitnesses.antt =====
-- The theorems about sequences of reports, and from a stored result to its report, at concrete inputs.
use substrate_demo.Prelude.{
  ℕ, arith, Bytes, List, ◌≡◌, ◌≤◌, ◌*◌, refl, true, false, contains, inl, none, some, [], ◌∷◌,
  nat_eq, bytes_eq, ok, length,
}
use substrate_demo.Prelude.StorageMap
use substrate_demo.Pallet.Types.{Call, Cid}
use substrate_demo.Pallet.Store.{Store, build}
use substrate_demo.Pallet.Accounts.{account_to_bytes, allow_to_update_result}
use substrate_demo.Pallet.Books.{finished}
use substrate_demo.Pallet.Call.{dispatch}
use substrate_demo.Pallet.Branches.{MayReport}
use substrate_demo.Pallet.Potential.{accepted_reports, accepted_reports_bound}
use substrate_demo.Pallet.Settled.{after_reports, after_reports_settled}
use substrate_demo.Offchain.Storage.{local_storage_tasks_results_key, operate_local_storage}
use substrate_demo.Offchain.Signing.{Node, get_account_ids}
use substrate_demo.Offchain.Worker.Round.{FindsResult, two_nodes_finish}
use substrate_demo.Offchain.Worker.Entry.{offchain_worker}
use substrate_demo.Offchain.Task.{
  http_query_task_result, fetch_errand_result_info, fetch_single_task_result, add_result,
}
use substrate_demo.Offchain.Http.{http_post}
use substrate_demo.Offchain.Text.{from_utf8}
use substrate_demo.Offchain.Delegate.{get_url}
use substrate_demo.Offchain.Worker.Results.{query_errand_task_results, may_report, query_one}
use substrate_demo.Offchain.Worker.Querying.{
  Query, AreQueries, fetch_all, query_errand_task_results-AreQueries,
}
use substrate_demo.Tests.Runs.{opened, opened-IsErrandBook, opened_errand}
use substrate_demo.Tests.Mock.{mock, mock-IsLawful, signed_by}
use substrate_demo.Tests.Samples.{production, development, cid, start, errand, with_errand}
use substrate_demo.Tests.NodeMock.{results, result_info, node_mock, node_mock-IsLawfulStorage}

abbrev reported : List (mock.Origin × Cid × Bytes)
reported = (signed_by 7, cid, 3 ∷ []) ∷ (signed_by 8, cid, 4 ∷ []) ∷ (signed_by 7, cid, 5 ∷ []) ∷ []

accepted_reports_bound_example :
    accepted_reports mock reported opened ≤ 2 * length opened.processing_errands
accepted_reports_bound_example =
    accepted_reports_bound mock reported opened opened-IsErrandBook opened_errand.1

reported_by :
    (o : ℕ) (s : Store mock)
    → s.errands cid ≡ some errand
    → allow_to_update_result s (mock.encode o ∷ []) ≡ true
    → MayReport mock (signed_by o) cid s
unfolding account_to_bytes
reported_by o s found allowed = record {
  sender = o;
  errand = errand;
  bytes = mock.encode o;
  sent = refl;
  found = found;
  converted = refl;
  allowed = allowed;
}

after_reports_settled_example :
    let s = with_errand errand (start production) in
    let u = after_reports mock cid ((signed_by 7, 3 ∷ []) ∷ (signed_by 8, 4 ∷ []) ∷ []) s in
    let t =
      after_reports mock cid
        ((signed_by 7, 3 ∷ []) ∷ (signed_by 8, 4 ∷ []) ∷ (signed_by 7, 5 ∷ []) ∷ [])
        s in
    (t.errands cid ≡ some (finished (4 ∷ []) errand))
    × (t.errands ≡ u.errands)
    × (t.balances ≡ u.balances)
unfolding build bytes_eq allow_to_update_result reported_by
after_reports_settled_example =
    after_reports_settled mock cid (signed_by 7) (signed_by 8) (3 ∷ []) (4 ∷ [])
      ((signed_by 7, 5 ∷ []) ∷ []) (with_errand errand (start production))
      (reported_by 7 (with_errand errand (start production)) refl refl)
      (reported_by 8 (with_errand errand (start production)) refl refl) refl refl refl

abbrev node : Node node_mock
node = record {
  chain = with_errand errand (start development);
  world = record {
    storage =
        StorageMap.insert local_storage_tasks_results_key (results ((cid, result_info) ∷ []))
          StorageMap.empty;
    keys = 7 ∷ [];
  };
  submitted = [];
}

-- The machine of a delegate answers a node of the account that the errand is completed.
abbrev with_address : Store mock → Store mock
with_address s = record s {
  delegate_net_address = StorageMap.insert 2 (9 ∷ []) s.delegate_net_address;
}

abbrev polling : ℕ → Node node_mock
polling key = record {
  chain = with_address (with_errand errand (start production));
  world = record { storage = StorageMap.empty; keys = key ∷ [] };
  submitted = [];
}

polling_finds :
    (key : ℕ)
    → may_report node_mock (polling key) ≡ true
    → may_report node_mock (query_errand_task_results node_mock 20 (polling key)) ≡ true
    → FindsResult node_mock 20 (polling key) cid result_info
unfolding build bytes_eq http_post from_utf8 http_query_task_result get_url nat_eq
polling_finds key allowed after = record {
  errand = errand;
  client = 3;
  response = [];
  answered = (polling key).world;
  tenth = refl;
  no_application = refl;
  no_task = refl;
  may = allowed;
  may_after = after;
  listed = refl;
  found = refl;
  described = refl;
  decoded = refl;
  answer = refl;
  text = refl;
  parsed = refl;
  completed = refl;
  free = inl refl;
  unset = refl;
}

two_nodes_finish_example :
    let s = with_errand errand (start production) in
    (c₁ c₂ : Call ℕ) × ((offchain_worker node_mock 20 (polling 7)).submitted ≡ (none, c₁) ∷ [])
    × ((offchain_worker node_mock 20 (polling 8)).submitted ≡ (none, c₂) ∷ [])
    × (let (r, t) = dispatch mock c₁ (signed_by 7) s in
        let (r', u) = dispatch mock c₂ (signed_by 8) t in
        (r ≡ ok tt)
        × (t.errands ≡ s.errands)
        × (t.balances ≡ s.balances)
        × (r' ≡ ok tt)
        × (u.errands cid ≡ some (finished result_info.result_cid errand))
        × (contains cid u.processing_errands ≡ false)
        × (u.balances.free 2 ≡ 1010))
unfolding build bytes_eq allow_to_update_result reported_by get_account_ids account_to_bytes
    query_errand_task_results query_one fetch_single_task_result fetch_errand_result_info add_result
    http_post from_utf8 http_query_task_result get_url nat_eq operate_local_storage
two_nodes_finish_example =
    let s = with_errand errand (start production) in
    two_nodes_finish node_mock node_mock-IsLawfulStorage
      (record { wins = λ e w free. ground (arith, free) }) 20 20 (polling 7) (polling 8) cid
      result_info result_info (signed_by 7) (signed_by 8) s (reported_by 7 s refl refl)
      (reported_by 8 s refl refl) mock-IsLawful (polling_finds 7 refl refl)
      (polling_finds 8 refl refl) refl refl refl refl refl refl refl

-- A node of the account 7, in the storage with the open errand.
abbrev asking : Node node_mock
asking = record node { chain = opened }

query_errand_task_results-AreQueries_example :
    (queries : List Query) × AreQueries opened opened.processing_errands queries
    × (query_errand_task_results node_mock 20 asking
        ≡ record asking { world = fetch_all node_mock queries asking.world })
unfolding get_account_ids account_to_bytes
query_errand_task_results-AreQueries_example =
    query_errand_task_results-AreQueries node_mock mock-IsLawful 20 asking opened-IsErrandBook
      (omega arith) opened_errand.2
