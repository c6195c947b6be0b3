-- ===== src/Tests/Runs.antt =====
-- Runs of the calls on the mock configuration, and an errand that is opened again.
use substrate_demo.Prelude.{
  ℕ, ◌≡◌, refl, some, List, [], ◌∷◌, ◌++◌, true, false, nat_eq, bytes_eq, ok, err, Result,
}
use substrate_demo.Pallet.Types.{
  Call, Errand, done, processing, errand_status_eq, errand_task_completed, client_already_exists,
}
use substrate_demo.Pallet.Store.{Store, build, push_or_insert}
use substrate_demo.Pallet.Accounts.{
  account_to_bytes, bytes_to_account, generate_errand_id, allow_to_update_result,
}
use substrate_demo.Pallet.Errands.{update_errand_result, pay_delegate}
use substrate_demo.Pallet.Delegation.{request_delegate, update_delegate_status, unreserve}
use substrate_demo.Pallet.Tasks.{begin_task, queue_task, ensure_fresh, reserve_fee, init_errand}
use substrate_demo.Pallet.Results.{update_errand, add_completed, is_processing}
use substrate_demo.Pallet.Books.{errand_book}
use substrate_demo.Pallet.Invariant.{IsErrandBook}
use substrate_demo.Pallet.Genesis.{genesis_chain}
use substrate_demo.Pallet.Voting.{reopened_errand_one_report}
use substrate_demo.Pallet.Call.{dispatch, call, Reach, here, next}
use substrate_demo.Tests.Mock.{mock, mock-IsLawful, signed_by, module_error, DispatchError}
use substrate_demo.Tests.Samples.{purse, production, cid, start}

-- The result of a call, and the storage after it.
run : Call ℕ → ℕ → Store mock → Result DispatchError (Unit {0}) × Store mock
unfolding dispatch request_delegate update_delegate_status unreserve begin_task queue_task
    ensure_fresh reserve_fee init_errand update_errand add_completed is_processing
    update_errand_result pay_delegate push_or_insert account_to_bytes bytes_to_account
    generate_errand_id allow_to_update_result build nat_eq bytes_eq
run c a s = dispatch mock c (signed_by a) s

-- The calls that open an errand, and those up to its two reports.
abbrev opening : List (Call ℕ × ℕ)
opening =
    (Call.request_delegate (5 ∷ []) (9 ∷ []), 2)
    ∷ (Call.update_delegate_status 2, 2)
    ∷ (Call.begin_task (5 ∷ []) cid 10, 3)
    ∷ (Call.init_errand 3 (6 ∷ []) cid, 2)
    ∷ []

abbrev calls : List (Call ℕ × ℕ)
calls = opening ++ (Call.update_errand cid (3 ∷ []), 7) ∷ (Call.update_errand cid (4 ∷ []), 8) ∷ []

abbrev run_all : List (Call ℕ × ℕ) → Store mock → Store mock
run_all [] s = s
run_all ((c, a) ∷ rest) s = run_all rest (dispatch mock c (signed_by a) s).1

run_all-Reach :
    (l : List (Call ℕ × ℕ)) (s t : Store mock) → Reach mock s t → Reach mock s (run_all l t)
run_all-Reach [] s t r = r
run_all-Reach ((c, a) ∷ rest) s t r = run_all-Reach rest s _ (next r (call c (signed_by a) refl))

abbrev pub opened : Store mock
opened = run_all opening (start production)

pub opened-IsErrandBook : IsErrandBook (errand_book opened)
opened-IsErrandBook =
    (genesis_chain mock-IsLawful production purse (run_all-Reach opening _ _ here)).0

-- The errand is listed, in the production mode, and account 7 may report on it.
pub opened_errand :
    (opened.processing_errands ≡ cid ∷ [])
    × (opened.development_mode ≡ false)
    × (allow_to_update_result opened (mock.encode 7 ∷ []) ≡ true)
unfolding run
opened_errand = (refl, refl, refl)

abbrev after_reports : Store mock
after_reports = run_all calls (start production)

finished_errand : Errand
finished_errand = record {
  account_id = mock.encode 3;
  errand_id = 6 ∷ [];
  description_cid = cid;
  status = done;
  result = 4 ∷ [];
}

-- The errand has the second report's result, and the delegate has been paid.
after_reports-errands :
    (after_reports.errands cid ≡ some finished_errand)
    × (after_reports.balances.free 2 ≡ 1010)
    × (after_reports.balances.free 3 ≡ 990)
    × (after_reports.processing_errands ≡ [])
unfolding run finished_errand
after_reports-errands = (refl, refl, refl, refl)

-- A third report is refused, and a delegate cannot register twice.
refused_calls :
    ((run (Call.update_errand cid (4 ∷ [])) 7 after_reports).0
      ≡ err (module_error errand_task_completed))
    × ((run (Call.request_delegate (8 ∷ []) []) 2 after_reports).0
        ≡ err (module_error client_already_exists))
unfolding run
refused_calls = (refl, refl)

reopened_errand_one_report_example :
    let s = (init_errand mock (signed_by 2) 3 (6 ∷ []) cid after_reports).1 in
    let (result, u) = update_errand mock (signed_by 7) cid (9 ∷ []) s in
    (result ≡ ok tt) × (u.errands cid ≡ some (record finished_errand { result = 9 ∷ [] }))
unfolding run finished_errand
reopened_errand_one_report_example =
    reopened_errand_one_report mock (signed_by 2) (signed_by 7) 3 (6 ∷ []) cid (9 ∷ [])
      after_reports finished_errand
      (genesis_chain mock-IsLawful production purse (run_all-Reach calls _ _ here)).0 refl refl refl
      refl
      (record {
        sender = 7;
        errand = record finished_errand { status = processing; result = [] };
        bytes = mock.encode 7;
        sent = refl;
        found = refl;
        converted = refl;
        allowed = refl;
      })
