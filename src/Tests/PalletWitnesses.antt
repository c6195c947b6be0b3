-- ===== src/Tests/PalletWitnesses.antt =====
-- The theorems about the pallet at concrete inputs.
use substrate_demo.Prelude.{
  ℕ, ◌≤◌, ◌<◌, ◌≡◌, refl, true, false, none, some, [], ◌∷◌, nat_eq, bytes_eq, arith, is_ok, ◌+◌,
  ◌⊎◌, ok, err, contains,
}
use substrate_demo.Pallet.Types.{Call, Errand, errand_status_eq, done}
use substrate_demo.Pallet.Store.{Store, build}
use substrate_demo.Pallet.Genesis.{genesis_chain}
use substrate_demo.Pallet.Books.{errand_book, task_book, ErrandStep, finished}
use substrate_demo.Pallet.Call.{dispatch, call, here, next}
use substrate_demo.Pallet.Refines.{Step-ErrandStep}
use substrate_demo.Pallet.Invariant.{IsErrandBook}
use substrate_demo.Pallet.TaskInvariant.{IsTaskBook, dispatch_other_blocks}
use substrate_demo.Pallet.Accounts.{account_to_bytes, bytes_to_account, allow_to_update_result}
use substrate_demo.Pallet.Delegation.{request_delegate, update_delegate_status, unreserve}
use substrate_demo.Pallet.Errands.{pay_delegate}
use substrate_demo.Pallet.Tasks.{begin_task}
use substrate_demo.Pallet.Results.{update_errand}
use substrate_demo.Pallet.Queue.{IsFresh, MayBegin, dropped}
use substrate_demo.Pallet.Begin.{IsPaid, current_queue, begun, begin_task-cases}
use substrate_demo.Pallet.Authority.{dispatch_ready_delegate, unreserve_any_origin}
use substrate_demo.Pallet.Payment.{RemovesClient, dispatch-free_le, pay_delegate_lem}
use substrate_demo.Pallet.Branches.{MayReport}
use substrate_demo.Pallet.Voting.{two_reports}
use substrate_demo.Pallet.Lifecycle.{errand_course, errand_course_pays}
use substrate_demo.Tests.Mock.{DispatchError, minimum_balance, mock, mock-IsLawful, root, signed_by}
use substrate_demo.Tests.Samples.{
  purse, production, development, cid, start, with_delegate, errand, with_errand,
}

abbrev request : Call ℕ
request = Call.request_delegate (5 ∷ []) (9 ∷ [])

abbrev registered : Store mock
registered = (dispatch mock request (signed_by 2) (start production)).1

genesis_chain_example :
    IsErrandBook (errand_book registered)
    × IsTaskBook (task_book registered)
    × (registered.development_mode ≡ false)
    × (registered.update_result_accounts ≡ mock.encode 7 ∷ mock.encode 8 ∷ [])
unfolding build
genesis_chain_example =
    genesis_chain mock-IsLawful production purse (next here (call request (signed_by 2) refl))

Step-ErrandStep_example : ErrandStep (errand_book (start production)) (errand_book registered)
Step-ErrandStep_example = Step-ErrandStep {T = mock} (call request (signed_by 2) refl)

dispatch_other_blocks_example :
    (dispatch mock
        (Call.begin_task (5 ∷ []) cid 10)
        (signed_by 3)
        (with_delegate (start production))).1.tasks
      4
    ≡ none
unfolding build
dispatch_other_blocks_example =
    dispatch_other_blocks mock mock-IsLawful (Call.begin_task (5 ∷ []) cid 10) (signed_by 3)
      (with_delegate (start production)) 4 (omega arith)

begin_task-cases_example :
    let s = with_delegate (start production) in
    ((may : MayBegin mock (signed_by 3) (5 ∷ []) cid s) × IsFresh cid (current_queue s)
      × ((p : IsPaid s may.client 10) × (begin_task mock (signed_by 3) (5 ∷ []) cid 10 s
            ≡ (ok tt, begun mock s may.client may.delegator (5 ∷ []) cid 10 p.0))))
    ⊎ (((begin_task mock (signed_by 3) (5 ∷ []) cid 10 s).1 ≡ s)
        × (is_ok (begin_task mock (signed_by 3) (5 ∷ []) cid 10 s).0 ≡ false))
    ⊎ ((e : DispatchError) × (begin_task mock (signed_by 3) (5 ∷ []) cid 10 s
          ≡ (err e, dropped s.block_number s)))
begin_task-cases_example =
    begin_task-cases mock (signed_by 3) (5 ∷ []) cid 10 (with_delegate (start production))
      mock-IsLawful

-- A report is signed by another account than the client of its errand.
dispatch-free_le_example :
    let c : Call ℕ = Call.update_errand cid (3 ∷ []) in
    let s = with_errand errand (start development) in
    let b = (dispatch mock c (signed_by 7) s).1.balances in
    (1000 ≤ b.free 3) ⊎ RemovesClient mock mock-IsLawful c s b 3
dispatch-free_le_example =
    dispatch-free_le mock mock-IsLawful (Call.update_errand cid (3 ∷ [])) (signed_by 7)
      (with_errand errand (start development)) 3 (λ e. ground arith)

pay_delegate_lem_example :
    let s = with_errand errand (start production) in
    let b = (pay_delegate errand s).balances in
    (b.free 2 ≡ 1010)
    × ((b.reserved 3 ≡ 0) ⊎ ((1000 < minimum_balance) × (b.free 3 ≡ 0) × (b.reserved 3 ≡ 0)))
unfolding nat_eq
pay_delegate_lem_example =
    pay_delegate_lem mock mock-IsLawful errand (with_errand errand (start production)) {a = 3}
      {d = 2} {fee = 10} {rest = 0} refl refl refl refl

-- A client that has nothing but a fee and less than the minimum is removed by the payment.
poor : Store mock
poor = record (with_errand errand (start production)) {
  balances = record { free = λ _. 4; reserved = λ _. 10 };
}

poor_client_loses :
    let b = (pay_delegate errand poor).balances in
    (b.free 2 ≡ 14) × (b.free 3 ≡ 0) × (b.reserved 3 ≡ 0)
unfolding pay_delegate bytes_to_account nat_eq poor
poor_client_loses = (refl, refl, refl)

dispatch_ready_delegate_example :
    let c : Call ℕ = Call.update_delegate_status 2 in
    (c ≡ Call.update_delegate_status 2) × (mock.ensure_signed (signed_by 2) ≡ ok 2)
unfolding nat_eq build dispatch update_delegate_status request_delegate
dispatch_ready_delegate_example =
    dispatch_ready_delegate mock (Call.update_delegate_status 2) (signed_by 2) registered 2 refl
      (λ e. cc e)

unreserve_any_origin_example :
    let (r, t) = unreserve mock root (5 ∷ []) 2 (with_delegate (start production)) in
    (r ≡ ok tt)
    × (t.delegates 2 ≡ none)
    × (t.client_delegate 2 ≡ none)
    × (t.delegate_accounts (5 ∷ []) ≡ none)
    × (t.balances ≡ purse)
unfolding build
unreserve_any_origin_example =
    unreserve_any_origin mock root (5 ∷ []) 2 (with_delegate (start production))

-- Accounts 7 and 8 may report.
reporter :
    (o : ℕ) (e : Errand)
    → allow_to_update_result (with_errand e (start production)) (mock.encode o ∷ []) ≡ true
    → MayReport mock (signed_by o) cid (with_errand e (start production))
unfolding build bytes_eq account_to_bytes
reporter o e allowed = record {
  sender = o;
  errand = e;
  bytes = mock.encode o;
  sent = refl;
  found = refl;
  converted = refl;
  allowed = allowed;
}

two_reports_example :
    let s = with_errand errand (start production) in
    let (r, t) = update_errand mock (signed_by 7) cid (3 ∷ []) s in
    let (r', u) = update_errand mock (signed_by 7) cid (4 ∷ []) t in
    (r ≡ ok tt)
    × (t.errands ≡ s.errands)
    × (r' ≡ ok tt)
    × (u.errands cid ≡ some (finished (4 ∷ []) errand))
    × (contains cid u.processing_errands ≡ false)
unfolding build bytes_eq allow_to_update_result reporter
two_reports_example =
    two_reports mock (signed_by 7) (signed_by 7) cid (3 ∷ []) (4 ∷ [])
      (with_errand errand (start production)) (reporter 7 errand refl) (reporter 7 errand refl) refl
      refl refl

errand_course_pays_example :
    let s = start development in
    let (r, t) = errand_course mock 2 3 7 (5 ∷ []) (9 ∷ []) cid 10 (6 ∷ []) (4 ∷ []) s in
    (r ≡ ok tt)
    × (t.errands cid
        ≡ some (record {
          account_id = mock.encode 3;
          errand_id = 6 ∷ [];
          description_cid = cid;
          status = done;
          result = 4 ∷ [];
        }))
    × (contains cid t.processing_errands ≡ false)
    × (t.balances.free 2 ≡ 1010)
    × (((1000 ≡ t.balances.free 3 + 10) × (t.balances.reserved 3 ≡ 0))
        ⊎ ((1000 < 10 + minimum_balance) × (t.balances.free 3 ≡ 0) × (t.balances.reserved 3 ≡ 0)))
unfolding build bytes_eq nat_eq account_to_bytes allow_to_update_result
errand_course_pays_example =
    errand_course_pays mock mock-IsLawful 2 3 7 (5 ∷ []) (9 ∷ []) cid 10 (6 ∷ []) (4 ∷ [])
      (start development) (mock.reserve 3 10 purse).1 {rest = 0} refl refl tt (omega arith) refl
      (omega arith) refl refl refl refl
