-- ===== src/Pallet/Refines.antt =====
-- Every step of the chain is a step of the book of the errands.
use substrate_demo.Prelude.{
  ap, sym, subst, inl, inr, Bytes, Eq, ◌==◌, arith, Bool-cases, Option-cases, Result-cases,
}
use native.Mathlib.Decide.{dec_lt}
use substrate_demo.Pallet.Types.{Cid, ErrandId, Call}
use substrate_demo.Pallet.Config.{Trait}
use substrate_demo.Pallet.Store.{Store}
use substrate_demo.Pallet.Accounts.{allow_to_update_result}
use substrate_demo.Pallet.Tasks.{init_errand}
use substrate_demo.Pallet.Results.{add_completed, update_errand}
use substrate_demo.Pallet.Call.{dispatch, Step, call, other_pallets}
use substrate_demo.Pallet.Books.{
  errand_book, ErrandStep, unchanged, opened, reported, voted, decided, vote_count,
}
use substrate_demo.Pallet.Frame.{
  request_delegate-errand_book, update_delegate_status-errand_book, unreserve-errand_book,
  begin_task-errand_book,
}
use substrate_demo.Pallet.Branches.{
  update_errand_development, update_errand_closed, update_errand_first, update_errand_enough,
  update_errand_guards, MayReport, ErrandStatus-cases, update_errand_result-errand_book,
}

module _ (T : Trait) (o : T.Origin) (s : Store T) where
  instance abbrev account_eq : Eq T.AccountId
  account_eq = T.account_eq

  init_errand-ErrandStep :
      (a : T.AccountId) (i : ErrandId) (c : Cid)
      → ErrandStep (errand_book s) (errand_book (init_errand T o a i c s).1)
  unfolding init_errand
  init_errand-ErrandStep a i c = elim (Result-cases (T.ensure_signed o)) [
    | inl (e, refused) ↦ unchanged (rw refused)
    | inr (d, sent) ↦ elim (Option-cases (s.client_delegate a)) [
      | inl missing ↦ unchanged (ground arith)
      | inr (d', found) ↦ elim (Bool-cases (d == d')) [
        | inl mine ↦ opened a i c (ground arith)
        | inr other ↦ unchanged (ground arith)
      ]
    ]
  ]

  module _ (c : Cid) (r : Bytes) (may : MayReport T o c s) where
    open may use {sender, errand}

    update_errand-ErrandStep_allowed :
        ErrandStep (errand_book s) (errand_book (update_errand T o c r s).1)
    unfolding add_completed allow_to_update_result
    update_errand-ErrandStep_allowed = elim (Bool-cases s.development_mode) [
      | inl dev ↦
          reported sender c errand r (may.bytes, may.converted, may.allowed) dev may.found
            (rw (update_errand_development T o c r s may dev)
              (update_errand_result-errand_book T c r s may.found))
      | inr prod ↦ elim (ErrandStatus-cases errand.status) [
        | inr closed ↦
            voted sender c errand (may.bytes, may.converted, may.allowed) prod may.found
              (rw (update_errand_closed T o c r s may prod closed))
        | inl running ↦ elim (dec_lt (vote_count c (errand_book (add_completed T c sender s))) 2) [
          | yes few ↦
              voted sender c errand (may.bytes, may.converted, may.allowed) prod may.found
                (rw (update_errand_first T o c r s may prod running few))
          | no enough ↦
              decided sender c errand r (may.bytes, may.converted, may.allowed) prod may.found
                running (omega arith)
                (rw (update_errand_enough T o c r s may prod running (omega arith))
                  (update_errand_result-errand_book T c r (add_completed T c sender s) may.found))
        ]
      ]
    ]

  pub update_errand-ErrandStep :
      (c : Cid) (r : Bytes) → ErrandStep (errand_book s) (errand_book (update_errand T o c r s).1)
  update_errand-ErrandStep c r = elim (update_errand_guards T o c r s) [
    | inl may ↦ update_errand-ErrandStep_allowed c r may
    | inr (same, _) ↦ unchanged (ap errand_book same)
  ]

  dispatch-ErrandStep :
      (c : Call T.AccountId) → ErrandStep (errand_book s) (errand_book (dispatch T c o s).1)
  unfolding dispatch
  dispatch-ErrandStep (Call.request_delegate n a) =
      unchanged (request_delegate-errand_book T o s n a)
  dispatch-ErrandStep (Call.update_delegate_status a) =
      unchanged (update_delegate_status-errand_book T o s a)
  dispatch-ErrandStep (Call.begin_task n c f) = unchanged (begin_task-errand_book T o n c f s)
  dispatch-ErrandStep (Call.init_errand a i c) = init_errand-ErrandStep a i c
  dispatch-ErrandStep (Call.update_errand c r) = update_errand-ErrandStep c r
  dispatch-ErrandStep (Call.unreserve n a) = unchanged (unreserve-errand_book T o s n a)

-- Whatever a step of the chain does to the storage, it does one of the steps of `ErrandStep` to the
-- book of the errands, and no other.
pub Step-ErrandStep :
    {T : Trait} {s t : Store T} → Step T s t → ErrandStep (errand_book s) (errand_book t)
Step-ErrandStep {T} {s} (call c o e) =
    subst (λ t. ErrandStep (errand_book s) (errand_book t)) (sym e) (dispatch-ErrandStep T o s c)
Step-ErrandStep (other_pallets n seed index b later e) = unchanged (ap errand_book e)
