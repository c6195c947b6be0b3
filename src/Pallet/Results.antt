-- ===== src/Pallet/Results.antt =====
-- The call `update_errand` of pallets/abc-demo/src/lib.rs.
use substrate_demo.Prelude.{
  Bool, true, none, some, [], ◌∷◌, Bytes, Eq, bytes_eq, ◌==◌, leb, length, Result, ok, err, lift,
  gets, modify, ensure, pure, ◌>>=◌, ◌>>◌, if◌then◌else◌,
}
use substrate_demo.Prelude.StorageMap
use substrate_demo.Pallet.Types.{
  Cid, processing, errand_status_eq, errand_task_not_exist, no_right_to_update_errand,
  errand_task_completed, errand_updated, min_update_result_account, Error,
}
use substrate_demo.Pallet.Config.{Trait}
use substrate_demo.Pallet.Store.{Store, Dispatch, deposit_event, push_or_insert}
use substrate_demo.Pallet.Accounts.{account_to_bytes, allow_to_update_result}
use substrate_demo.Pallet.Errands.{update_errand_result}

module _ (T : Trait) where
  instance abbrev account_eq : Eq T.AccountId
  account_eq = T.account_eq

  -- `?` on a helper of the module: its error becomes a dispatch error.
  abbrev or_dispatch_error : {A : Type 0} → Result Error A → Result T.DispatchError A
  or_dispatch_error (ok a) = ok a
  or_dispatch_error (err e) = err (T.from_error e)

  -- `if CompletedErrands::contains_key { take; push; insert } else { insert }`
  unfoldable pub add_completed : Cid → T.AccountId → Store T → Store T
  add_completed description_cid sender s = record s {
    completed_errands = push_or_insert description_cid sender s.completed_errands;
  }

  -- The test under `if let Some(errand) = Errands::get(…)`.
  unfoldable pub is_processing : Cid → Store T → Bool
  unfolding errand_status_eq
  is_processing description_cid s = elim (s.errands description_cid) [
    | none ↦ true
    | some errand ↦ errand.status == processing
  ]

  unfoldable pub finish_errand : Cid → Bytes → Dispatch T (Unit {0})
  finish_errand description_cid result = do
    modify (update_errand_result description_cid result)
    deposit_event (errand_updated description_cid result)

  unfoldable pub update_errand : T.Origin → Cid → Bytes → Dispatch T (Unit {0})
  unfolding finish_errand
  update_errand origin description_cid result = do
    sender ← lift (T.ensure_signed origin)
    ensure (← gets (λ s. StorageMap.contains_key description_cid s.errands))
        (T.from_error errand_task_not_exist)
    sender_account ← lift (or_dispatch_error (account_to_bytes T sender))
    ensure (← gets (λ s. allow_to_update_result s (sender_account ∷ [])))
        (T.from_error no_right_to_update_errand)
    development_mode ← gets (λ s. s.development_mode)
    if development_mode then finish_errand description_cid result else (do
      modify (add_completed description_cid sender)
      ensure (← gets (is_processing description_cid)) (T.from_error errand_task_completed)
      enough ← gets (λ s.
          leb min_update_result_account
            (length (StorageMap.get_or [] description_cid s.completed_errands)))
      if enough then finish_errand description_cid result else pure tt)
