-- ===== src/Pallet/Reward.antt =====
-- What the delegate is paid when a second report finishes an errand.
use substrate_demo.Prelude.{
  ℕ, ◌+◌, ◌≤◌, ◌≡◌, refl, ap, ◌∙◌, false, none, some, [], ◌∷◌, Bytes, bytes_eq, ok, arith,
  length-append,
}
use Prim.Native.Nat.{min}
use substrate_demo.Prelude.StorageMap
use substrate_demo.Pallet.Types.{Cid, processing}
use substrate_demo.Pallet.Config.{Trait, IsLawful}
use substrate_demo.Pallet.Store.{Store, get_or-push_or_insert}
use substrate_demo.Pallet.Accounts.{allow_to_update_result}
use substrate_demo.Pallet.Books.{errand_book, vote_count}
use substrate_demo.Pallet.Errands.{pay_delegate}
use substrate_demo.Pallet.Results.{update_errand, add_completed}
use substrate_demo.Pallet.Branches.{MayReport, update_errand_first, update_errand_enough}
use substrate_demo.Pallet.Payment.{
  pay_delegate_lem, update_errand_result-balances, pay_delegate-add_completed,
}

module _ (T : Trait) (law : IsLawful T) where
  module _ (o₁ o₂ : T.Origin) (c : Cid) (x y : Bytes) (s : Store T) (first : MayReport T o₁ c s)
      (second : MayReport T o₂ c s) where
    -- The first report moves no money, and the second makes the payment.
    two_reports-pay_delegate :
        s.development_mode ≡ false
        → first.errand.status ≡ processing
        → s.completed_errands c ≡ none
        → let t = (update_errand T o₁ c x s).1 in
          (t.balances ≡ s.balances)
          × ((update_errand T o₂ c y t).1.balances ≡ (pay_delegate first.errand s).balances)
    unfolding add_completed allow_to_update_result
    two_reports-pay_delegate prod running unvoted =
        let t = add_completed T c first.sender s in
        let t' = add_completed T c second.sender t in
        let counted = get_or-push_or_insert c c first.sender s.completed_errands in
        let counted' = get_or-push_or_insert c c second.sender t.completed_errands in
        let q = update_errand_first T o₁ c x s first prod running (ground (arith, counted)) in
        let again : MayReport T o₂ c t = record {
          sender = second.sender;
          errand = first.errand;
          bytes = second.bytes;
          sent = second.sent;
          found = first.found;
          converted = second.converted;
          allowed = second.allowed;
        } in
        let enough : 2 ≤ vote_count c (errand_book t') = ground (
          arith,
          counted,
          counted',
          length-append (StorageMap.get_or [] c t.completed_errands) (second.sender ∷ []),
        ) in
        let q' = update_errand_enough T o₂ c y t again prod running enough in
        rw q (
          refl,
          ap (λ p. p.1.balances) q'
              ∙ update_errand_result-balances T law c y t' first.found
              ∙ pay_delegate-add_completed T law first.errand c second.sender t
              ∙ pay_delegate-add_completed T law first.errand c first.sender s,
        )

    -- So the delegate gets the fee, or what the client has reserved if that is less.
    pub two_reports_pay :
        {a d : T.AccountId} {fee rest : ℕ}
        → s.development_mode ≡ false
        → first.errand.status ≡ processing
        → s.completed_errands c ≡ none
        → T.decode first.errand.account_id ≡ some a
        → s.client_delegate a ≡ some d
        → s.client_task_fee a ≡ some fee
        → (T.repatriate_reserved a d fee s.balances).0 ≡ ok rest
        → let t = (update_errand T o₁ c x s).1 in
          (t.balances ≡ s.balances)
          × (T.free_balance (update_errand T o₂ c y t).1.balances d
              ≡ T.free_balance s.balances d + min fee (T.reserved_balance s.balances a))
    two_reports_pay {d = d} prod running unvoted decoded delegated noted moved =
        let (kept, paid) = two_reports-pay_delegate prod running unvoted in
        let (gain, _) = pay_delegate_lem T law first.errand s decoded delegated noted moved in
        (kept, ap (λ b. T.free_balance b d) paid ∙ gain)
