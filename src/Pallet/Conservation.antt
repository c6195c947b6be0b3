-- ===== src/Pallet/Conservation.antt =====
-- No call makes money, and none destroys more than a payer's remains below the minimum balance.
use substrate_demo.Prelude.{
  ℕ, ◌+◌, ◌-◌, ◌≤◌, ◌≡◌, refl, sym, ap, subst, ◌∙◌, true, Bool-cases, ◌==◌, if◌then◌else◌, inl, inr,
  some, Bytes, List, Eq, bytes_eq, nat_eq, ok, arith, contains, Option-cases, Result-cases,
}
use substrate_demo.Prelude.StorageMap
use substrate_demo.Pallet.Types.{Call, Errand, DelegatorName, Cid}
use substrate_demo.Pallet.Config.{Trait, IsLawful, IsMoved, IsReaped}
use substrate_demo.Pallet.Store.{Store}
use substrate_demo.Pallet.Accounts.{bytes_to_account}
use substrate_demo.Pallet.Delegation.{request_delegate, update_delegate_status, unreserve}
use substrate_demo.Pallet.Call.{dispatch}
use substrate_demo.Pallet.Results.{update_errand}
use substrate_demo.Pallet.Tasks.{begin_task, init_errand}
use substrate_demo.Pallet.Errands.{pay_delegate}
use substrate_demo.Pallet.Queue.{dropped}
use substrate_demo.Pallet.Begin.{begin_task-cases}
use substrate_demo.Pallet.Payment.{update_errand-pay_delegate}
use substrate_demo.Pallet.Sums.{
  AreDistinct, sum_over, sum_over-add, sum_over_moved, sum_over_at, sum_over_elsewhere,
}

module _ (T : Trait) where
  instance abbrev account_eq : Eq T.AccountId
  account_eq = T.account_eq

  -- What an account holds.
  abbrev pub holdings : T.Balances → T.AccountId → ℕ
  holdings b x = T.free_balance b x + T.reserved_balance b x

  -- Who is paid for an errand of a client.
  abbrev payee : Store T → T.AccountId → T.AccountId
  payee s a = StorageMap.get_or T.default_account a s.client_delegate

  -- The list has the clients of the errands and those who are paid for them.
  abbrev pub HasParties : List T.AccountId → Store T → Type 0
  HasParties accounts s =
      (c : Cid) (e : Errand) (a : T.AccountId)
      → s.errands c ≡ some e
      → T.decode e.account_id ≡ some a
      → (contains a accounts ≡ true) × (contains (payee s a) accounts ≡ true)

  module _ (law : IsLawful T) (accounts : List T.AccountId) (distinct : AreDistinct accounts) where
    abbrev all_holdings : T.Balances → ℕ
    all_holdings b = sum_over (holdings b) accounts

    split_holdings :
        (b : T.Balances)
        → all_holdings b
          ≡ sum_over (T.free_balance b) accounts + sum_over (T.reserved_balance b) accounts
    split_holdings b = sum_over-add (T.free_balance b) (T.reserved_balance b) accounts

    reserve-all_holdings :
        (a : T.AccountId) (v : ℕ) (b b' : T.Balances)
        → T.reserve a v b ≡ (ok tt, b')
        → all_holdings b' ≡ all_holdings b
    reserve-all_holdings a v b b' p =
        let moved =
          sum_over_moved (T.free_balance b) (T.free_balance b') (T.reserved_balance b)
            (T.reserved_balance b') a a v accounts (λ x. law.reserve_free a x v b b' p)
            (λ x. law.reserve_reserved a x v b b' p) distinct refl in
        omega (arith, moved, split_holdings b, split_holdings b')

    moved-all_holdings :
        (a d : T.AccountId) (v rest : ℕ) (b b' : T.Balances)
        → contains a accounts ≡ contains d accounts
        → v - rest ≤ T.reserved_balance b a
        → IsMoved T a d v rest b b'
        → all_holdings b' ≡ all_holdings b
    moved-all_holdings a d v rest b b' both enough h =
        let moved =
          sum_over_moved (T.reserved_balance b) (T.reserved_balance b') (T.free_balance b)
            (T.free_balance b') a d (v - rest) accounts
            (λ x. ground (arith, enough, h.reserved_moved x)) h.free_moved distinct both in
        omega (arith, moved, split_holdings b, split_holdings b')

    -- The sum does not rise, and it falls by less than the minimum balance, or by nothing.
    abbrev pub KeepsAllButDust : T.Balances → T.Balances → Type 0
    KeepsAllButDust b b' =
        (all_holdings b' ≤ all_holdings b) × (all_holdings b ≤ all_holdings b' + T.minimum_balance)

    same-KeepsAllButDust :
        (b b' : T.Balances) → all_holdings b' ≡ all_holdings b → KeepsAllButDust b b'
    same-KeepsAllButDust b b' e = (omega (arith, e), omega (arith, e))

    -- What the accounts would hold if the payer were kept, and the payer's part of it.
    reaped-KeepsAllButDust :
        (a d : T.AccountId) (v rest : ℕ) (b b' : T.Balances)
        → contains a accounts ≡ contains d accounts
        → v - rest ≤ T.reserved_balance b a
        → IsReaped T a d v rest b b'
        → KeepsAllButDust b b'
    reaped-KeepsAllButDust a d v rest b b' both enough h =
        let m = v - rest in
        let free' =
          λ (x : T.AccountId). if x == d then T.free_balance b x + m else T.free_balance b x in
        let reserved' = λ (x : T.AccountId).
          if x == a then T.reserved_balance b x - m else T.reserved_balance b x in
        let left = T.free_balance b a + (T.reserved_balance b a - m) in
        let kept = λ (x : T.AccountId). free' x + reserved' x in
        let moved =
          sum_over_moved (T.reserved_balance b) reserved' (T.free_balance b) free' a d m accounts
            (λ x. ground (arith, enough)) (λ x. refl) distinct both in
        let parts = sum_over-add free' reserved' accounts in
        let step : (x : T.AccountId)
            → kept x ≡ (if x == a then holdings b' x + left else holdings b' x) =
          λ x. ground (arith, h.other, h.free_reaped x, h.reserved_reaped x) in
        elim (Bool-cases (contains a accounts)) [
          | inl there ↦
              let lost = sum_over_at (holdings b') kept a left accounts step distinct there in
              (
                omega (arith, moved, parts, split_holdings b, lost),
                omega (arith, moved, parts, split_holdings b, lost, h.dust),
              )
          | inr absent ↦
              let none_lost = sum_over_elsewhere (holdings b') kept a left accounts step absent in
              (
                omega (arith, moved, parts, split_holdings b, none_lost),
                omega (arith, moved, parts, split_holdings b, none_lost),
              )
        ]

    pay_delegate-KeepsAllButDust :
        (e : Errand) (s : Store T)
        → ((a : T.AccountId)
            → T.decode e.account_id ≡ some a
            → contains a accounts ≡ contains (payee s a) accounts)
        → KeepsAllButDust s.balances (pay_delegate e s).balances
    unfolding pay_delegate bytes_to_account
    pay_delegate-KeepsAllButDust e s parties = elim (Option-cases (T.decode e.account_id)) [
      | inl bad ↦ same-KeepsAllButDust _ _ (rw (bad, pay_delegate, bytes_to_account) refl)
      | inr (a, decoded) ↦
          let d = payee s a in
          let fee = StorageMap.get_or 0 a s.client_task_fee in
          let b = (T.repatriate_reserved a d fee s.balances).1 in
          let q : (pay_delegate e s).balances ≡ b = ground (arith, decoded) in
          elim (Result-cases (T.repatriate_reserved a d fee s.balances).0) [
            | inl (e', failed) ↦ same-KeepsAllButDust _ _ (
                ap all_holdings
                  (q ∙ law.repatriate_failed a d fee s.balances b e' (ground (arith, failed))))
            | inr (rest, paid) ↦
                let p : T.repatriate_reserved a d fee s.balances ≡ (ok rest, b) =
                  ground (arith, paid) in
                let left = law.repatriate_rest a d fee rest s.balances b p in
                let enough : fee - rest ≤ T.reserved_balance s.balances a = omega (arith, left) in
                subst (KeepsAllButDust s.balances) (sym q)
                  (elim (law.repatriate_moves a d fee rest s.balances b p) [
                    | inl h ↦
                        same-KeepsAllButDust _ _ (
                          moved-all_holdings a d fee rest s.balances b (parties a decoded) enough h)
                    | inr h ↦
                        reaped-KeepsAllButDust a d fee rest s.balances b (parties a decoded) enough
                          h
                  ])
          ]
    ]

    update_errand-KeepsAllButDust :
        (o : T.Origin) (c : Cid) (r : Bytes) (s : Store T)
        → HasParties accounts s
        → KeepsAllButDust s.balances (update_errand T o c r s).1.balances
    update_errand-KeepsAllButDust o c r s parties =
        elim (update_errand-pay_delegate T law o c r s) [
          | inl same ↦ same-KeepsAllButDust _ _ (ap all_holdings same)
          | inr (e, found, paid) ↦ subst (KeepsAllButDust s.balances) (sym paid) (
              pay_delegate-KeepsAllButDust e s
                (λ a decoded. let (p, q) = parties c e a found decoded in p ∙ sym q))
        ]

    begin_task-all_holdings :
        (o : T.Origin) (n : DelegatorName) (c : Cid) (fee : ℕ) (s : Store T)
        → all_holdings (begin_task T o n c fee s).1.balances ≡ all_holdings s.balances
    begin_task-all_holdings o n c fee s = elim (begin_task-cases T o n c fee s law) [
      | inl (may, fresh, (paid, done)) ↦
          ap (λ p. all_holdings p.1.balances) done
          ∙ reserve-all_holdings may.client fee s.balances paid.0 paid.2
      | inr (inl refused) ↦ ap (λ t. all_holdings t.balances) refused.0
      | inr (inr (e, failed)) ↦
          ap (λ p. all_holdings p.1.balances) failed
          ∙ ap all_holdings
              (let e : (dropped s.block_number s).balances ≡ s.balances = ground arith in e)
    ]

    -- A call by any origin, accepted or not, makes no money for a list of accounts that names no
    -- account twice and has the clients of all errands and the accounts that are paid for them; and
    -- it loses no more than the minimum balance of one account.
    pub dispatch-KeepsAllButDust :
        (c : Call T.AccountId) (o : T.Origin) (s : Store T)
        → HasParties accounts s
        → KeepsAllButDust s.balances (dispatch T c o s).1.balances
    unfolding dispatch request_delegate update_delegate_status unreserve init_errand
    dispatch-KeepsAllButDust (Call.request_delegate n a) o s parties =
        same-KeepsAllButDust _ _ (ground arith)
    dispatch-KeepsAllButDust (Call.update_delegate_status a) o s parties =
        same-KeepsAllButDust _ _ (ground arith)
    dispatch-KeepsAllButDust (Call.begin_task n k f) o s parties =
        same-KeepsAllButDust _ _ (begin_task-all_holdings o n k f s)
    dispatch-KeepsAllButDust (Call.init_errand a i k) o s parties =
        same-KeepsAllButDust _ _ (ground arith)
    dispatch-KeepsAllButDust (Call.update_errand k r) o s parties =
        update_errand-KeepsAllButDust o k r s parties
    dispatch-KeepsAllButDust (Call.unreserve n a) o s parties = same-KeepsAllButDust _ _ refl
