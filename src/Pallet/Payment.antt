-- ===== src/Pallet/Payment.antt =====
-- Where the money goes: the fee that is reserved for a task, and its payment to the delegate.
use Prim.Native.Nat.{min}
use native.Mathlib.Nat.{le_refl}
use native.Mathlib.Decide.{dec_lt}
use substrate_demo.Prelude.{
  ℕ, ◌≤◌, ◌<◌, ◌+◌, ◌-◌, ◌≡◌, ◌≢◌, ◌⊎◌, ap, sym, ◌∙◌, subst, refl, Bool-cases, inl, inr, some,
  Bytes, Eq, bytes_eq, nat_eq, ok, err, arith, Option-cases, Result-cases,
}
use substrate_demo.Prelude.StorageMap
use substrate_demo.Pallet.Types.{Call, Errand, DelegatorName, Cid}
use substrate_demo.Pallet.Config.{Trait, IsLawful}
use substrate_demo.Pallet.Store.{Store}
use substrate_demo.Pallet.Accounts.{bytes_to_account}
use substrate_demo.Pallet.Delegation.{request_delegate, update_delegate_status, unreserve}
use substrate_demo.Pallet.Call.{dispatch}
use substrate_demo.Pallet.Results.{update_errand, add_completed}
use substrate_demo.Pallet.Tasks.{begin_task, init_errand}
use substrate_demo.Pallet.Errands.{update_errand_result, pay_delegate}
use substrate_demo.Pallet.Books.{errand_book, vote_count}
use substrate_demo.Pallet.Branches.{
  ErrandStatus-cases, update_errand_guards, update_errand_development, update_errand_closed,
  update_errand_first, update_errand_enough,
}
use substrate_demo.Pallet.Begin.{begin_task-cases}

module _ (T : Trait) (law : IsLawful T) where
  instance abbrev account_eq : Eq T.AccountId
  account_eq = T.account_eq

  abbrev free : Store T → T.AccountId → ℕ
  free s = T.free_balance s.balances

  abbrev reserved : Store T → T.AccountId → ℕ
  reserved s = T.reserved_balance s.balances

  -- What is left to a client that has paid a fee.
  abbrev left : Store T → T.AccountId → ℕ → ℕ
  left s a fee = free s a + (reserved s a - fee)

  -- The account is the client, and the payment has removed it: it would have kept less than the
  -- minimum, and that is lost.
  abbrev pub IsRemoved : Errand → Store T → T.AccountId → T.Balances → Type 0
  IsRemoved e s x b =
      (T.decode e.account_id ≡ some x)
      × (left s x (StorageMap.get_or 0 x s.client_task_fee) < T.minimum_balance)
      × (T.free_balance b x ≡ 0)
      × (T.reserved_balance b x ≡ 0)

  moved_by :
      {a d : T.AccountId} {v rest : ℕ} {b b' : T.Balances}
      → T.repatriate_reserved a d v b ≡ (ok rest, b')
      → v - rest ≡ min v (T.reserved_balance b a)
  moved_by {a} {d} {v} {rest} {b} {b'} p = ground (arith, law.repatriate_rest a d v rest b b' p)

  -- The payment moves the fee on record for the client, or what is reserved if that is less, from
  -- the client's reserved balance to the free balance of the client's delegate. If that leaves less
  -- than the minimum balance to the client, the client may be removed and loses the rest.
  pub pay_delegate_lem :
      (e : Errand) (s : Store T) {a d : T.AccountId} {fee rest : ℕ}
      → T.decode e.account_id ≡ some a
      → s.client_delegate a ≡ some d
      → s.client_task_fee a ≡ some fee
      → (T.repatriate_reserved a d fee s.balances).0 ≡ ok rest
      → (free (pay_delegate e s) d ≡ free s d + min fee (reserved s a))
        × ((reserved (pay_delegate e s) a ≡ reserved s a - fee)
            ⊎ ((left s a fee < T.minimum_balance)
                × (free (pay_delegate e s) a ≡ 0)
                × (reserved (pay_delegate e s) a ≡ 0)))
  unfolding pay_delegate bytes_to_account
  pay_delegate_lem e s {a} {d} {fee} {rest} decoded delegated noted paid =
      let b = (T.repatriate_reserved a d fee s.balances).1 in
      let p : T.repatriate_reserved a d fee s.balances ≡ (ok rest, b) = ground arith in
      let m = moved_by p in
      let q : (pay_delegate e s).balances ≡ b = ground (arith, decoded, delegated, noted) in
      elim (law.repatriate_moves a d fee rest s.balances b p) [
        | inl h ↦
            (ground (arith, q, m, h.free_moved d), inl (ground (arith, q, m, h.reserved_moved a)))
        | inr h ↦ (
          ground (arith, q, m, h.other, h.free_reaped d),
          inr (
            ground (arith, m, h.dust),
            ground (arith, q, h.free_reaped a),
            ground (arith, q, h.reserved_reaped a),
          ),
        )
      ]

  -- A client that pays another account keeps its free balance, or is removed.
  pub pay_delegate_client :
      (e : Errand) (s : Store T) {a d : T.AccountId} {fee rest : ℕ}
      → T.decode e.account_id ≡ some a
      → s.client_delegate a ≡ some d
      → s.client_task_fee a ≡ some fee
      → (T.repatriate_reserved a d fee s.balances).0 ≡ ok rest
      → a ≢ d
      → ((free (pay_delegate e s) a ≡ free s a)
          × (reserved (pay_delegate e s) a ≡ reserved s a - fee))
        ⊎ ((left s a fee < T.minimum_balance)
            × (free (pay_delegate e s) a ≡ 0)
            × (reserved (pay_delegate e s) a ≡ 0))
  unfolding pay_delegate bytes_to_account
  pay_delegate_client e s {a} {d} {fee} {rest} decoded delegated noted paid other =
      let b = (T.repatriate_reserved a d fee s.balances).1 in
      let p : T.repatriate_reserved a d fee s.balances ≡ (ok rest, b) = ground arith in
      let m = moved_by p in
      let q : (pay_delegate e s).balances ≡ b = ground (arith, decoded, delegated, noted) in
      elim (law.repatriate_moves a d fee rest s.balances b p) [
        | inl h ↦
            inl (ground (arith, q, other, h.free_moved a), ground (arith, q, m, h.reserved_moved a))
        | inr h ↦ inr (
          ground (arith, m, h.dust),
          ground (arith, q, h.free_reaped a),
          ground (arith, q, h.reserved_reaped a),
        )
      ]

  -- Finishing an errand moves the money that its payment moves.
  pub update_errand_result-balances :
      (c : Cid) (r : Bytes) (s : Store T) {e : Errand}
      → s.errands c ≡ some e
      → (update_errand_result c r s).balances ≡ (pay_delegate e s).balances
  unfolding update_errand_result pay_delegate bytes_eq
  update_errand_result-balances c r s found = ground arith

  -- A report counted leaves the payment that is due as it was.
  pub pay_delegate-add_completed :
      (e : Errand) (c : Cid) (a : T.AccountId) (s : Store T)
      → (pay_delegate e (add_completed T c a s)).balances ≡ (pay_delegate e s).balances
  unfolding pay_delegate add_completed
  pay_delegate-add_completed e c a s = ground arith

  -- A report moves no money, or makes the payment for its errand.
  pub update_errand-pay_delegate :
      (o : T.Origin) (c : Cid) (r : Bytes) (s : Store T)
      → ((update_errand T o c r s).1.balances ≡ s.balances)
        ⊎ ((e : Errand) × (s.errands c ≡ some e)
            × ((update_errand T o c r s).1.balances ≡ (pay_delegate e s).balances))
  unfolding add_completed
  update_errand-pay_delegate o c r s = elim (update_errand_guards T o c r s) [
    | inr (same, failed) ↦ inl (ap (λ t. t.balances) same)
    | inl may ↦ elim (Bool-cases s.development_mode) [
      | inl dev ↦ inr (
        may.errand,
        may.found,
        ap (λ p. p.1.balances) (update_errand_development T o c r s may dev)
            ∙ update_errand_result-balances c r s may.found,
      )
      | inr prod ↦ elim (ErrandStatus-cases may.errand.status) [
        | inr closed ↦ inl (ap (λ p. p.1.balances) (update_errand_closed T o c r s may prod closed))
        | inl running ↦
            let t = add_completed T c may.sender s in
            elim (dec_lt (vote_count c (errand_book t)) 2) [
              | yes few ↦
                  inl (ap (λ p. p.1.balances) (update_errand_first T o c r s may prod running few))
              | no many ↦
                  let enough : 2 ≤ vote_count c (errand_book t) = omega (arith, many) in
                  inr (
                    may.errand,
                    may.found,
                    ap (λ p. p.1.balances) (update_errand_enough T o c r s may prod running enough)
                        ∙ update_errand_result-balances c r t may.found
                        ∙ pay_delegate-add_completed may.errand c may.sender s,
                  )
            ]
      ]
    ]
  ]

  -- A payment lowers no free balance but that of a client that it removes.
  pay_delegate-free_le :
      (e : Errand) (s : Store T) (x : T.AccountId)
      → (free s x ≤ free (pay_delegate e s) x) ⊎ IsRemoved e s x (pay_delegate e s).balances
  unfolding pay_delegate bytes_to_account
  pay_delegate-free_le e s x = elim (Option-cases (T.decode e.account_id)) [
    | inl bad ↦ inl (ground (arith, bad, le_refl (free s x)))
    | inr (a, decoded) ↦
        let d = StorageMap.get_or T.default_account a s.client_delegate in
        let fee = StorageMap.get_or 0 a s.client_task_fee in
        let b = (T.repatriate_reserved a d fee s.balances).1 in
        let q : (pay_delegate e s).balances ≡ b = ground (arith, decoded) in
        elim (Result-cases (T.repatriate_reserved a d fee s.balances).0) [
          | inl (e', failed) ↦
              let p : T.repatriate_reserved a d fee s.balances ≡ (err e', b) = ground arith in
              inl (ground (arith, q, law.repatriate_failed a d fee s.balances b e' p))
          | inr (rest, paid) ↦
              let p : T.repatriate_reserved a d fee s.balances ≡ (ok rest, b) = ground arith in
              elim (law.repatriate_moves a d fee rest s.balances b p) [
                | inl h ↦ inl (ground (arith, q, h.free_moved x))
                | inr h ↦ elim (account_eq.discrete x a) [
                  | no n ↦ inl (ground (arith, q, n, h.free_reaped x))
                  | yes here ↦ inr (
                    decoded ∙ ap some (sym here),
                    ground (arith, here, moved_by p, h.dust),
                    ground (arith, q, here, h.free_reaped x),
                    ground (arith, q, here, h.reserved_reaped x),
                  )
                ]
              ]
        ]
  ]

  begin_task-free_le :
      (o : T.Origin) (n : DelegatorName) (c : Cid) (fee : ℕ) (s : Store T) (x : T.AccountId)
      → T.ensure_signed o ≢ ok x
      → free s x ≤ free (begin_task T o n c fee s).1 x
  begin_task-free_le o n c fee s x other = elim (begin_task-cases T o n c fee s law) [
    | inl (may, fresh, (paid, done)) ↦
        rw done
          (ground (arith, may.sent, law.reserve_free may.client x fee s.balances paid.0 paid.2))
    | inr (inl refused) ↦ rw (refused.0) (le_refl (free s x))
    | inr (inr (e, failed)) ↦ rw failed (ground (arith, le_refl (free s x)))
  ]

  -- The call is a report on an errand of the account, and its payment has removed the account.
  abbrev pub RemovesClient : Call T.AccountId → Store T → T.Balances → T.AccountId → Type 0
  RemovesClient c s b x =
      (k : Cid) × (r : Bytes) × (e : Errand) × (c ≡ Call.update_errand k r)
      × (s.errands k ≡ some e)
      × IsRemoved e s x b

  update_errand-free_le :
      (o : T.Origin) (k : Cid) (r : Bytes) (s : Store T) (x : T.AccountId)
      → (free s x ≤ free (update_errand T o k r s).1 x)
        ⊎ RemovesClient (Call.update_errand k r) s (update_errand T o k r s).1.balances x
  update_errand-free_le o k r s x = elim (update_errand-pay_delegate o k r s) [
    | inl same ↦ inl (subst (λ b. free s x ≤ T.free_balance b x) (sym same) (le_refl (free s x)))
    | inr (e, found, paid) ↦ elim (pay_delegate-free_le e s x) [
      | inl kept ↦ inl (subst (λ b. free s x ≤ T.free_balance b x) (sym paid) kept)
      | inr removed ↦ inr (k, r, e, refl, found, subst (IsRemoved e s x) (sym paid) removed)
    ]
  ]

  -- No call lowers the free balance of an account that has not signed it, but for one case: a report
  -- that pays for an errand of the account leaves less than the minimum balance to it, and the
  -- account is removed with all that it holds.
  pub dispatch-free_le :
      (c : Call T.AccountId) (o : T.Origin) (s : Store T) (x : T.AccountId)
      → T.ensure_signed o ≢ ok x
      → (free s x ≤ free (dispatch T c o s).1 x) ⊎ RemovesClient c s (dispatch T c o s).1.balances x
  unfolding dispatch request_delegate update_delegate_status unreserve init_errand
  dispatch-free_le (Call.request_delegate n a) o s x other =
      inl (ground (arith, le_refl (free s x)))
  dispatch-free_le (Call.update_delegate_status a) o s x other =
      inl (ground (arith, le_refl (free s x)))
  dispatch-free_le (Call.begin_task n k f) o s x other = inl (begin_task-free_le o n k f s x other)
  dispatch-free_le (Call.init_errand a i k) o s x other = inl (ground (arith, le_refl (free s x)))
  dispatch-free_le (Call.update_errand k r) o s x other = update_errand-free_le o k r s x
  dispatch-free_le (Call.unreserve n a) o s x other = inl (le_refl (free s x))
