-- ===== src/Pallet/Lifecycle.antt =====
-- The whole course of an errand on a chain in the development mode, call after call.
use substrate_demo.Prelude.{
  nat_eq, ℕ, ◌<◌, ◌+◌, ◌≡◌, ◌≢◌, ◌⊎◌, inl, inr, refl, ap, ◌∙◌, true, false, none, some, [], ◌∷◌,
  ◌++◌, Bytes, Eq, bytes_eq, ok, arith, Bool, contains, contains-without, ◌>>◌,
}
use substrate_demo.Prelude.StorageMap
use substrate_demo.Pallet.Types.{
  AccountId32, Cid, Errand, ErrandId, DelegatorName, NetAddress, processing, done,
  delegate_requested, delegate_updated, errand_inited,
}
use substrate_demo.Pallet.Config.{Trait, IsLawful}
use substrate_demo.Pallet.Store.{Store, Dispatch, push_or_insert}
use substrate_demo.Pallet.Accounts.{account_to_bytes, allow_to_update_result}
use substrate_demo.Pallet.Branches.{
  MayReport, update_errand_development, update_errand_result-errand_book,
}
use substrate_demo.Pallet.Payment.{
  pay_delegate_lem, pay_delegate_client, update_errand_result-balances,
}
use substrate_demo.Pallet.Queue.{IsFresh, MayBegin}
use substrate_demo.Pallet.Begin.{begun, current_queue, begin_task_accepted}
use substrate_demo.Pallet.Delegation.{request_delegate, update_delegate_status}
use substrate_demo.Pallet.Tasks.{begin_task, init_errand}
use substrate_demo.Pallet.Results.{update_errand}

module _ (T : Trait) where
  instance abbrev account_eq : Eq T.AccountId
  account_eq = T.account_eq

  abbrev pub requested : T.AccountId → DelegatorName → NetAddress → Store T → Store T
  requested d name address s = record s {
    delegates_applys = push_or_insert s.block_number (name, d) s.delegates_applys;
    delegates = StorageMap.insert d false s.delegates;
    delegate_net_address = StorageMap.insert d address s.delegate_net_address;
    delegate_accounts = StorageMap.insert name d s.delegate_accounts;
    events = s.events ++ delegate_requested d name ∷ [];
  }

  pub request_delegate_accepted :
      (o : T.Origin) (name : DelegatorName) (address : NetAddress) (s : Store T) {d : T.AccountId}
      → T.ensure_signed o ≡ ok d
      → s.delegates d ≡ none
      → request_delegate T o name address s ≡ (ok tt, requested d name address s)
  unfolding request_delegate
  request_delegate_accepted o name address s sent new = ground (arith, sent, new)

  abbrev pub readied : T.AccountId → Store T → Store T
  readied d s = record s {
    delegates = StorageMap.insert d true s.delegates;
    events = s.events ++ delegate_updated d ∷ [];
  }

  pub update_delegate_status_accepted :
      (o : T.Origin) (s : Store T) {d : T.AccountId} {r : Bool}
      → T.ensure_signed o ≡ ok d
      → s.delegates d ≡ some r
      → update_delegate_status T o d s ≡ (ok tt, readied d s)
  unfolding update_delegate_status
  update_delegate_status_accepted o s sent known = ground (arith, sent, known)

  abbrev pub inited : T.AccountId → ErrandId → Cid → Store T → Store T
  inited a i c s = record s {
    errands =
        StorageMap.insert c
          (record {
            account_id = T.encode a;
            errand_id = i;
            description_cid = c;
            status = processing;
            result = [];
          })
          s.errands;
    processing_errands = s.processing_errands ++ c ∷ [];
    events = s.events ++ errand_inited a c ∷ [];
  }

  pub init_errand_accepted :
      (o : T.Origin) (a : T.AccountId) (i : ErrandId) (c : Cid) (s : Store T) {d : T.AccountId}
      → T.ensure_signed o ≡ ok d
      → s.client_delegate a ≡ some d
      → init_errand T o a i c s ≡ (ok tt, inited a i c s)
  unfolding init_errand
  init_errand_accepted o a i c s sent mine = ground (arith, sent, mine)

  -- The five calls of an errand, each signed by the account that has to sign it.
  abbrev pub errand_course :
      T.AccountId
      → T.AccountId
      → T.AccountId
      → DelegatorName
      → NetAddress
      → Cid
      → ℕ
      → ErrandId
      → Bytes
      → Dispatch T (Unit {0})
  errand_course d a w name address c fee i result = do
    request_delegate T (T.signed d) name address
    update_delegate_status T (T.signed d) d
    begin_task T (T.signed a) name c fee
    init_errand T (T.signed d) a i c
    update_errand T (T.signed w) c result

  module _ (law : IsLawful T) (d a w : T.AccountId) (name : DelegatorName) (address : NetAddress)
      (c : Cid) (fee : ℕ) (i : ErrandId) (result : Bytes) (s : Store T) (b : T.Balances) where
    -- The storage after the first four calls.
    abbrev before_report : Store T
    before_report = inited a i c (begun T (readied d (requested d name address s)) a d name c fee b)

    four_calls :
        s.delegates d ≡ none
        → s.errands c ≡ none
        → IsFresh c (current_queue s)
        → 0 < fee
        → T.reserve a fee s.balances ≡ (ok tt, b)
        → errand_course d a w name address c fee i result s
          ≡ update_errand T (T.signed w) c result before_report
    unfolding bytes_eq
    four_calls unknown new fresh pos paid =
        let s₁ = requested d name address s in
        let s₂ = readied d s₁ in
        let may : MayBegin T (T.signed a) name c s₂ = record {
          client = a;
          delegator = d;
          sent = law.ensure_signed-signed a;
          named = ground arith;
          ready = ground arith;
          new = new;
        } in
        let s₃ = begun T s₂ a d name c fee b in
        let q₁ =
          request_delegate_accepted (T.signed d) name address s (law.ensure_signed-signed d)
            unknown in
        let q₂ =
          update_delegate_status_accepted (T.signed d) s₁ {r = false} (law.ensure_signed-signed d)
            (ground arith) in
        let q₃ = begin_task_accepted T (T.signed a) name c fee s₂ may b fresh pos paid in
        let q₄ =
          init_errand_accepted (T.signed d) a i c s₃ (law.ensure_signed-signed d) (ground arith) in
        ground (arith, q₁, q₂, q₃, q₄)

    -- An account that is no delegate yet registers and turns ready; a client queues a new task with a
    -- positive fee that it can reserve; the delegate opens the errand; and an account that may report
    -- reports. On a chain in the development mode all five calls succeed, the errand is finished with
    -- the reported result and not listed as open, and the fee has gone from the client's free balance
    -- to the delegate's, if the repatriation succeeds; the client's reserved balance is as before, unless
    -- less than the minimum balance is left to the client: then it may be removed.
    pub errand_course_pays :
        {bytes : AccountId32} {rest : ℕ}
        → s.delegates d ≡ none
        → s.errands c ≡ none
        → IsFresh c (current_queue s)
        → 0 < fee
        → T.reserve a fee s.balances ≡ (ok tt, b)
        → a ≢ d
        → s.development_mode ≡ true
        → account_to_bytes T w ≡ ok bytes
        → allow_to_update_result s (bytes ∷ []) ≡ true
        → (T.repatriate_reserved a d fee b).0 ≡ ok rest
        → let (r, t) = errand_course d a w name address c fee i result s in
          (r ≡ ok tt)
          × (t.errands c
              ≡ some (record {
                account_id = T.encode a;
                errand_id = i;
                description_cid = c;
                status = done;
                result = result;
              }))
          × (contains c t.processing_errands ≡ false)
          × (T.free_balance t.balances d ≡ T.free_balance s.balances d + fee)
          × (((T.free_balance s.balances a ≡ T.free_balance t.balances a + fee)
                × (T.reserved_balance t.balances a ≡ T.reserved_balance s.balances a))
              ⊎ ((T.free_balance s.balances a + T.reserved_balance s.balances a
                    < fee + T.minimum_balance)
                  × (T.free_balance t.balances a ≡ 0)
                  × (T.reserved_balance t.balances a ≡ 0)))
    unfolding bytes_eq allow_to_update_result
    errand_course_pays unknown new fresh pos paid other dev bytes allowed moved =
        let s₄ = before_report in
        let e : Errand = record {
          account_id = T.encode a;
          errand_id = i;
          description_cid = c;
          status = processing;
          result = [];
        } in
        let found : s₄.errands c ≡ some e = ground arith in
        let may : MayReport T (T.signed w) c s₄ = record {
          sender = w;
          errand = e;
          bytes = _;
          sent = law.ensure_signed-signed w;
          found = found;
          converted = bytes;
          allowed = allowed;
        } in
        let book = update_errand_result-errand_book T c result s₄ found in
        let purse = update_errand_result-balances T law c result s₄ found in
        let decoded = law.decode-encode a in
        let delegated : s₄.client_delegate a ≡ some d = ground arith in
        let noted : s₄.client_task_fee a ≡ some fee = ground arith in
        let (gain, _) = pay_delegate_lem T law e s₄ decoded delegated noted moved in
        let client = pay_delegate_client T law e s₄ decoded delegated noted moved other in
        rw
          (
            four_calls unknown new fresh pos paid,
            update_errand_development T (T.signed w) c result s₄ may dev,
          )
          (
            refl,
            ap (λ b. b.errands c) book ∙ ground arith,
            ap (λ b. contains c b.processing_errands) book
                ∙ ground (arith, contains-without c c s₄.processing_errands),
            ap (λ b. T.free_balance b d) purse
                ∙ ground (
                  arith,
                  gain,
                  law.reserve_free a d fee s.balances b paid,
                  law.reserve_reserved a a fee s.balances b paid,
                ),
            elim client [
              | inl (kept, spent) ↦ inl (
                ground (
                  arith,
                  ap (λ b. T.free_balance b a) purse,
                  kept,
                  law.reserve_free a a fee s.balances b paid,
                ),
                ap (λ b. T.reserved_balance b a) purse
                    ∙ ground (arith, spent, law.reserve_reserved a a fee s.balances b paid),
              )
              | inr (dust, free, reserved) ↦ inr (
                ground (
                  arith,
                  dust,
                  law.reserve_free a a fee s.balances b paid,
                  law.reserve_reserved a a fee s.balances b paid,
                ),
                ap (λ b. T.free_balance b a) purse ∙ free,
                ap (λ b. T.reserved_balance b a) purse ∙ reserved,
              )
            ],
          )
