-- ===== src/Pallet/Parties.antt =====
-- Who is a party of a chain: the signers of its calls, and nobody else.
use substrate_demo.Prelude.{
  ℕ, ◌≡◌, sym, ap, ◌∙◌, true, inl, inr, some, List, Bytes, Eq, bytes_eq, ok, arith, contains,
  Option-cases, Result-cases,
}
use substrate_demo.Pallet.Types.{Call, Cid, Errand, ErrandId, DelegatorName, NetAddress}
use substrate_demo.Pallet.Config.{Trait, IsLawful}
use substrate_demo.Pallet.Store.{Store}
use substrate_demo.Pallet.Delegation.{request_delegate, update_delegate_status, unreserve}
use substrate_demo.Pallet.Tasks.{begin_task, init_errand}
use substrate_demo.Pallet.Results.{update_errand}
use substrate_demo.Pallet.Call.{dispatch}
use substrate_demo.Pallet.Owners.{update_errand-owner, update_errand-delegate_accounts}
use substrate_demo.Pallet.Frame.{update_errand-task_book}
use substrate_demo.Pallet.Begin.{begin_task-cases}
use substrate_demo.Pallet.Conservation.{HasParties}

module _ (T : Trait) where
  instance abbrev account_eq : Eq T.AccountId
  account_eq = T.account_eq

  -- The signer of a call, if there is one, is listed.
  abbrev pub IsSignedBy : List T.AccountId → T.Origin → Type 0
  IsSignedBy accounts o = (a : T.AccountId) → T.ensure_signed o ≡ ok a → contains a accounts ≡ true

  -- All accounts that the storage names as clients or delegates are listed.
  pub record Knows (accounts : List T.AccountId) (s : Store T) : Type 0 where
    pub owned :
        (c : Cid) (e : Errand) (a : T.AccountId)
        → s.errands c ≡ some e
        → T.decode e.account_id ≡ some a
        → contains a accounts ≡ true
    pub delegating :
        (a d : T.AccountId)
        → s.client_delegate a ≡ some d
        → (contains a accounts ≡ true) × (contains d accounts ≡ true)
    pub registered :
        (n : DelegatorName) (d : T.AccountId)
        → s.delegate_accounts n ≡ some d
        → contains d accounts ≡ true

  module _ (accounts : List T.AccountId) where
    request_delegate-Knows :
        (o : T.Origin) (n : DelegatorName) (x : NetAddress) (s : Store T)
        → IsSignedBy accounts o
        → Knows accounts s
        → Knows accounts (request_delegate T o n x s).1
    unfolding request_delegate bytes_eq
    request_delegate-Knows o n x s signed k = elim (Result-cases (T.ensure_signed o)) [
      | inl (e, refused) ↦ rw refused k
      | inr (a, sent) ↦ record {
        owned = λ c e b h q. ground (arith, sent, h, q, k.owned c e b);
        delegating = λ b d h. ground (arith, sent, h, k.delegating b d);
        registered = λ m d h. ground (arith, sent, h, k.registered m d, signed a sent);
      }
    ]

    unreserve-Knows :
        (o : T.Origin) (n : DelegatorName) (a : T.AccountId) (s : Store T)
        → Knows accounts s
        → Knows accounts (unreserve T o n a s).1
    unfolding unreserve bytes_eq
    unreserve-Knows o n a s k = record {
      owned = k.owned;
      delegating = λ b d h. ground (arith, h, k.delegating b d);
      registered = λ m d h. ground (arith, h, k.registered m d);
    }

    update_delegate_status-Knows :
        (o : T.Origin) (a : T.AccountId) (s : Store T)
        → Knows accounts s
        → Knows accounts (update_delegate_status T o a s).1
    unfolding update_delegate_status
    update_delegate_status-Knows o a s k = record {
      owned = λ c e b h. ground (arith, h, k.owned c e b);
      delegating = λ b d h. ground (arith, h, k.delegating b d);
      registered = λ m d h. ground (arith, h, k.registered m d);
    }

    begin_task-Knows :
        IsLawful T
        → (o : T.Origin) (n : DelegatorName) (c : Cid) (fee : ℕ) (s : Store T)
        → IsSignedBy accounts o
        → Knows accounts s
        → Knows accounts (begin_task T o n c fee s).1
    begin_task-Knows law o n c fee s signed k = elim (begin_task-cases T o n c fee s law) [
      | inl (may, fresh, (paid, done)) ↦ rw done (record {
        owned = k.owned;
        delegating = λ a d h. ground (
          arith,
          h,
          k.delegating a d,
          signed may.client may.sent,
          k.registered n may.delegator may.named,
        );
        registered = k.registered;
      })
      | inr (inl refused) ↦ rw (refused.0) k
      | inr (inr (e, failed)) ↦ rw failed (record {
        owned = λ c e a h. ground (arith, h, k.owned c e a);
        delegating = λ a d h. ground (arith, h, k.delegating a d);
        registered = λ m d h. ground (arith, h, k.registered m d);
      })
    ]

    init_errand-Knows :
        IsLawful T
        → (o : T.Origin) (a : T.AccountId) (i : ErrandId) (c : Cid) (s : Store T) → Knows accounts s
        → Knows accounts (init_errand T o a i c s).1
    unfolding init_errand bytes_eq
    init_errand-Knows law o a i c s k = elim (Result-cases (T.ensure_signed o)) [
      | inl (e, refused) ↦ rw refused k
      | inr (b, sent) ↦ elim (Option-cases (s.client_delegate a)) [
        | inl unknown ↦ record {
          owned = λ c' e b h. ground (arith, sent, unknown, h, k.owned c' e b);
          delegating = λ b d h. ground (arith, sent, unknown, h, k.delegating b d);
          registered = λ m d h. ground (arith, sent, unknown, h, k.registered m d);
        }
        | inr (d, known) ↦ record {
          owned = λ c' e b h q. ground (
            arith,
            sent,
            known,
            h,
            q,
            k.owned c' e b,
            k.delegating a d known,
            law.decode-encode a,
          );
          delegating = λ b d h. ground (arith, sent, known, h, k.delegating b d);
          registered = λ m d h. ground (arith, sent, known, h, k.registered m d);
        }
      ]
    ]

    update_errand-Knows :
        (o : T.Origin) (c : Cid) (r : Bytes) (s : Store T)
        → Knows accounts s
        → Knows accounts (update_errand T o c r s).1
    update_errand-Knows o c r s k = record {
      owned = λ c' e' a h decoded.
          let (e, found, same) = update_errand-owner T o c c' r s e' h in
          k.owned c' e a found (ap T.decode (sym same) ∙ decoded);
      delegating = λ a d h.
          k.delegating a d
            (ap (λ b. b.client_delegate a) (sym (update_errand-task_book T o c r s)) ∙ h);
      registered = λ m d h.
          k.registered m d (ap (λ f. f m) (sym (update_errand-delegate_accounts T o c r s)) ∙ h);
    }

    pub dispatch-Knows :
        IsLawful T
        → (c : Call T.AccountId) (o : T.Origin) (s : Store T) → IsSignedBy accounts o
        → Knows accounts s
        → Knows accounts (dispatch T c o s).1
    unfolding dispatch
    dispatch-Knows law (Call.request_delegate n a) o s signed k =
        request_delegate-Knows o n a s signed k
    dispatch-Knows law (Call.update_delegate_status a) o s signed k =
        update_delegate_status-Knows o a s k
    dispatch-Knows law (Call.begin_task n c f) o s signed k =
        begin_task-Knows law o n c f s signed k
    dispatch-Knows law (Call.init_errand a i c) o s signed k = init_errand-Knows law o a i c s k
    dispatch-Knows law (Call.update_errand c r) o s signed k = update_errand-Knows o c r s k
    dispatch-Knows law (Call.unreserve n a) o s signed k = unreserve-Knows o n a s k

    -- Whoever is paid is listed, if the default account is.
    pub Knows-HasParties :
        (s : Store T)
        → contains T.default_account accounts ≡ true
        → Knows accounts s
        → HasParties T accounts s
    Knows-HasParties s default k c e a found decoded = (
      k.owned c e a found decoded,
      elim (Option-cases (s.client_delegate a)) [
        | inl unset ↦ ground (arith, unset, default)
        | inr (d, set) ↦ ground (arith, set, k.delegating a d set)
      ],
    )
