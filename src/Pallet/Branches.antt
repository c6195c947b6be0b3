-- ===== src/Pallet/Branches.antt =====
-- `init_errand` and `update_errand`, branch by branch.
use substrate_demo.Prelude.{
  ◌≤◌, ◌<◌, ◌≡◌, true, false, some, [], ◌∷◌, ◌++◌, Bytes, bytes_eq, ok, err, arith, refl, is_ok,
  ◌⊎◌, inl, inr, Option-cases, Result-cases, Bool-cases,
}
use substrate_demo.Pallet.Types.{
  Errand, ErrandStatus, Cid, AccountId32, processing, done, errand_updated, errand_task_completed,
  errand_status_eq,
}
use substrate_demo.Pallet.Config.{Trait}
use substrate_demo.Pallet.Store.{Store}
use substrate_demo.Pallet.Books.{errand_book, vote_count, close_errand}
use substrate_demo.Pallet.Accounts.{account_to_bytes, allow_to_update_result}
use substrate_demo.Pallet.Errands.{update_errand_result, pay_delegate}
use substrate_demo.Pallet.Results.{is_processing, add_completed, update_errand}

module _ (T : Trait) where
  -- Finishing an errand closes it in the book; the payment does not touch the book.
  pub update_errand_result-errand_book :
      (c : Cid) (r : Bytes) (s : Store T) {e : Errand}
      → s.errands c ≡ some e
      → errand_book (update_errand_result c r s) ≡ close_errand c e r (errand_book s)
  unfolding update_errand_result pay_delegate bytes_eq
  update_errand_result-errand_book c r s {e} h = ground arith

pub ErrandStatus-cases : (st : ErrandStatus) → (st ≡ processing) ⊎ (st ≡ done)
ErrandStatus-cases processing = inl refl
ErrandStatus-cases done = inr refl

-- What a sender must have for `update_errand` to look at the errand.
pub record MayReport (T : Trait) (o : T.Origin) (c : Cid) (s : Store T) : Type 0 where
  pub sender : T.AccountId
  pub errand : Errand
  pub bytes : AccountId32
  pub sent : T.ensure_signed o ≡ ok sender
  pub found : s.errands c ≡ some errand
  pub converted : account_to_bytes T sender ≡ ok bytes
  pub allowed : allow_to_update_result s (bytes ∷ []) ≡ true

-- Either the sender may report, or the call fails and changes nothing.
pub update_errand_guards :
    (T : Trait) (o : T.Origin) (c : Cid) (r : Bytes) (s : Store T)
    → MayReport T o c s
      ⊎ ((update_errand T o c r s).1 ≡ s) × (is_ok (update_errand T o c r s).0 ≡ false)
unfolding update_errand
update_errand_guards T o c r s = elim (Result-cases (T.ensure_signed o)) [
  | inl (e, refused) ↦ inr (ground arith, ground arith)
  | inr (a, sent) ↦ elim (Option-cases (s.errands c)) [
    | inl missing ↦ inr (ground arith, ground arith)
    | inr (e, found) ↦ elim (Result-cases (account_to_bytes T a)) [
      | inl (e', long) ↦ inr (ground arith, ground arith)
      | inr (w, bytes) ↦ elim (Bool-cases (allow_to_update_result s (w ∷ []))) [
        | inl allowed ↦ inl (record {
          sender = a;
          errand = e;
          bytes = w;
          sent = sent;
          found = found;
          converted = bytes;
          allowed = allowed;
        })
        | inr barred ↦ inr (ground arith, ground arith)
      ]
    ]
  ]
]

module _ (T : Trait) (o : T.Origin) (c : Cid) (r : Bytes) (s : Store T)
    (may : MayReport T o c s) where
  open may use {sender, errand}

  pub update_errand_development :
      s.development_mode ≡ true
      → update_errand T o c r s ≡ (
        ok tt,
        record (update_errand_result c r s) {
          events = (update_errand_result c r s).events ++ errand_updated c r ∷ [];
        },
      )
  unfolding update_errand
  update_errand_development dev = ground arith

  pub update_errand_closed :
      s.development_mode ≡ false
      → errand.status ≡ done
      → update_errand T o c r s
        ≡ (err (T.from_error errand_task_completed), add_completed T c sender s)
  unfolding update_errand add_completed is_processing
  update_errand_closed dev closed = ground arith

  pub update_errand_first :
      s.development_mode ≡ false
      → errand.status ≡ processing
      → vote_count c (errand_book (add_completed T c sender s)) < 2
      → update_errand T o c r s ≡ (ok tt, add_completed T c sender s)
  unfolding update_errand add_completed is_processing
  update_errand_first dev running few = ground arith

  pub update_errand_enough :
      s.development_mode ≡ false
      → errand.status ≡ processing
      → 2 ≤ vote_count c (errand_book (add_completed T c sender s))
      → let t = update_errand_result c r (add_completed T c sender s) in
        update_errand T o c r s ≡ (ok tt, record t { events = t.events ++ errand_updated c r ∷ [] })
  unfolding update_errand add_completed is_processing
  update_errand_enough dev running enough = ground arith

pub update_errand-development_mode :
    (T : Trait) (o : T.Origin) (c : Cid) (r : Bytes) (s : Store T)
    → (update_errand T o c r s).1.development_mode ≡ s.development_mode
unfolding update_errand update_errand_result pay_delegate add_completed
update_errand-development_mode T o c r s = ground arith
