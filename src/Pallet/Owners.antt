-- ===== src/Pallet/Owners.antt =====
-- The clients of the errands, which a report does not change.
use substrate_demo.Prelude.{
  ◌≡◌, refl, inl, inr, some, none, Bytes, bytes_eq, arith, Option-cases, Result-cases,
}
use substrate_demo.Pallet.Types.{Cid, Errand}
use substrate_demo.Pallet.Config.{Trait}
use substrate_demo.Pallet.Store.{Store}
use substrate_demo.Pallet.Errands.{update_errand_result, pay_delegate}
use substrate_demo.Pallet.Results.{update_errand, add_completed}

module _ (T : Trait) where
  -- Finishing an errand makes no errand, and keeps the client of each.
  update_errand_result-none :
      (c c' : Cid) (r : Bytes) (s : Store T)
      → s.errands c' ≡ none
      → (update_errand_result c r s).errands c' ≡ none
  unfolding update_errand_result pay_delegate bytes_eq
  update_errand_result-none c c' r s missing = ground (arith, missing)

  update_errand_result-owner :
      (c c' : Cid) (r : Bytes) (s : Store T) (e e' : Errand)
      → s.errands c' ≡ some e
      → (update_errand_result c r s).errands c' ≡ some e'
      → e'.account_id ≡ e.account_id
  unfolding update_errand_result pay_delegate bytes_eq
  update_errand_result-owner c c' r s e e' found h = ground (arith, found, h)

  pub update_errand-owner :
      (o : T.Origin) (c c' : Cid) (r : Bytes) (s : Store T) (e' : Errand)
      → (update_errand T o c r s).1.errands c' ≡ some e'
      → (e : Errand) × (s.errands c' ≡ some e) × (e'.account_id ≡ e.account_id)
  unfolding update_errand add_completed
  update_errand-owner o c c' r s e' h = elim (Result-cases (T.ensure_signed o)) [
    | inl (x, refused) ↦ (e', ground (arith, refused, h), refl)
    | inr (a, sent) ↦ elim (Option-cases (s.errands c')) [
      | inl missing ↦ absurd (
          ground (
            arith,
            sent,
            h,
            missing,
            update_errand_result-none c c' r s missing,
            update_errand_result-none c c' r (add_completed T c a s) missing,
          ))
      | inr (e, found) ↦ (
        e,
        found,
        ground (
          arith,
          sent,
          h,
          found,
          update_errand_result-owner c c' r s e e' found,
          update_errand_result-owner c c' r (add_completed T c a s) e e' found,
        ),
      )
    ]
  ]

  pub update_errand-delegate_accounts :
      (o : T.Origin) (c : Cid) (r : Bytes) (s : Store T)
      → (update_errand T o c r s).1.delegate_accounts ≡ s.delegate_accounts
  unfolding update_errand update_errand_result pay_delegate add_completed
  update_errand-delegate_accounts o c r s = ground arith
