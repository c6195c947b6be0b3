-- ===== src/Pallet/Voting.antt =====
-- Reports outside the development mode: two finish an errand, a finished errand stays as it is, and
-- what reopening a finished errand leads to.
use substrate_demo.Prelude.{
  ◌≤◌, ◌≡◌, refl, ap, ◌∙◌, inl, inr, false, none, some, [], ◌∷◌, Bytes, bytes_eq, ok, is_ok, arith,
  contains, contains-without, length, length-append,
}
use substrate_demo.Prelude.StorageMap
use substrate_demo.Pallet.Types.{Cid, Errand, ErrandId, processing, done}
use substrate_demo.Pallet.Config.{Trait}
use substrate_demo.Pallet.Store.{Store, get_or-push_or_insert}
use substrate_demo.Pallet.Books.{errand_book, vote_count, finished}
use substrate_demo.Pallet.Accounts.{allow_to_update_result}
use substrate_demo.Pallet.Results.{update_errand, add_completed}
use substrate_demo.Pallet.Invariant.{IsErrandBook}
use substrate_demo.Pallet.Tasks.{init_errand}
use substrate_demo.Pallet.Branches.{
  MayReport, update_errand_closed, update_errand_first, update_errand_enough, update_errand_guards,
  update_errand_result-errand_book,
}

module _ (T : Trait) where
  -- Outside the development mode a finished errand stays finished: a report fails, no errand
  -- changes, and no money moves.
  pub update_errand_finished :
      (o : T.Origin) (c : Cid) (r : Bytes) (s : Store T) (e : Errand)
      → s.development_mode ≡ false
      → s.errands c ≡ some e
      → e.status ≡ done
      → let (result, t) = update_errand T o c r s in
        (is_ok result ≡ false) × (t.errands ≡ s.errands) × (t.balances ≡ s.balances)
  unfolding add_completed
  update_errand_finished o c r s e prod found closed = elim (update_errand_guards T o c r s) [
    | inr (same, failed) ↦ (failed, ap (λ t. t.errands) same, ap (λ t. t.balances) same)
    | inl may ↦
        let q = update_errand_closed T o c r s may prod (ground (arith, may.found)) in
        (ap (λ p. is_ok p.0) q, ap (λ p. p.1.errands) q, ap (λ p. p.1.balances) q)
  ]

  -- A report that brings the second vote finishes the errand.
  report_finishes :
      (o : T.Origin) (c : Cid) (r : Bytes) (s : Store T) (may : MayReport T o c s)
      → s.development_mode ≡ false
      → may.errand.status ≡ processing
      → 1 ≤ length (StorageMap.get_or [] c s.completed_errands)
      → let (result, t) = update_errand T o c r s in
        (result ≡ ok tt)
        × (t.errands c ≡ some (finished r may.errand))
        × (contains c t.processing_errands ≡ false)
  unfolding add_completed
  report_finishes o c r s may prod running voted =
      let s' = add_completed T c may.sender s in
      let enough : 2 ≤ vote_count c (errand_book s') = ground (
        arith,
        get_or-push_or_insert c c may.sender s.completed_errands,
        length-append (StorageMap.get_or [] c s.completed_errands) (may.sender ∷ []),
      ) in
      let q = update_errand_enough T o c r s may prod running enough in
      let closed = update_errand_result-errand_book T c r s' may.found in
      (
        ap (λ p. p.0) q,
        ap (λ p. p.1.errands c) q ∙ ap (λ b. b.errands c) closed ∙ ground arith,
        ap (λ p. contains c p.1.processing_errands) q
            ∙ ap (λ b. contains c b.processing_errands) closed
            ∙ ground (arith, contains-without c c s.processing_errands),
      )

  -- Two reports on an open errand without votes: after the first the errands are as they were, the
  -- second finishes the errand with the second result. The two senders need not differ.
  pub two_reports :
      (o₁ o₂ : T.Origin) (c : Cid) (x y : Bytes) (s : Store T) (first : MayReport T o₁ c s)
      (second : MayReport T o₂ c s)
      → s.development_mode ≡ false
      → first.errand.status ≡ processing
      → s.completed_errands c ≡ none
      → let (r, t) = update_errand T o₁ c x s in
        let (r', u) = update_errand T o₂ c y t in
        (r ≡ ok tt)
        × (t.errands ≡ s.errands)
        × (r' ≡ ok tt)
        × (u.errands c ≡ some (finished y first.errand))
        × (contains c u.processing_errands ≡ false)
  unfolding add_completed allow_to_update_result
  two_reports o₁ o₂ c x y s first second prod running unvoted =
      let t = add_completed T c first.sender s in
      let counted = get_or-push_or_insert c c first.sender s.completed_errands in
      let q = update_errand_first T o₁ c x s first prod running (ground (arith, counted)) in
      let again : MayReport T o₂ c t = record {
        sender = second.sender;
        errand = first.errand;
        bytes = second.bytes;
        sent = second.sent;
        found = first.found;
        converted = second.converted;
        allowed = second.allowed;
      } in
      let f = report_finishes o₂ c y t again prod running (ground (arith, counted)) in
      rw q (refl, refl, f.0, f.1, f.2)

  -- Opening a finished errand anew keeps its old votes: one report finishes it again.
  pub reopened_errand_one_report :
      (o o' : T.Origin) (a : T.AccountId) (i : ErrandId) (c : Cid) (r : Bytes) (s : Store T)
      (e : Errand)
      → IsErrandBook (errand_book s)
      → s.development_mode ≡ false
      → s.errands c ≡ some e
      → e.status ≡ done
      → (init_errand T o a i c s).0 ≡ ok tt
      → (may : MayReport T o' c (init_errand T o a i c s).1)
      → let (result, u) = update_errand T o' c r (init_errand T o a i c s).1 in
        (result ≡ ok tt) × (u.errands c ≡ some (finished r may.errand))
  unfolding init_errand bytes_eq
  reopened_errand_one_report o o' a i c r s e v prod found closed opened may =
      let votes = v.quorum c e prod found closed in
      let f =
        report_finishes o' c r (init_errand T o a i c s).1 may (ground arith)
          (ground (arith, may.found)) (ground arith) in
      (f.0, f.1)
