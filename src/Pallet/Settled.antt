-- ===== src/Pallet/Settled.antt =====
-- What any further reports do to an errand that two reports have finished.
use substrate_demo.Prelude.{◌≡◌, refl, ap, ◌∙◌, false, some, none, List, [], ◌∷◌, Bytes}
use substrate_demo.Pallet.Types.{Cid, Errand, processing, done}
use substrate_demo.Pallet.Config.{Trait}
use substrate_demo.Pallet.Store.{Store}
use substrate_demo.Pallet.Books.{finished}
use substrate_demo.Pallet.Results.{update_errand}
use substrate_demo.Pallet.Branches.{MayReport, update_errand-development_mode}
use substrate_demo.Pallet.Voting.{update_errand_finished, two_reports}

module _ (T : Trait) (c : Cid) where
  -- The storage after a sequence of reports on one errand.
  unfoldable pub after_reports : List (T.Origin × Bytes) → Store T → Store T
  after_reports [] s = s
  after_reports ((o, r) ∷ reports) s = after_reports reports (update_errand T o c r s).1

  after_reports_finished :
      (reports : List (T.Origin × Bytes)) (s : Store T) (e : Errand)
      → s.development_mode ≡ false
      → s.errands c ≡ some e
      → e.status ≡ done
      → let t = after_reports reports s in (t.errands ≡ s.errands) × (t.balances ≡ s.balances)
  unfolding after_reports
  after_reports_finished [] s e prod found closed = (refl, refl)
  after_reports_finished ((o, r) ∷ reports) s e prod found closed =
      let t = (update_errand T o c r s).1 in
      let (_, errands, balances) = update_errand_finished T o c r s e prod found closed in
      let (errands', balances') =
        after_reports_finished reports t e (update_errand-development_mode T o c r s ∙ prod)
          (ap (λ f. f c) errands ∙ found) closed in
      (errands' ∙ errands, balances' ∙ balances)

  -- Outside the development mode, two reports by senders that may report settle an open errand
  -- without votes: whoever reports what on it afterwards and how often, the errand stays finished
  -- with the second result, and no more money moves.
  pub after_reports_settled :
      (o₁ o₂ : T.Origin) (x y : Bytes) (reports : List (T.Origin × Bytes)) (s : Store T)
      (first : MayReport T o₁ c s) (second : MayReport T o₂ c s)
      → s.development_mode ≡ false
      → first.errand.status ≡ processing
      → s.completed_errands c ≡ none
      → let u = after_reports ((o₁, x) ∷ (o₂, y) ∷ []) s in
        let t = after_reports ((o₁, x) ∷ (o₂, y) ∷ reports) s in
        (t.errands c ≡ some (finished y first.errand))
        × (t.errands ≡ u.errands)
        × (t.balances ≡ u.balances)
  unfolding after_reports
  after_reports_settled o₁ o₂ x y reports s first second prod running unvoted =
      let (_, _, _, settled, _) = two_reports T o₁ o₂ c x y s first second prod running unvoted in
      let s' = (update_errand T o₁ c x s).1 in
      let u = (update_errand T o₂ c y s').1 in
      let prod' =
        update_errand-development_mode T o₂ c y s'
        ∙ update_errand-development_mode T o₁ c x s
        ∙ prod in
      let (errands, balances) =
        after_reports_finished reports u (finished y first.errand) prod' settled refl in
      (ap (λ f. f c) errands ∙ settled, errands, balances)
