-- ===== src/Pallet/Potential.antt =====
-- How many reports a chain can still accept.
use native.Mathlib.Decide.{dec_lt}
use substrate_demo.Prelude.{
  ℕ, suc, ◌+◌, ◌*◌, ◌≤◌, ◌<◌, ◌≡◌, ap, ◌∙◌, ◌⊎◌, inl, inr, true, false, List, [], ◌∷◌, Bytes,
  bytes_eq, is_ok, arith, contains, length, length-append, if◌then◌else◌,
}
use substrate_demo.Prelude.StorageMap
use substrate_demo.Pallet.Types.{Cid, Errand}
use substrate_demo.Pallet.Weights.{
  total, weight, total_mono, total_strict, total-without, total_bound, weight-le, weight_pos,
  weight_mono,
}
use substrate_demo.Pallet.Config.{Trait}
use substrate_demo.Pallet.Store.{Store, get_or-push_or_insert}
use substrate_demo.Pallet.Books.{ErrandBook, errand_book, vote_count, close_errand}
use substrate_demo.Pallet.Results.{update_errand, add_completed}
use substrate_demo.Pallet.Refines.{update_errand-ErrandStep}
use substrate_demo.Pallet.Invariant.{IsErrandBook, ErrandStep-IsErrandBook}
use substrate_demo.Pallet.Branches.{
  ErrandStatus-cases, update_errand_closed, update_errand_first, update_errand_enough,
  update_errand_guards, update_errand_result-errand_book, update_errand-development_mode,
}

module _ {T : Trait} where
  unfoldable pub potential : ErrandBook T → ℕ
  potential b = total (λ c. weight (vote_count c b)) b.processing_errands

  potential_bound : (b : ErrandBook T) → potential b ≤ 2 * length b.processing_errands
  unfolding potential
  potential_bound b = total_bound _ b.processing_errands (λ c. weight-le (vote_count c b))

module _ (T : Trait) (o : T.Origin) (c : Cid) (r : Bytes) (s : Store T) where
  -- A report adds no vote but its own.
  more_votes :
      (a : T.AccountId) (k : Cid)
      → vote_count k (errand_book s) ≤ vote_count k (errand_book (add_completed T c a s))
  unfolding add_completed
  more_votes a k = ground (
    arith,
    get_or-push_or_insert c k a s.completed_errands,
    length-append (StorageMap.get_or [] c s.completed_errands) (a ∷ []),
  )

  one_vote_more :
      (a : T.AccountId)
      → vote_count c (errand_book (add_completed T c a s)) ≡ suc (vote_count c (errand_book s))
  unfolding add_completed
  one_vote_more a = ground (
    arith,
    get_or-push_or_insert c c a s.completed_errands,
    length-append (StorageMap.get_or [] c s.completed_errands) (a ∷ []),
  )

  fewer_left :
      (a : T.AccountId) (k : Cid)
      → weight (vote_count k (errand_book (add_completed T c a s)))
        ≤ weight (vote_count k (errand_book s))
  fewer_left a k = weight_mono _ _ (more_votes a k)

  add_completed-potential :
      (a : T.AccountId)
      → potential (errand_book (add_completed T c a s)) ≤ potential (errand_book s)
  unfolding potential add_completed
  add_completed-potential a = total_mono _ _ s.processing_errands (fewer_left a)

  -- The first vote on a listed errand.
  first_vote-potential :
      (a : T.AccountId)
      → contains c s.processing_errands ≡ true
      → vote_count c (errand_book s) ≡ 0
      → potential (errand_book (add_completed T c a s)) < potential (errand_book s)
  unfolding potential add_completed
  first_vote-potential a listed unvoted =
      total_strict _ _ c s.processing_errands (fewer_left a)
        (ground (arith, unvoted, one_vote_more a)) listed

  -- The end of a listed errand.
  close_errand-potential :
      (a : T.AccountId) (e : Errand)
      → contains c s.processing_errands ≡ true
      → potential (close_errand c e r (errand_book (add_completed T c a s)))
        < potential (errand_book s)
  unfolding potential add_completed
  close_errand-potential a e listed =
      total-without _ _ c s.processing_errands (λ k _. fewer_left a k) (weight_pos _) listed

  module _ (v : IsErrandBook (errand_book s)) (prod : s.development_mode ≡ false) where
    -- Outside the development mode a report that is accepted lowers the potential, and one that
    -- fails does not raise it.
    update_errand-potential :
        let (result, t) = update_errand T o c r s in
        ((is_ok result ≡ true) × (potential (errand_book t) < potential (errand_book s)))
        ⊎ ((is_ok result ≡ false) × (potential (errand_book t) ≤ potential (errand_book s)))
    unfolding add_completed
    update_errand-potential = elim (update_errand_guards T o c r s) [
      | inr (same, failed) ↦ inr (failed, rw same (omega arith))
      | inl may ↦
          let a = may.sender in
          let s' = add_completed T c a s in
          elim (ErrandStatus-cases may.errand.status) [
            | inr closed ↦
                let q = update_errand_closed T o c r s may prod closed in
                inr (ap (λ p. is_ok p.0) q, rw q (add_completed-potential a))
            | inl running ↦
                let listed : contains c s.processing_errands ≡ true =
                  ground (arith, v.listed c, may.found, running) in
                elim (dec_lt (vote_count c (errand_book s')) 2) [
                  | yes few ↦
                      let q = update_errand_first T o c r s may prod running few in
                      inl (
                        ap (λ p. is_ok p.0) q,
                        rw q (first_vote-potential a listed (omega (arith, few, one_vote_more a))),
                      )
                  | no enough ↦
                      let q =
                        update_errand_enough T o c r s may prod running (omega (arith, enough)) in
                      let closed = update_errand_result-errand_book T c r s' may.found in
                      inl (
                        ap (λ p. is_ok p.0) q,
                        rw q (rw closed (close_errand-potential a may.errand listed)),
                      )
                ]
          ]
    ]

    update_errand-IsErrandBook : IsErrandBook (errand_book (update_errand T o c r s).1)
    update_errand-IsErrandBook = ErrandStep-IsErrandBook (update_errand-ErrandStep T o s c r) v

-- The number of reports of a sequence that are accepted.
unfoldable pub accepted_reports : (T : Trait) → List (T.Origin × Cid × Bytes) → Store T → ℕ
accepted_reports T [] s = 0
accepted_reports T ((o, c, r) ∷ more) s =
    let (result, t) = update_errand T o c r s in
    (if is_ok result then 1 else 0) + accepted_reports T more t

accepted_reports-potential :
    (T : Trait) (reports : List (T.Origin × Cid × Bytes)) (s : Store T)
    → IsErrandBook (errand_book s)
    → s.development_mode ≡ false
    → accepted_reports T reports s ≤ potential (errand_book s)
unfolding accepted_reports
accepted_reports-potential T [] s v prod = omega arith
accepted_reports-potential T ((o, c, r) ∷ more) s v prod =
    let rest =
      accepted_reports-potential T more (update_errand T o c r s).1
        (update_errand-IsErrandBook T o c r s v prod)
        (update_errand-development_mode T o c r s ∙ prod) in
    elim (update_errand-potential T o c r s v prod) [
      | inl (fine, lower) ↦ rw fine (omega (arith, rest, lower))
      | inr (failed, same) ↦ rw failed (omega (arith, rest, same))
    ]

-- On a chain whose errands are in order, outside the development mode, reporting comes to an end:
-- whoever reports what and how often, at most two reports are accepted for each entry of the list
-- of open errands, unless an errand is opened in between.
pub accepted_reports_bound :
    (T : Trait) (reports : List (T.Origin × Cid × Bytes)) (s : Store T)
    → IsErrandBook (errand_book s)
    → s.development_mode ≡ false
    → accepted_reports T reports s ≤ 2 * length s.processing_errands
accepted_reports_bound T reports s v prod =
    omega (arith, accepted_reports-potential T reports s v prod, potential_bound (errand_book s))
