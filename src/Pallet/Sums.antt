-- ===== src/Pallet/Sums.antt =====
-- Sums over lists of accounts without repetition.
use substrate_demo.Prelude.{
  ℕ, ◌+◌, ◌≡◌, true, false, Bool-cases, inl, inr, List, [], ◌∷◌, Eq, ◌==◌, arith, contains,
  if◌then◌else◌,
}

module _ {A : Type 0} ⦃e : Eq A⦄ where
  abbrev pub AreDistinct : List A → Type 0
  AreDistinct [] = Unit
  AreDistinct (x ∷ xs) = (contains x xs ≡ false) × AreDistinct xs

  abbrev pub sum_over : (A → ℕ) → List A → ℕ
  sum_over f [] = 0
  sum_over f (x ∷ xs) = f x + sum_over f xs

  pub sum_over-add :
      (f g : A → ℕ) (xs : List A) → sum_over (λ x. f x + g x) xs ≡ sum_over f xs + sum_over g xs
  sum_over-add f g [] = omega arith
  sum_over-add f g (x ∷ xs) = omega (arith, sum_over-add f g xs)

  -- A change at an account that is not listed.
  pub sum_over_elsewhere :
      (f g : A → ℕ) (a : A) (v : ℕ) (xs : List A)
      → ((x : A) → g x ≡ (if x == a then f x + v else f x))
      → contains a xs ≡ false
      → sum_over g xs ≡ sum_over f xs
  sum_over_elsewhere f g a v [] h out = omega arith
  sum_over_elsewhere f g a v (x ∷ xs) h out =
      ground (arith, h x, sum_over_elsewhere f g a v xs h (ground (arith, out)))

  -- A change at a listed account counts once.
  pub sum_over_at :
      (f g : A → ℕ) (a : A) (v : ℕ) (xs : List A)
      → ((x : A) → g x ≡ (if x == a then f x + v else f x))
      → AreDistinct xs
      → contains a xs ≡ true
      → sum_over g xs ≡ sum_over f xs + v
  sum_over_at f g a v [] h d there = absurd (ground arith)
  sum_over_at f g a v (x ∷ xs) h (new, d) there = elim (e.discrete a x) [
    | yes p ↦ ground (arith, h x, p, sum_over_elsewhere f g a v xs h (ground (arith, new, p)))
    | no n ↦ ground (arith, h x, n, sum_over_at f g a v xs h d (ground (arith, there, n)))
  ]

  -- What one account gives, of the first amount, another gets, of the second.
  pub sum_over_moved :
      (f f' g g' : A → ℕ) (a d : A) (v : ℕ) (xs : List A)
      → ((x : A) → f x ≡ (if x == a then f' x + v else f' x))
      → ((x : A) → g' x ≡ (if x == d then g x + v else g x))
      → AreDistinct xs
      → contains a xs ≡ contains d xs
      → sum_over f' xs + sum_over g' xs ≡ sum_over f xs + sum_over g xs
  sum_over_moved f f' g g' a d v xs out_of into distinct same = elim (Bool-cases (contains a xs)) [
    | inl there ↦
        let p = sum_over_at f' f a v xs out_of distinct there in
        let q = sum_over_at g g' d v xs into distinct (ground (arith, there, same)) in
        omega (arith, p, q)
    | inr absent ↦
        let p = sum_over_elsewhere f' f a v xs out_of absent in
        let q = sum_over_elsewhere g g' d v xs into (ground (arith, absent, same)) in
        omega (arith, p, q)
  ]
