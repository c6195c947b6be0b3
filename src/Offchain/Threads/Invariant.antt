-- ===== src/Offchain/Threads/Invariant.antt =====
-- What every move keeps true of the runs together.
use native.Mathlib.Decide.{ℕ_discrete}
use substrate_demo.Prelude.{
  ℕ, ◌≡◌, ◌≢◌, sym, ap, subst, ◌∙◌, ◌⊎◌, inl, inr, true, false, nat_eq, arith,
}
use substrate_demo.Offchain.Threads.{Pc, update}
use substrate_demo.Offchain.Threads.Moves.{
  critical, Shared, Move, IsHolder, IsQuiet, holder, quiet, guarded,
}

-- Every run that holds the lock is right about what it holds, no two runs hold it, and while it is
-- free every result is reported or stored.
pub record Inv (s : Shared) (pcs : ℕ → Pc) : Type 0 where
  pub holds : (i : ℕ) → critical (pcs i) ≡ true → IsHolder s (pcs i)
  pub alone : (i j : ℕ) → critical (pcs i) ≡ true → critical (pcs j) ≡ true → i ≡ j
  pub calm : IsQuiet s

update-cases :
    (pcs : ℕ → Pc) (i j : ℕ) (pc : Pc)
    → ((j ≡ i) × (update pcs i pc j ≡ pc)) ⊎ ((j ≢ i) × (update pcs i pc j ≡ pcs j))
unfolding nat_eq
update-cases pcs i j pc = elim (ℕ_discrete j i) [
  | yes p ↦ inl (p, ground arith)
  | no p ↦ inr (p, ground arith)
]

module _ {s : Shared} {pcs : ℕ → Pc} (v : Inv s pcs) where
  module _ {t : Shared} (i : ℕ) {pc : Pc} (m : Move s (pcs i) t pc) where
    -- A run that does not move still holds what it held.
    others : (j : ℕ) → j ≢ i → critical (pcs j) ≡ true → IsHolder t (pcs j)
    others j ne c = elim (guarded m) [
      | inl own ↦ absurd (ne (v.alone j i c own))
      | inr (inl free) ↦ absurd (ground (arith, (v.holds j c).held))
      | inr (inr (same, _)) ↦ subst (λ u. IsHolder u (pcs j)) (sym same) (v.holds j c)
    ]

    -- Only one run is in its critical section after the move.
    apart : (j : ℕ) → j ≢ i → critical (pcs j) ≡ true → critical pc ≡ false
    apart j ne c = elim (guarded m) [
      | inl own ↦ absurd (ne (v.alone j i c own))
      | inr (inl free) ↦ absurd (ground (arith, (v.holds j c).held))
      | inr (inr (_, out)) ↦ out
    ]

    pub Move-Inv : Inv t (update pcs i pc)
    Move-Inv = record {
      holds = λ j c. elim (update-cases pcs i j pc) [
        | inl (_, p) ↦ rw p (holder m (v.holds i) v.calm (ap critical (sym p) ∙ c))
        | inr (ne, p) ↦ rw p (others j ne (ap critical (sym p) ∙ c))
      ];
      alone = λ j k cj ck. elim (update-cases pcs i j pc) [
        | inl (ej, pj) ↦ elim (update-cases pcs i k pc) [
          | inl (ek, _) ↦ ej ∙ sym ek
          | inr (ne, pk) ↦ absurd (ground (arith, cj, pj, apart k ne (ap critical (sym pk) ∙ ck)))
        ]
        | inr (ne, pj) ↦ elim (update-cases pcs i k pc) [
          | inl (_, pk) ↦ absurd (ground (arith, ck, pk, apart j ne (ap critical (sym pj) ∙ cj)))
          | inr (_, pk) ↦ v.alone j k (ap critical (sym pj) ∙ cj) (ap critical (sym pk) ∙ ck)
        ]
      ];
      calm = quiet m (v.holds i) v.calm;
    }

  -- A run outside its critical section may go to any other place outside it.
  pub update-Inv :
      (i : ℕ) (pc : Pc) → critical (pcs i) ≡ false → critical pc ≡ false → Inv s (update pcs i pc)
  update-Inv i pc out out' = record {
    holds = λ j c. elim (update-cases pcs i j pc) [
      | inl (_, p) ↦ absurd (ground (arith, c, p, out'))
      | inr (ne, p) ↦ rw p (v.holds j (ap critical (sym p) ∙ c))
    ];
    alone = λ j k cj ck. elim (update-cases pcs i j pc) [
      | inl (_, p) ↦ absurd (ground (arith, cj, p, out'))
      | inr (_, pj) ↦ elim (update-cases pcs i k pc) [
        | inl (_, p) ↦ absurd (ground (arith, ck, p, out'))
        | inr (_, pk) ↦ v.alone j k (ap critical (sym pj) ∙ cj) (ap critical (sym pk) ∙ ck)
      ]
    ];
    calm = v.calm;
  }

-- The lock is held, and by no run.
pub record IsLeft (s : Shared) (pcs : ℕ → Pc) : Type 0 where
  pub left : s.locked ≡ true
  pub outside : (i : ℕ) → critical (pcs i) ≡ false

module _ {s : Shared} {pcs : ℕ → Pc} (v : IsLeft s pcs) where
  pub update-IsLeft : (i : ℕ) (pc : Pc) → critical pc ≡ false → IsLeft s (update pcs i pc)
  update-IsLeft i pc out = record {
    left = v.left;
    outside = λ j. elim (update-cases pcs i j pc) [
      | inl (_, p) ↦ ap critical p ∙ out
      | inr (_, p) ↦ ap critical p ∙ v.outside j
    ];
  }

  pub Move-IsLeft :
      {t : Shared} (i : ℕ) {pc : Pc} → Move s (pcs i) t pc → (t ≡ s) × IsLeft t (update pcs i pc)
  Move-IsLeft i {pc} m = elim (guarded m) [
    | inl own ↦ absurd (ground (arith, own, v.outside i))
    | inr (inl free) ↦ absurd (ground (arith, free, v.left))
    | inr (inr (same, out)) ↦
        (same, subst (λ u. IsLeft u (update pcs i pc)) (sym same) (update-IsLeft i pc out))
  ]
