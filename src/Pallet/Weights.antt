-- ===== src/Pallet/Weights.antt =====
-- Sums over lists of errands, and the weight of an errand by its votes.
use substrate_demo.Prelude.{
  ℕ, zero, suc, ◌+◌, ◌*◌, ◌≤◌, ◌<◌, ◌≡◌, ◌≢◌, sym, subst, true, List, [], ◌∷◌, bytes_eq, arith,
  contains, without, length,
}
use substrate_demo.Pallet.Types.{Cid}

-- A sum over a list of errands.
abbrev pub total : (Cid → ℕ) → List Cid → ℕ
total w [] = 0
total w (c ∷ cs) = w c + total w cs

pub total_mono : (v w : Cid → ℕ) (cs : List Cid) → ((c : Cid) → v c ≤ w c) → total v cs ≤ total w cs
total_mono v w [] h = omega arith
total_mono v w (c ∷ cs) h = omega (arith, h c, total_mono v w cs h)

pub total_strict :
    (v w : Cid → ℕ) (c : Cid) (cs : List Cid)
    → ((k : Cid) → v k ≤ w k)
    → v c < w c
    → contains c cs ≡ true
    → total v cs < total w cs
total_strict v w c [] h lt there = absurd (ground arith)
total_strict v w c (k ∷ cs) h lt there = elim (bytes_eq.discrete c k) [
  | yes p ↦ let e = total_mono v w cs h in omega (arith, e, subst (λ x. v x < w x) p lt)
  | no n ↦ let rest = total_strict v w c cs h lt (ground (arith, there)) in omega (arith, h k, rest)
]

total-without_le :
    (v w : Cid → ℕ) (c : Cid) (cs : List Cid)
    → ((k : Cid) → k ≢ c → v k ≤ w k)
    → total v (without c cs) ≤ total w cs
total-without_le v w c [] h = omega arith
total-without_le v w c (k ∷ cs) h = elim (bytes_eq.discrete k c) [
  | yes p ↦ ground (arith, total-without_le v w c cs h)
  | no n ↦ ground (arith, h k n, total-without_le v w c cs h)
]

pub total-without :
    (v w : Cid → ℕ) (c : Cid) (cs : List Cid)
    → ((k : Cid) → k ≢ c → v k ≤ w k)
    → 0 < w c
    → contains c cs ≡ true
    → total v (without c cs) < total w cs
total-without v w c [] h pos there = absurd (ground arith)
total-without v w c (k ∷ cs) h pos there = elim (bytes_eq.discrete k c) [
  | yes p ↦
      let e : 0 < w k = subst (λ x. 0 < w x) (sym p) pos in
      ground (arith, e, total-without_le v w c cs h)
  | no n ↦ ground (arith, h k n, total-without v w c cs h pos (ground (arith, there)))
]

-- An open errand takes two reports more, or one if it has a vote.
abbrev pub weight : ℕ → ℕ
weight zero = 2
weight (suc _) = 1

pub weight-le : (n : ℕ) → weight n ≤ 2
weight-le zero = omega arith
weight-le (suc n) = omega arith

pub weight_pos : (n : ℕ) → 0 < weight n
weight_pos zero = omega arith
weight_pos (suc n) = omega arith

pub weight_mono : (m n : ℕ) → m ≤ n → weight n ≤ weight m
weight_mono zero n h = weight-le n
weight_mono (suc m) zero h = absurd (omega arith)
weight_mono (suc m) (suc n) h = omega arith

pub total_bound : (w : Cid → ℕ) (cs : List Cid) → ((c : Cid) → w c ≤ 2) → total w cs ≤ 2 * length cs
total_bound w [] h = omega arith
total_bound w (c ∷ cs) h = omega (arith, h c, total_bound w cs h)
