-- ===== src/Offchain/Threads/Moves.antt =====
-- What one step of a run does to the lock, the stored results and the reports, and why no run
-- disturbs another.
use mathlib.Core.List.{append_assoc, map-append}
use substrate_demo.Prelude.{
  subst, ◌≡◌, refl, sym, ap, ◌∙◌, ◌⊎◌, inl, inr, Bool, true, false, List, [], ◌∷◌, ◌++◌, map,
  nat_eq, arith,
}
use substrate_demo.Pallet.Types.{Cid, ErrandResultInfo}
use substrate_demo.Offchain.World.{TaskResults}
use substrate_demo.Offchain.Threads.{
  Pc, adding, add_locked, add_read, draining, drain_locked, drain_read, unlocking, ended,
}

-- A report: the description of the errand and the result.
abbrev pub Report : Type 0
Report = Cid × Cid

abbrev pub report_of : Cid × ErrandResultInfo → Report
report_of e = (e.0, e.1.result_cid)

-- `added` is the history of the results that have been stored.
pub record Shared : Type 0 where
  pub locked : Bool
  pub stored : TaskResults
  pub reported : List Report
  pub added : List Report

-- Between the taking of the lock and its release.
abbrev pub critical : Pc → Bool
critical (adding _) = false
critical (add_locked _) = true
critical (add_read _ _) = true
critical draining = false
critical drain_locked = true
critical (drain_read _) = true
critical unlocking = true
critical ended = false

pub data Move (s : Shared) (pc : Pc) (t : Shared) (pc' : Pc) : Type 0 where
  take :
      s.locked ≡ false
      → t ≡ record s { locked = true }
      → (pc' ≡ drain_locked) ⊎ ((e : Cid × ErrandResultInfo) × (pc' ≡ add_locked e))
      → Move s pc t pc'
  give_up : critical pc ≡ false → t ≡ s → pc' ≡ ended → Move s pc t pc'
  read_add :
      (e : Cid × ErrandResultInfo)
      → pc ≡ add_locked e
      → t ≡ s
      → pc' ≡ add_read s.stored e
      → Move s pc t pc'
  write :
      (results : TaskResults) (e : Cid × ErrandResultInfo)
      → pc ≡ add_read results e
      → t ≡ record s { stored = results ++ e ∷ []; added = s.added ++ report_of e ∷ [] }
      → pc' ≡ unlocking
      → Move s pc t pc'
  read_drain : pc ≡ drain_locked → t ≡ s → pc' ≡ drain_read s.stored → Move s pc t pc'
  read_none : pc ≡ drain_locked → t ≡ s → pc' ≡ unlocking → Move s pc t pc'
  send :
      (e : Cid × ErrandResultInfo) (results : TaskResults)
      → pc ≡ drain_read (e ∷ results)
      → t ≡ record s { reported = s.reported ++ report_of e ∷ [] }
      → pc' ≡ drain_read results
      → Move s pc t pc'
  clear : pc ≡ drain_read [] → t ≡ record s { stored = [] } → pc' ≡ unlocking → Move s pc t pc'
  unlock : pc ≡ unlocking → t ≡ record s { locked = false } → pc' ≡ ended → Move s pc t pc'

-- The results that are not reported yet, seen from a run that holds the lock.
abbrev pub unsent : Pc → TaskResults → TaskResults
unsent (adding _) stored = stored
unsent (add_locked _) stored = stored
unsent (add_read _ _) stored = stored
unsent draining stored = stored
unsent drain_locked stored = stored
unsent (drain_read results) stored = results
unsent unlocking stored = stored
unsent ended stored = stored

abbrev pub IsAccounted : Shared → TaskResults → Type 0
IsAccounted s results = s.added ≡ s.reported ++ map report_of results

-- What a run has read of the results is still what is stored.
abbrev pub IsFresh : Pc → Shared → Type 0
IsFresh (add_read results _) s = results ≡ s.stored
IsFresh (adding _) s = Unit
IsFresh (add_locked _) s = Unit
IsFresh draining s = Unit
IsFresh drain_locked s = Unit
IsFresh (drain_read _) s = Unit
IsFresh unlocking s = Unit
IsFresh ended s = Unit

pub record IsHolder (s : Shared) (pc : Pc) : Type 0 where
  pub held : s.locked ≡ true
  pub fresh : IsFresh pc s
  pub accounted : IsAccounted s (unsent pc s.stored)

abbrev pub IsQuiet : Shared → Type 0
IsQuiet s = s.locked ≡ false → IsAccounted s s.stored

map-snoc :
    (results : TaskResults) (e : Cid × ErrandResultInfo)
    → map report_of (results ++ e ∷ []) ≡ map report_of results ++ report_of e ∷ []
map-snoc results e = map-append report_of results (e ∷ [])

module _ {s t : Shared} {pc pc' : Pc} where
  -- The run that moves is right about what it holds.
  pub holder :
      Move s pc t pc'
      → (critical pc ≡ true → IsHolder s pc)
      → IsQuiet s
      → critical pc' ≡ true
      → IsHolder t pc'
  holder (take free p (inl p')) h q c =
      rw (p, p') (record { held = refl; fresh = tt; accounted = q free })
  holder (take free p (inr (e, p'))) h q c =
      rw (p, p') (record { held = refl; fresh = tt; accounted = q free })
  holder (give_up out p p') h q c = absurd (ground arith)
  holder (read_add e at p p') h q c =
      let k = subst (IsHolder s) at (h (ap critical at)) in
      rw (p, p') (record { held = k.held; fresh = refl; accounted = k.accounted })
  holder (write results e at p p') h q c =
      let k = subst (IsHolder s) at (h (ap critical at)) in
      let added_once : s.added ++ report_of e ∷ []
          ≡ s.reported ++ map report_of (results ++ e ∷ []) =
        ap (λ l. l ++ report_of e ∷ []) k.accounted
        ∙ append_assoc s.reported (map report_of s.stored) (report_of e ∷ [])
        ∙ ap (λ l. s.reported ++ l)
            (sym (map-snoc s.stored e) ∙ ap (λ l. map report_of (l ++ e ∷ [])) (sym k.fresh)) in
      rw (p, p') (record { held = k.held; fresh = tt; accounted = added_once })
  holder (read_drain at p p') h q c =
      let k = subst (IsHolder s) at (h (ap critical at)) in
      rw (p, p') (record { held = k.held; fresh = tt; accounted = k.accounted })
  holder (read_none at p p') h q c =
      let k = subst (IsHolder s) at (h (ap critical at)) in
      rw (p, p') (record { held = k.held; fresh = tt; accounted = k.accounted })
  holder (send e results at p p') h q c =
      let k = subst (IsHolder s) at (h (ap critical at)) in
      rw (p, p')
        (record {
          held = k.held;
          fresh = tt;
          accounted =
              k.accounted
              ∙ sym (append_assoc s.reported (report_of e ∷ []) (map report_of results));
        })
  holder (clear at p p') h q c =
      let k = subst (IsHolder s) at (h (ap critical at)) in
      rw (p, p') (record { held = k.held; fresh = tt; accounted = k.accounted })
  holder (unlock at p p') h q c = absurd (ground arith)

  -- When the lock is free, every result is reported or stored.
  pub quiet : Move s pc t pc' → (critical pc ≡ true → IsHolder s pc) → IsQuiet s → IsQuiet t
  quiet (take free p _) h q free' = absurd (ground arith)
  quiet (give_up out p p') h q free = subst IsQuiet (sym p) q free
  quiet (read_add e at p p') h q free = subst IsQuiet (sym p) q free
  quiet (write results e at p p') h q free = absurd (ground (arith, (h (ap critical at)).held))
  quiet (read_drain at p p') h q free = subst IsQuiet (sym p) q free
  quiet (read_none at p p') h q free = subst IsQuiet (sym p) q free
  quiet (send e results at p p') h q free = absurd (ground (arith, (h (ap critical at)).held))
  quiet (clear at p p') h q free = absurd (ground (arith, (h (ap critical at)).held))
  quiet (unlock at p p') h q free =
      let k = subst (IsHolder s) at (h (ap critical at)) in rw p k.accounted

  -- A move that concerns the other runs starts with the lock or with a free lock.
  pub guarded :
      Move s pc t pc'
      → (critical pc ≡ true) ⊎ (s.locked ≡ false) ⊎ ((t ≡ s) × (critical pc' ≡ false))
  guarded (take free p _) = inr (inl free)
  guarded (give_up out p p') = inr (inr (p, ap critical p'))
  guarded (read_add e at p p') = inl (ap critical at)
  guarded (write results e at p p') = inl (ap critical at)
  guarded (read_drain at p p') = inl (ap critical at)
  guarded (read_none at p p') = inl (ap critical at)
  guarded (send e results at p p') = inl (ap critical at)
  guarded (clear at p p') = inl (ap critical at)
  guarded (unlock at p p') = inl (ap critical at)
