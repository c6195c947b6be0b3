-- ===== src/Offchain/Threads/Safety.antt =====
-- What holds however the runs are interleaved.
use substrate_demo.Prelude.{ℕ, ◌≡◌, refl, sym, subst, ◌∙◌, ap, true, false, [], ◌++◌, map, arith}
use substrate_demo.Pallet.Config.{Trait}
use substrate_demo.Offchain.World.{Offchain, IsLawfulStorage}
use substrate_demo.Offchain.Storage.{
  local_storage_tasks_results_key, local_storage_tasks_results_lock,
}
use substrate_demo.Offchain.Signing.{Node}
use substrate_demo.Offchain.Threads.{stored_or_none}
use substrate_demo.Offchain.Threads.Moves.{report_of, critical}
use substrate_demo.Offchain.Threads.Invariant.{
  Inv, Move-Inv, update-Inv, IsLeft, Move-IsLeft, update-IsLeft,
}
use substrate_demo.Offchain.Threads.System.{
  is_locked, reports, view, System, Step, moves, starts, elsewhere, Reach, idle, later, begin,
}
use substrate_demo.Offchain.Threads.Refines.{IsQuietSigner, advance-Move}

module _ {T : Trait} {O : Offchain T} (L : IsLawfulStorage O) (Q : IsQuietSigner O) where
  Step-Inv :
      {s t : System O}
      → Step O s t
      → Inv (view O s.added s.node) s.pcs
      → Inv (view O t.added t.node) t.pcs
  Step-Inv {s} (moves i p) v =
      subst (λ (t : System O). Inv (view O t.added t.node) t.pcs) (sym p)
        (Move-Inv v i (advance-Move L Q (s.pcs i) s.node s.added))
  Step-Inv {s} (starts i pc out out' p) v =
      subst (λ (t : System O). Inv (view O t.added t.node) t.pcs) (sym p)
        (update-Inv v i pc out out')
  Step-Inv {s} (elsewhere n same p) v =
      subst (λ (t : System O). Inv (view O t.added t.node) t.pcs) (sym p)
        (subst (λ u. Inv u s.pcs) (sym same) v)

  Reach-Inv :
      {n : Node O} {s : System O}
      → reports n.submitted ≡ []
      → Reach O (begin O n) s
      → Inv (view O s.added s.node) s.pcs
  Reach-Inv none_yet idle = record {
    holds = λ i c. absurd (ground arith);
    alone = λ i j c. absurd (ground arith);
    calm = λ _. rw none_yet;
  }
  Reach-Inv none_yet (later r st) = Step-Inv st (Reach-Inv none_yet r)

  -- From a node on which no run has begun and no report has been sent, and however the runs are
  -- interleaved, no two of them are between the taking and the release of the lock at once.
  pub mutual_exclusion :
      {n : Node O} {s : System O}
      → reports n.submitted ≡ []
      → Reach O (begin O n) s
      → (i j : ℕ) → critical (s.pcs i) ≡ true
      → critical (s.pcs j) ≡ true
      → i ≡ j
  mutual_exclusion none_yet r = (Reach-Inv none_yet r).alone

  -- From a node on which no run has begun and no report has been sent, and however the runs are
  -- interleaved, no result is lost or sent twice: while the lock is free, the results that were
  -- stored at the start and those that have been added since are, in their order, just those that
  -- have been reported and behind them those that are stored.
  pub results_reported_once :
      {n : Node O} {s : System O}
      → reports n.submitted ≡ []
      → Reach O (begin O n) s
      → is_locked (O.get O.bool_codec local_storage_tasks_results_lock s.node.world) ≡ false
      → s.added
        ≡ reports s.node.submitted
          ++ map report_of
              (stored_or_none (O.get O.results_codec local_storage_tasks_results_key s.node.world))
  results_reported_once none_yet r free = (Reach-Inv none_yet r).calm free

  Step-IsLeft :
      {s t : System O}
      → Step O s t
      → IsLeft (view O s.added s.node) s.pcs
      → (view O t.added t.node ≡ view O s.added s.node) × IsLeft (view O t.added t.node) t.pcs
  Step-IsLeft {s} (moves i p) v =
      subst
        (λ (t : System O).
          (view O t.added t.node ≡ view O s.added s.node) × IsLeft (view O t.added t.node) t.pcs)
        (sym p) (Move-IsLeft v i (advance-Move L Q (s.pcs i) s.node s.added))
  Step-IsLeft {s} (starts i pc out out' p) v =
      subst
        (λ (t : System O).
          (view O t.added t.node ≡ view O s.added s.node) × IsLeft (view O t.added t.node) t.pcs)
        (sym p) (refl, update-IsLeft v i pc out')
  Step-IsLeft {s} (elsewhere n same p) v =
      subst
        (λ (t : System O).
          (view O t.added t.node ≡ view O s.added s.node) × IsLeft (view O t.added t.node) t.pcs)
        (sym p) (same, subst (λ u. IsLeft u s.pcs) (sym same) v)

  -- A lock that reads `true` while no run is between its taking and its release, as after a node was
  -- stopped there, is never free again: from then on no run takes it, no result is stored and
  -- none is reported, whatever the runs do.
  pub left_lock_stays :
      {s t : System O}
      → Reach O s t
      → is_locked (O.get O.bool_codec local_storage_tasks_results_lock s.node.world) ≡ true
      → ((i : ℕ) → critical (s.pcs i) ≡ false)
      → (view O t.added t.node ≡ view O s.added s.node) × ((i : ℕ) → critical (t.pcs i) ≡ false)
  left_lock_stays idle held out = (refl, out)
  left_lock_stays {s} (later {t} r st) held out =
      let (same, out') = left_lock_stays r held out in
      let (step, left) =
        Step-IsLeft st (record { left = ap (λ u. u.locked) same ∙ held; outside = out' }) in
      (step ∙ same, left.outside)
