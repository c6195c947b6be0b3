-- ===== src/Offchain/Threads/System.antt =====
-- Any number of runs on one node, interleaved in any order.
use substrate_demo.Prelude.{
  ℕ, ◌≡◌, Bool, true, false, Option, none, some, List, [], ◌∷◌, ◌++◌, nat_eq, map,
}
use substrate_demo.Pallet.Types.{Call}
use substrate_demo.Pallet.Config.{Trait}
use substrate_demo.Offchain.World.{Offchain}
use substrate_demo.Offchain.Storage.{
  local_storage_tasks_results_key, local_storage_tasks_results_lock,
}
use substrate_demo.Offchain.Signing.{Node}
use substrate_demo.Offchain.Threads.{Pc, add_read, ended, stored_or_none, advance, update}
use substrate_demo.Offchain.Threads.Moves.{Report, report_of, critical, Shared}

-- A lock that was never set and one that reads `false` are free.
abbrev pub is_locked : Option (Option Bool) → Bool
is_locked none = false
is_locked (some none) = true
is_locked (some (some b)) = b

-- What a run is about to add to the stored results.
abbrev pub written : Pc → List Report
written (add_read _ e) = report_of e ∷ []
written _ = []

-- The reports among the calls that were given to a signer.
abbrev pub reports : {A B : Type 0} → List (A × Call B) → List Report
reports [] = []
reports ((_, c) ∷ calls) =
    let rest = reports calls in
    elim c [ Call.update_errand cid result ↦ (cid, result) ∷ rest | _ ↦ rest ]

module _ {T : Trait} (O : Offchain T) where
  -- What the runs share of a node, and the history of the results that were added.
  abbrev pub view : List Report → Node O → Shared
  view added n = record {
    locked = is_locked (O.get O.bool_codec local_storage_tasks_results_lock n.world);
    stored = stored_or_none (O.get O.results_codec local_storage_tasks_results_key n.world);
    reported = reports n.submitted;
    added = added;
  }

  pub record System : Type 0 where
    pub node : Node O
    pub pcs : ℕ → Pc
    pub added : List Report

  pub data Step (s t : System) : Type 0 where
    moves :
        (i : ℕ)
        → t ≡ (
            let (pc, n) = advance O (s.pcs i) s.node in
            record { node = n; pcs = update s.pcs i pc; added = s.added ++ written (s.pcs i) })
        → Step s t
    -- A run starts where another has ended.
    starts :
        (i : ℕ) (pc : Pc)
        → critical (s.pcs i) ≡ false
        → critical pc ≡ false
        → t ≡ record s { pcs = update s.pcs i pc }
        → Step s t
    -- The rest of the node works on other keys, and sends no reports.
    elsewhere :
        (n : Node O) → view s.added n ≡ view s.added s.node → t ≡ record s { node = n } → Step s t

  pub data Reach (s : System) : System → Type 0 where
    idle : Reach s s
    later : {t u : System} → Reach s t → Step t u → Reach s u

  -- A node on which no run has begun; what is stored there counts as added.
  abbrev pub begin : Node O → System
  begin n = record { node = n; pcs = λ _. ended; added = map report_of (view [] n).stored }
