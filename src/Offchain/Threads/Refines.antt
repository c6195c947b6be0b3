-- ===== src/Offchain/Threads/Refines.antt =====
-- The code of the runs makes the moves: what each step does to the lock, the results and the reports.
use mathlib.Core.List.{append-nil}
use substrate_demo.Prelude.{
  ◌≡◌, refl, sym, ap, subst, ◌∙◌, ◌⊎◌, inl, inr, Bool, true, false, Option, Bytes, none, some, List,
  [], ◌∷◌, ◌++◌, nat_eq, arith,
}
use substrate_demo.Pallet.Types.{Cid, ErrandResultInfo, Call, local_storage_error}
use substrate_demo.Pallet.Config.{Trait}
use substrate_demo.Offchain.World.{Offchain, IsLawfulStorage, Codec, TaskResults}
use substrate_demo.Offchain.Storage.{
  storage_locked, with_key, acquire, local_storage_tasks_results_key,
  local_storage_tasks_results_lock,
}
use substrate_demo.Offchain.Locking.{IsFree, acquire-cases, tasks_results_key-ne-lock}
use substrate_demo.Offchain.Signing.{Node, update_single_errand}
use substrate_demo.Offchain.Threads.{
  Pc, adding, add_locked, add_read, draining, drain_locked, drain_read, unlocking, ended,
  stored_or_none, drain_or_unlock, advance, attempt,
}
use substrate_demo.Offchain.Threads.Moves.{
  Report, report_of, critical, Move, take, give_up, read_add, write, read_drain, read_none, send,
  clear, unlock,
}
use substrate_demo.Offchain.Threads.System.{is_locked, written, reports, view}

-- Sending a transaction leaves the local storage of the node as it is.
pub record IsQuietSigner {T : Trait} (O : Offchain T) : Type 1 where
  pub get-send_signed :
      {A : Type 0} (c : Codec O.Encoded A) (k : Bytes) (f : Option (List O.Public))
      (call : Call T.AccountId) (w : O.World)
      → O.get c k (O.send_signed f call w).1 ≡ O.get c k w

reports-append :
    {A B : Type 0} (xs ys : List (A × Call B)) → reports (xs ++ ys) ≡ reports xs ++ reports ys
reports-append [] ys = refl
reports-append ((_, c) ∷ xs) ys = ground (arith, reports-append xs ys)

module _ {T : Trait} {O : Offchain T} (L : IsLawfulStorage O) (Q : IsQuietSigner O) where
  -- The attempt to take the lock: it was free and is set, or the run ends and nothing is written.
  attempt-cases :
      {E : Type 0} (e : E) (pc : Pc) (n : Node O)
      → (IsFree O local_storage_tasks_results_lock n.world
          × (attempt O e pc n ≡ (
            pc,
            record n { world = O.set O.bool_codec local_storage_tasks_results_lock true n.world },
          )))
        ⊎ (attempt O e pc n ≡ (ended, n))
  attempt-cases e pc n =
      let k = local_storage_tasks_results_lock in
      elim (acquire-cases O L k n.world e) [
        | inr held ↦
            inr (ground (arith, L.mutate_refused O.bool_codec k (acquire e) n.world e held))
        | inl (free, accepted) ↦
            elim (L.mutate_accepted O.bool_codec k (acquire e) n.world true accepted) [
              | inl won ↦ inl (free, ground (arith, won))
              | inr lost ↦ inr (ground (arith, lost))
            ]
      ]

  view-set_results :
      (n : Node O) (added : List Report) (results : TaskResults)
      → view O added (record n {
        world = O.set O.results_codec local_storage_tasks_results_key results n.world;
      })
        ≡ record (view O added n) { stored = results }
  view-set_results n added results = ground (
    arith,
    L.get-set O.results_codec local_storage_tasks_results_key results n.world
        (L.results_roundtrip results),
    L.get-set_other O.bool_codec O.results_codec local_storage_tasks_results_lock
        local_storage_tasks_results_key results n.world (λ e. tasks_results_key-ne-lock (sym e)),
  )

  view-set_lock :
      (n : Node O) (added : List Report) (b : Bool)
      → view O added
          (record n { world = O.set O.bool_codec local_storage_tasks_results_lock b n.world })
        ≡ record (view O added n) { locked = b }
  view-set_lock n added b = ground (
    arith,
    L.get-set O.bool_codec local_storage_tasks_results_lock b n.world (L.bool_roundtrip b),
    L.get-set_other O.results_codec O.bool_codec local_storage_tasks_results_key
        local_storage_tasks_results_lock b n.world tasks_results_key-ne-lock,
  )

  view-added : (n : Node O) (added : List Report) → view O (added ++ []) n ≡ view O added n
  view-added n added = ap (λ a. view O a n) (append-nil added)

  IsFree-view :
      (n : Node O) (added : List Report)
      → IsFree O local_storage_tasks_results_lock n.world
      → (view O added n).locked ≡ false
  IsFree-view n added (inl unset) = ap is_locked unset
  IsFree-view n added (inr reads) = ap is_locked reads

  attempt-Move :
      {E : Type 0} (e : E) (pc pc' : Pc) (n : Node O) (added : List Report)
      → critical pc ≡ false
      → (pc' ≡ drain_locked) ⊎ ((x : Cid × ErrandResultInfo) × (pc' ≡ add_locked x))
      → let (pc'', n') = attempt O e pc' n in Move (view O added n) pc (view O added n') pc''
  attempt-Move e pc pc' n added out which = elim (attempt-cases e pc' n) [
    | inl (free, p) ↦
        subst (λ (x : Pc × Node O). Move (view O added n) pc (view O added x.1) x.0) (sym p)
          (take (IsFree-view n added free) (view-set_lock n added true) which)
    | inr p ↦
        subst (λ (x : Pc × Node O). Move (view O added n) pc (view O added x.1) x.0) (sym p)
          (give_up out refl refl)
  ]

  drain_locked-Move :
      (n : Node O) (added : List Report) (o : Option (Option TaskResults))
      → O.get O.results_codec local_storage_tasks_results_key n.world ≡ o
      → Move (view O added n) drain_locked (view O (added ++ []) n) (drain_or_unlock o)
  drain_locked-Move n added none p = read_none refl (view-added n added) refl
  drain_locked-Move n added (some none) p = read_none refl (view-added n added) refl
  drain_locked-Move n added (some (some results)) p =
      read_drain refl (view-added n added) (ap (λ o. drain_read (stored_or_none o)) (sym p))

  view-update_single_errand :
      (e : Cid × ErrandResultInfo) (n : Node O) (added : List Report)
      → view O added (update_single_errand O none e.1.result_cid e.0 n)
        ≡ record (view O added n) { reported = reports n.submitted ++ report_of e ∷ [] }
  unfolding update_single_errand
  view-update_single_errand e n added =
      let c : Call T.AccountId = Call.update_errand e.0 e.1.result_cid in
      ground (
        arith,
        Q.get-send_signed O.bool_codec local_storage_tasks_results_lock none c n.world,
        Q.get-send_signed O.results_codec local_storage_tasks_results_key none c n.world,
        reports-append n.submitted ((none, c) ∷ []),
      )

  -- The code makes the moves.
  pub advance-Move :
      (pc : Pc) (n : Node O) (added : List Report)
      → let (pc', n') = advance O pc n in
        Move (view O added n) pc (view O (added ++ written pc) n') pc'
  unfolding advance
  advance-Move (adding e) n added = rw (append-nil added) (
      attempt-Move (with_key local_storage_tasks_results_key storage_locked) (adding e)
        (add_locked e) n added refl (inr (e, refl)))
  advance-Move (add_locked e) n added = read_add e refl (view-added n added) refl
  advance-Move (add_read results e) n added =
      write results e refl (view-set_results n (added ++ report_of e ∷ []) (results ++ e ∷ [])) refl
  advance-Move draining n added =
      rw (append-nil added)
        (attempt-Move local_storage_error draining drain_locked n added refl (inl refl))
  advance-Move drain_locked n added = drain_locked-Move n added _ refl
  advance-Move (drain_read []) n added =
      clear refl (view-added (advance O (drain_read []) n).1 added ∙ view-set_results n added [])
        refl
  advance-Move (drain_read (e ∷ results)) n added =
      send e results refl
        (view-added (advance O (drain_read (e ∷ results)) n).1 added
          ∙ view-update_single_errand e n added)
        refl
  advance-Move unlocking n added =
      unlock refl (view-added (advance O unlocking n).1 added ∙ view-set_lock n added false) refl
  advance-Move ended n added = give_up refl (view-added n added) refl
