-- ===== src/Offchain/Threads/Alone.antt =====
-- A run that no other run disturbs does what the functions of the worker do in one piece.
use substrate_demo.Prelude.{
  ℕ, zero, suc, ◌≡◌, refl, ap, ◌∙◌, true, none, some, [], ◌∷◌, ok, arith, Option-cases,
  Result-cases, Bool-cases, inl, inr,
}
use substrate_demo.Pallet.Types.{Cid, ErrandResultInfo, local_storage_error}
use substrate_demo.Pallet.Config.{Trait}
use substrate_demo.Offchain.World.{Offchain, TaskResults}
use substrate_demo.Offchain.Storage.{
  acquire, operate_local_storage, local_storage_tasks_results_key, local_storage_tasks_results_lock,
}
use substrate_demo.Offchain.Task.{add_result}
use substrate_demo.Offchain.Signing.{Node, update_single_errand}
use substrate_demo.Offchain.Worker.Results.{update_all, send_results, load_tasks_results_info}
use substrate_demo.Offchain.Threads.{
  taken_or_ended, Pc, adding, draining, drain_locked, drain_read, unlocking, ended, advance,
  advance_many,
}

module _ {T : Trait} (O : Offchain T) where
  -- Four steps of a run that adds a result, with no other run in between, are the call of
  -- `operate_local_storage` in one piece, whether it gets the lock or not.
  advance_many-adding :
      (cid : Cid) (info : ErrandResultInfo) (n : Node O)
      → advance_many O 4 (adding (cid, info)) n ≡ (
        ended,
        record n {
          world =
              (operate_local_storage O local_storage_tasks_results_key
                local_storage_tasks_results_lock
                (add_result O cid info)
                n.world).1;
        },
      )
  unfolding advance_many advance operate_local_storage add_result
  advance_many-adding cid info n = ground arith

  advance_many-ended : (k : ℕ) (n : Node O) → advance_many O k ended n ≡ (ended, n)
  unfolding advance_many advance
  advance_many-ended zero n = refl
  advance_many-ended (suc k) n = advance_many-ended k n

  advance_many-drain_read :
      (results : TaskResults) (n : Node O)
      → (k : ℕ) × (advance_many O k (drain_read results) n ≡ (
          let m = update_all O none results n in
          (
            unlocking,
            record m { world = O.set O.results_codec local_storage_tasks_results_key [] m.world },
          )))
  unfolding advance_many advance update_all
  advance_many-drain_read [] n = (1, refl)
  advance_many-drain_read ((cid, info) ∷ results) n =
      let (k, p) =
        advance_many-drain_read results (update_single_errand O none info.result_cid cid n) in
      (suc k, p)

  -- One more step at the end.
  advance_many-suc :
      (k : ℕ) (pc : Pc) (n : Node O) {pc' : Pc} {n' : Node O}
      → advance_many O k pc n ≡ (pc', n')
      → advance_many O (suc k) pc n ≡ advance O pc' n'
  unfolding advance_many
  advance_many-suc zero pc n p = ap (λ (q : Pc × Node O). advance O q.0 q.1) p
  advance_many-suc (suc k) pc n p = let (pc₁, n₁) = advance O pc n in advance_many-suc k pc₁ n₁ p

  drain_locked-some :
      (n : Node O) {results : TaskResults}
      → O.get O.results_codec local_storage_tasks_results_key n.world ≡ some (some results)
      → (k : ℕ) × (advance_many O k drain_locked n ≡ (unlocking, send_results O none n))
  unfolding advance_many advance send_results
  drain_locked-some n {results} stored =
      let (k, p) = advance_many-drain_read results n in (suc k, ground (arith, stored, p))

  drain_locked-unlocking :
      (n : Node O)
      → (k : ℕ) × (advance_many O k drain_locked n ≡ (unlocking, send_results O none n))
  unfolding advance_many advance send_results
  drain_locked-unlocking n =
      elim (Option-cases (O.get O.results_codec local_storage_tasks_results_key n.world)) [
        | inl unset ↦ (1, ground (arith, unset))
        | inr (o, set) ↦ elim (Option-cases o) [
          | inl garbled ↦ (1, ground (arith, set, garbled))
          | inr (results, reads) ↦ drain_locked-some n (set ∙ ap some reads)
        ]
      ]

  -- A run that sends the stored results comes to its end in some number of steps, and without other
  -- runs in between these are the call of `load_tasks_results_info` in one piece, whether it gets
  -- the lock or not.
  advance_many-draining :
      (n : Node O)
      → (k : ℕ) × (advance_many O k draining n ≡ (ended, (load_tasks_results_info O none n).1))
  unfolding advance_many advance load_tasks_results_info
  advance_many-draining n =
      let (res, w) =
        O.mutate O.bool_codec local_storage_tasks_results_lock (acquire local_storage_error)
          n.world in
      let m : Node O = record n { world = w } in
      elim (Result-cases res) [
        | inl (e, refused) ↦ (1, ground (arith, refused))
        | inr (r, accepted) ↦ elim (Result-cases r) [
          | inl (_, lost) ↦ (1, ground (arith, accepted, lost))
          | inr (b, won) ↦ elim (Bool-cases b) [
            | inr odd ↦ (1, ground (arith, accepted, won, odd))
            | inl taken ↦
                let (k, p) = drain_locked-unlocking m in
                let q = advance_many-suc k drain_locked m p in
                let h : res ≡ ok (ok true) = accepted ∙ ap ok (won ∙ ap ok taken) in
                (
                  suc (suc k),
                  ap (λ r. advance_many O (suc k) (taken_or_ended drain_locked r) m) h
                      ∙ q
                      ∙ ground (arith, h),
                )
          ]
        ]
      ]

  -- A run that is not interrupted is the routine in one piece. One that adds a result to the stored
  -- ones takes four steps, and does what `operate_local_storage` does with `add_result`, whether it
  -- gets the lock or not; one that sends the stored results comes to its end in some number of
  -- steps, and does what `load_tasks_results_info` does.
  advance_many-alone :
      (cid : Cid) (info : ErrandResultInfo) (n : Node O)
      → (advance_many O 4 (adding (cid, info)) n ≡ (
        ended,
        record n {
          world =
              (operate_local_storage O local_storage_tasks_results_key
                local_storage_tasks_results_lock
                (add_result O cid info)
                n.world).1;
        },
      ))
        × (k : ℕ) × (advance_many O k draining n ≡ (ended, (load_tasks_results_info O none n).1))
  advance_many-alone cid info n =
      let (k, q) = advance_many-draining n in (advance_many-adding cid info n, k, q)
