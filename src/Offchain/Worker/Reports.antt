-- ===== src/Offchain/Worker/Reports.antt =====
-- What `load_tasks_results_info` sends, and what it leaves in the local storage.
use mathlib.Core.List.{append-nil, append_assoc}
use substrate_demo.Prelude.{
  ◌≡◌, refl, sym, ◌∙◌, inr, true, false, Option, some, List, [], ◌∷◌, ◌++◌, ok, err, arith,
}
use substrate_demo.Pallet.Types.{Call, local_storage_error}
use substrate_demo.Pallet.Config.{Trait}
use substrate_demo.Offchain.World.{Offchain, IsLawfulStorage, TaskResults}
use substrate_demo.Offchain.Storage.{
  acquire, local_storage_tasks_results_key, local_storage_tasks_results_lock,
}
use substrate_demo.Offchain.Locking.{IsFree, tasks_results_key-ne-lock}
use substrate_demo.Offchain.Signing.{Node, update_single_errand}
use substrate_demo.Offchain.Worker.Results.{update_all, load_tasks_results_info}

module _ {T : Trait} (O : Offchain T) where
  -- One `update_errand` for each result, in the order of the list.
  abbrev pub report_calls :
      Option (List O.Public) → TaskResults → List (Option (List O.Public) × Call T.AccountId)
  report_calls signer [] = []
  report_calls signer ((cid, info) ∷ results) =
      (signer, Call.update_errand cid info.result_cid) ∷ report_calls signer results

  update_all-submitted :
      (signer : Option (List O.Public)) (results : TaskResults) (n : Node O)
      → (update_all O signer results n).submitted ≡ n.submitted ++ report_calls signer results
  unfolding update_all update_single_errand
  update_all-submitted signer [] n = sym (append-nil n.submitted)
  update_all-submitted signer ((cid, info) ∷ results) n =
      update_all-submitted signer results (update_single_errand O signer info.result_cid cid n)
      ∙ append_assoc n.submitted ((signer, Call.update_errand cid info.result_cid) ∷ [])
          (report_calls signer results)

  pub update_all-chain :
      (signer : Option (List O.Public)) (results : TaskResults) (n : Node O)
      → (update_all O signer results n).chain ≡ n.chain
  unfolding update_all update_single_errand
  update_all-chain signer [] n = refl
  update_all-chain signer ((cid, info) ∷ results) n =
      update_all-chain signer results (update_single_errand O signer info.result_cid cid n)

  module _ (L : IsLawfulStorage O) (signer : Option (List O.Public)) (n : Node O) where
    -- When the lock is taken and results are stored, the worker sends one `update_errand` for each of
    -- them in their order and nothing else, leaves an empty list and a free lock, and does not change
    -- the chain.
    pub load_tasks_results_info_sends :
        {results : TaskResults}
        → O.mutate O.bool_codec local_storage_tasks_results_lock
            (acquire local_storage_error)
            n.world
          ≡ (ok (ok true), O.set O.bool_codec local_storage_tasks_results_lock true n.world)
        → O.get O.results_codec local_storage_tasks_results_key
            (O.set O.bool_codec local_storage_tasks_results_lock true n.world)
          ≡ some (some results)
        → let (r, n') = load_tasks_results_info O signer n in
          (r ≡ ok tt)
          × (n'.submitted ≡ n.submitted ++ report_calls signer results)
          × (O.get O.results_codec local_storage_tasks_results_key n'.world ≡ some (some []))
          × IsFree O local_storage_tasks_results_lock n'.world
          × (n'.chain ≡ n.chain)
    unfolding load_tasks_results_info
    load_tasks_results_info_sends {results} taken stored =
        let m : Node O = record n {
          world = O.set O.bool_codec local_storage_tasks_results_lock true n.world;
        } in
        let m' = update_all O signer results m in
        let w = O.set O.results_codec local_storage_tasks_results_key [] m'.world in
        let n' : Node O = record m' {
          world = O.set O.bool_codec local_storage_tasks_results_lock false w;
        } in
        let q : load_tasks_results_info O signer n ≡ (ok tt, n') = ground (arith, taken, stored) in
        rw q (
          refl,
          update_all-submitted signer results m,
          L.get-set_other O.results_codec O.bool_codec _ _ false w tasks_results_key-ne-lock
              ∙ L.get-set O.results_codec _ [] m'.world (L.results_roundtrip []),
          inr (L.get-set O.bool_codec _ false w (L.bool_roundtrip false)),
          update_all-chain signer results m,
        )

    -- When the lock is held, the call fails, sends nothing and writes nothing.
    pub load_tasks_results_info_held :
        O.get O.bool_codec local_storage_tasks_results_lock n.world ≡ some (some true)
        → load_tasks_results_info O signer n ≡ (err local_storage_error, n)
    unfolding load_tasks_results_info
    load_tasks_results_info_held held = ground (
      arith,
      L.mutate_refused O.bool_codec local_storage_tasks_results_lock (acquire local_storage_error)
          n.world local_storage_error (ground (arith, held)),
    )
