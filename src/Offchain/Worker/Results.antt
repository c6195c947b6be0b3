-- ===== src/Offchain/Worker/Results.antt =====
-- `query_errand_task_results`, `update_errand_task_results` and `load_tasks_results_info` of
-- pallets/abc-demo/src/lib.rs.
use substrate_demo.Prelude.{
  ℕ, ◌%◌, Bool, true, false, not, ◌&&◌, Option, none, some, List, [], ◌∷◌, bytes_eq, Result, ok,
  err, eqb, if◌then◌else◌,
}
use substrate_demo.Prelude.StorageMap
use substrate_demo.Pallet.Types.{Cid, Error, local_storage_error}
use substrate_demo.Pallet.Config.{Trait}
use substrate_demo.Pallet.Accounts.{allow_to_update_result}
use substrate_demo.Offchain.World.{Offchain, TaskResults}
use substrate_demo.Offchain.Storage.{
  acquire, local_storage_tasks_results_key, local_storage_tasks_results_lock,
}
use substrate_demo.Offchain.Task.{fetch_single_task_result}
use substrate_demo.Offchain.Signing.{Node, get_account_ids, update_single_errand}

module _ {T : Trait} (O : Offchain T) where
  -- The node has a key that signs, and one of its accounts may report results.
  abbrev pub may_report : Node O → Bool
  may_report n = O.can_sign n.world && allow_to_update_result n.chain (get_account_ids O n.world)

  -- One round of the loop over the errands that are listed as open.
  unfoldable pub query_one : Cid → Node O → Node O
  query_one item n = elim (n.chain.errands item) [
    | none ↦ n
    | some errand ↦ elim (T.decode errand.account_id) [
      | none ↦ n
      | some client ↦
          let delegate = StorageMap.get_or T.default_account client n.chain.client_delegate in
          let net_address = StorageMap.get_or [] delegate n.chain.delegate_net_address in
          let (_, w) =
            fetch_single_task_result O errand.errand_id errand.description_cid net_address
              n.world in
          record n { world = w }
    ]
  ]

  unfoldable pub query_all : List Cid → Node O → Node O
  query_all [] n = n
  query_all (item ∷ items) n = query_all items (query_one item n)

  unfoldable pub query_errand_task_results : ℕ → Node O → Node O
  unfolding query_all
  query_errand_task_results height n =
      if not (eqb (height % 10) 0)
      then n
      else if may_report n
      then query_all n.chain.processing_errands n
      else n

  unfoldable pub update_all : Option (List O.Public) → TaskResults → Node O → Node O
  update_all signer [] n = n
  update_all signer ((cid, info) ∷ results) n =
      update_all signer results (update_single_errand O signer info.result_cid cid n)

  -- Every result that is stored is sent, and the list is emptied.
  unfoldable pub send_results : Option (List O.Public) → Node O → Node O
  unfolding update_all
  send_results signer n = elim (O.get O.results_codec local_storage_tasks_results_key n.world) [
    | some (some results) ↦
        let n' = update_all signer results n in
        record n' { world = O.set O.results_codec local_storage_tasks_results_key [] n'.world }
    | some none ↦ n
    | none ↦ n
  ]

  unfoldable pub load_tasks_results_info :
      Option (List O.Public) → Node O → Result Error (Unit {0}) × Node O
  unfolding send_results
  load_tasks_results_info signer n =
      let (res, w) =
        O.mutate O.bool_codec local_storage_tasks_results_lock (acquire local_storage_error)
          n.world in
      let n' : Node O = record n { world = w } in
      elim res [
        | err e ↦ (err e, n')
        | ok (ok true) ↦
            let n'' = send_results signer n' in
            (
              ok tt,
              record n'' {
                world = O.set O.bool_codec local_storage_tasks_results_lock false n''.world;
              },
            )
        | ok (ok false) ↦ (err local_storage_error, n')
        | ok (err _) ↦ (err local_storage_error, n')
      ]

  unfoldable pub update_errand_task_results : Node O → Node O
  unfolding load_tasks_results_info
  update_errand_task_results n = if may_report n then (load_tasks_results_info none n).1 else n
