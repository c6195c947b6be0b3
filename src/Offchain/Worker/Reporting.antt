-- ===== src/Offchain/Worker/Reporting.antt =====
-- From a stored result to the errand that is finished with it.
use substrate_demo.Prelude.{◌≡◌, ap, ◌∙◌, true, some, none, [], ◌∷◌, ◌++◌, ok, arith, bytes_eq}
use substrate_demo.Pallet.Types.{Call, Cid, ErrandResultInfo, local_storage_error}
use substrate_demo.Pallet.Config.{Trait}
use substrate_demo.Pallet.Call.{dispatch}
use substrate_demo.Pallet.Books.{finished}
use substrate_demo.Pallet.Branches.{
  MayReport, update_errand_development, update_errand_result-errand_book,
}
use substrate_demo.Offchain.World.{Offchain, IsLawfulStorage}
use substrate_demo.Offchain.Storage.{
  acquire, local_storage_tasks_results_key, local_storage_tasks_results_lock,
}
use substrate_demo.Offchain.Signing.{Node}
use substrate_demo.Offchain.Worker.Results.{load_tasks_results_info}
use substrate_demo.Offchain.Worker.Reports.{load_tasks_results_info_sends}

module _ {T : Trait} (O : Offchain T) (L : IsLawfulStorage O) where
  -- In the development mode, a result that is the only one stored on a node which gets the lock
  -- finishes its errand: the worker sends one call, and when this call is executed with the
  -- signature of an account that may report, it succeeds and the errand is finished with that
  -- result.
  stored_result_finishes :
      (n : Node O) (cid : Cid) (info : ErrandResultInfo) (o : T.Origin)
      (may : MayReport T o cid n.chain)
      → n.chain.development_mode ≡ true
      → O.mutate O.bool_codec local_storage_tasks_results_lock (acquire local_storage_error) n.world
        ≡ (ok (ok true), O.set O.bool_codec local_storage_tasks_results_lock true n.world)
      → O.get O.results_codec local_storage_tasks_results_key
          (O.set O.bool_codec local_storage_tasks_results_lock true n.world)
        ≡ some (some ((cid, info) ∷ []))
      → let (_, n') = load_tasks_results_info O none n in
        (c : Call T.AccountId) × (n'.submitted ≡ n.submitted ++ (none, c) ∷ [])
        × ((dispatch T c o n'.chain).0 ≡ ok tt)
        × ((dispatch T c o n'.chain).1.errands cid ≡ some (finished info.result_cid may.errand))
  unfolding dispatch bytes_eq
  stored_result_finishes n cid info o may dev taken stored =
      let (_, sent, _, _, chain) = load_tasks_results_info_sends O L none n taken stored in
      let r = info.result_cid in
      let q = update_errand_development T o cid r n.chain may dev in
      (
        Call.update_errand cid r,
        sent,
        rw chain (ap (λ p. p.0) q),
        rw chain (
            ap (λ p. p.1.errands cid) q
            ∙ ap (λ b. b.errands cid) (update_errand_result-errand_book T cid r n.chain may.found)
            ∙ ground arith),
      )
