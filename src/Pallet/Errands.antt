-- ===== src/Pallet/Errands.antt =====
-- The private helpers of pallets/abc-demo/src/lib.rs that write the errands: `add_processing`,
-- `remove_processing` and `update_errand_result`.
use substrate_demo.Prelude.{none, some, ◌∷◌, [], ◌++◌, Bytes, bytes_eq, without, ok, err}
use substrate_demo.Prelude.StorageMap
use substrate_demo.Pallet.Types.{Errand, done, Cid}
use substrate_demo.Pallet.Config.{Trait}
use substrate_demo.Pallet.Store.{Store}
use substrate_demo.Pallet.Accounts.{bytes_to_account}

module _ {T : Trait} where
  unfoldable pub add_processing : Cid → Store T → Store T
  add_processing description_cid s = record s {
    processing_errands = s.processing_errands ++ description_cid ∷ [];
  }

  unfoldable pub remove_processing : Cid → Store T → Store T
  remove_processing description_cid s = record s {
    processing_errands = without description_cid s.processing_errands;
  }

  -- The closure given to `Errands::mutate`, and the write.
  unfoldable pub complete_errand : Cid → Bytes → Store T → Store T
  complete_errand description_cid result s = elim (s.errands description_cid) [
    | none ↦ s
    | some errand ↦ record s {
      errands =
          StorageMap.insert description_cid (record errand { status = done; result = result })
            s.errands;
    }
  ]

  -- The fee of the errand's client goes to the client's delegate. Whatever `repatriate_reserved`
  -- returns is only logged.
  unfoldable pub pay_delegate : Errand → Store T → Store T
  pay_delegate errand s = elim (bytes_to_account T errand.account_id) [
    | ok c ↦
        let delegator = StorageMap.get_or T.default_account c s.client_delegate in
        let fee = StorageMap.get_or 0 c s.client_task_fee in
        record s { balances = (T.repatriate_reserved c delegator fee s.balances).1 }
    | err _ ↦ s
  ]

  unfoldable pub update_errand_result : Cid → Bytes → Store T → Store T
  unfolding complete_errand remove_processing
  update_errand_result description_cid result s =
      let s' = remove_processing description_cid (complete_errand description_cid result s) in
      elim (s'.errands description_cid) [ none ↦ s' | some errand ↦ pay_delegate errand s' ]
