-- ===== src/Offchain/Worker/Isolation.antt =====
-- What the worker leaves alone in the storage of the block.
use substrate_demo.Prelude.{
  ℕ, ◌≡◌, refl, ap, sym, ◌∙◌, none, List, [], ◌∷◌, arith, Option, Option-cases, inl, inr,
}
use substrate_demo.Pallet.Types.{local_storage_error, DelegatorName, Cid}
use substrate_demo.Pallet.Config.{Trait}
use substrate_demo.Offchain.World.{Offchain}
use substrate_demo.Offchain.Storage.{
  acquire, local_storage_tasks_results_key, local_storage_tasks_results_lock,
}
use substrate_demo.Offchain.Signing.{Node, get_accounts, submit}
use substrate_demo.Offchain.Worker.Apply.{
  apply_single_delegate, apply_one, apply_all, apply_delegates,
}
use substrate_demo.Offchain.Worker.Send.{send_errand_tasks}
use substrate_demo.Offchain.Worker.Results.{
  query_one, query_all, query_errand_task_results, send_results, load_tasks_results_info,
  update_errand_task_results,
}
use substrate_demo.Offchain.Worker.Reports.{update_all-chain}
use substrate_demo.Offchain.Worker.Sending.{with_balances_of, IsSameChain, send_all-IsSameChain}
use substrate_demo.Offchain.Worker.Entry.{offchain_worker}

module _ {T : Trait} (O : Offchain T) where
  apply_one-chain :
      (ids : List (T.AccountId × O.Public)) (acc : DelegatorName × T.AccountId) (n : Node O)
      → (apply_one O ids acc n).chain ≡ n.chain
  unfolding apply_one apply_single_delegate submit
  apply_one-chain ids acc n = ground arith

  apply_all-chain :
      (ids : List (T.AccountId × O.Public)) (accounts : List (DelegatorName × T.AccountId))
      (n : Node O)
      → (apply_all O ids accounts n).chain ≡ n.chain
  unfolding apply_all
  apply_all-chain ids [] n = refl
  apply_all-chain ids (acc ∷ accounts) n =
      apply_all-chain ids accounts (apply_one O ids acc n) ∙ apply_one-chain ids acc n

  apply_delegates-chain :
      (block_number : ℕ) (n : Node O) → (apply_delegates O block_number n).chain ≡ n.chain
  unfolding apply_delegates
  apply_delegates-chain block_number n =
      elim (Option-cases (n.chain.delegates_applys block_number)) [
        | inl missing ↦ ground (arith, missing)
        | inr (accounts, applied) ↦
            ground (arith, applied, apply_all-chain (get_accounts O n.world) accounts n)
      ]

  query_one-chain : (item : Cid) (n : Node O) → (query_one O item n).chain ≡ n.chain
  unfolding query_one
  query_one-chain item n = ground arith

  query_all-chain : (items : List Cid) (n : Node O) → (query_all O items n).chain ≡ n.chain
  unfolding query_all
  query_all-chain [] n = refl
  query_all-chain (item ∷ items) n =
      query_all-chain items (query_one O item n) ∙ query_one-chain item n

  query_errand_task_results-chain :
      (height : ℕ) (n : Node O) → (query_errand_task_results O height n).chain ≡ n.chain
  unfolding query_errand_task_results
  query_errand_task_results-chain height n =
      let queried = query_all-chain n.chain.processing_errands n in ground arith

  send_results-chain :
      (signer : Option (List O.Public)) (n : Node O) → (send_results O signer n).chain ≡ n.chain
  unfolding send_results
  send_results-chain signer n =
      elim (Option-cases (O.get O.results_codec local_storage_tasks_results_key n.world)) [
        | inl missing ↦ ground (arith, missing)
        | inr (value, there) ↦ elim (Option-cases value) [
          | inl garbled ↦ ground (arith, there, garbled)
          | inr (results, stored) ↦
              ground (arith, there, stored, update_all-chain O signer results n)
        ]
      ]

  update_errand_task_results-chain : (n : Node O) → (update_errand_task_results O n).chain ≡ n.chain
  unfolding update_errand_task_results load_tasks_results_info
  update_errand_task_results-chain n =
      let (_, w) =
        O.mutate O.bool_codec local_storage_tasks_results_lock (acquire local_storage_error)
          n.world in
      ground (arith, send_results-chain none (record n { world = w }))

  send_errand_tasks-IsSameChain :
      (block_number : ℕ) (n : Node O) → IsSameChain O n (send_errand_tasks O block_number n)
  unfolding send_errand_tasks
  send_errand_tasks-IsSameChain block_number n = elim (Option-cases (n.chain.tasks block_number)) [
    | inl missing ↦ ground (arith, missing)
    | inr (items, queued) ↦
        ground (arith, queued, send_all-IsSameChain O (get_accounts O n.world) items n)
  ]

  -- The worker writes to no storage of the pallet: its run leaves the whole storage of the block as
  -- it was, but for the balances.
  pub offchain_worker-IsSameChain :
      (block_number : ℕ) (n : Node O) → IsSameChain O n (offchain_worker O block_number n)
  unfolding offchain_worker
  offchain_worker-IsSameChain block_number n =
      let n₁ = apply_delegates O block_number n in
      let n₂ = send_errand_tasks O block_number n₁ in
      let n₃ = query_errand_task_results O block_number n₂ in
      let p₁ = apply_delegates-chain block_number n in
      let p₂ = send_errand_tasks-IsSameChain block_number n₁ in
      let p₃ = query_errand_task_results-chain block_number n₂ in
      let rest = update_errand_task_results-chain n₃ ∙ p₃ in
      rest
      ∙ p₂
      ∙ ap (λ s. with_balances_of O s n₂.chain) p₁
      ∙ ap (λ s. with_balances_of O n.chain s) (sym rest)
