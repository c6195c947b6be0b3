-- ===== src/Offchain/Worker/Initialising.antt =====
-- Which calls `send_errand_tasks` sends for the tasks of a block.
use mathlib.Core.List.{append-nil, append_assoc}
use substrate_demo.Prelude.{
  ℕ, ◌≡◌, ◌≢◌, refl, ap, sym, subst, ◌∙◌, ◌⊎◌, inl, inr, Bool-cases, true, some, List, [], ◌∷◌,
  ◌++◌, Option-cases, List-cases, arith,
}
use substrate_demo.Prelude.StorageMap.{StorageMap}
use substrate_demo.Pallet.Types.{Call, TaskInfo, DelegatorName}
use substrate_demo.Pallet.Config.{Trait}
use substrate_demo.Offchain.World.{Offchain}
use substrate_demo.Offchain.Signing.{
  Node, signer_filter, submit, init_single_errand_task, get_accounts,
}
use substrate_demo.Offchain.Worker.Send.{send_to_delegator, send_one, send_all, send_errand_tasks}
use substrate_demo.Offchain.Worker.Sending.{send_to_delegator-submitted, send_one-IsSameChain}
use substrate_demo.Offchain.Worker.Applications.{Submission}

module _ {T : Trait} (O : Offchain T) where
  -- A call initialises a task: it is signed by the local keys of the account that the task's delegate
  -- is registered with, and there are some.
  abbrev pub IsInitialisation :
      List (T.AccountId × O.Public)
      → StorageMap DelegatorName T.AccountId
      → TaskInfo
      → Submission O
      → Type 0
  IsInitialisation ids names item sub =
      (client : T.AccountId) × (delegator : T.AccountId) × (names item.delegator ≡ some delegator)
      × (T.decode item.client ≡ some client)
      × (signer_filter O delegator ids ≢ [])
      × (sub ≡ (
        some (signer_filter O delegator ids),
        Call.init_errand client item.errand_id item.description_cid,
      ))

  -- The calls initialise tasks of the list, in its order, each of them at most once.
  abbrev pub IsInitialised :
      List (T.AccountId × O.Public)
      → StorageMap DelegatorName T.AccountId
      → List TaskInfo
      → List (Submission O)
      → Type 0
  IsInitialised ids names [] subs = subs ≡ []
  IsInitialised ids names (item ∷ items) subs =
      IsInitialised ids names items subs
      ⊎ ((sub : Submission O) × (rest : List (Submission O)) × IsInitialisation ids names item sub
          × (subs ≡ sub ∷ rest)
          × IsInitialised ids names items rest)

  module _ (ids : List (T.AccountId × O.Public)) where
    IsInitialised-none :
        (names : StorageMap DelegatorName T.AccountId) (items : List TaskInfo)
        → IsInitialised ids names items []
    IsInitialised-none names [] = refl
    IsInitialised-none names (item ∷ items) = inl (IsInitialised-none names items)

    send_one-cases :
        (item : TaskInfo) (n : Node O)
        → ((send_one O ids item n).1.submitted ≡ n.submitted)
          ⊎ ((sub : Submission O) × IsInitialisation ids n.chain.delegate_accounts item sub
              × ((send_one O ids item n).1.submitted ≡ n.submitted ++ sub ∷ []))
    unfolding send_one init_single_errand_task submit
    send_one-cases item n = elim (Option-cases (n.chain.delegate_accounts item.delegator)) [
      | inl unregistered ↦ inl (ground (arith, unregistered))
      | inr (delegator, registered) ↦ elim (Option-cases (T.decode item.client)) [
        | inl garbled ↦ inl (ground (arith, registered, garbled))
        | inr (client, decoded) ↦ elim (List-cases (signer_filter O delegator ids)) [
          | inl foreign ↦ inl (ground (arith, registered, decoded, foreign))
          | inr (k, keys, signs) ↦
              let log = send_to_delegator-submitted O item delegator n in
              elim (Bool-cases (send_to_delegator O item delegator n).0) [
                | inl sent ↦ inr (
                  (
                    some (signer_filter O delegator ids),
                    Call.init_errand client item.errand_id item.description_cid,
                  ),
                  (client, delegator, registered, decoded, ground (arith, signs), refl),
                  ground (arith, registered, decoded, signs, sent, log),
                )
                | inr failed ↦ inl (ground (arith, registered, decoded, signs, failed, log))
              ]
        ]
      ]
    ]

    send_all-IsInitialised :
        (items : List TaskInfo) (n : Node O)
        → (subs : List (Submission O)) × ((send_all O ids items n).submitted ≡ n.submitted ++ subs)
          × IsInitialised ids n.chain.delegate_accounts items subs
    unfolding send_all
    send_all-IsInitialised [] n = ([], sym (append-nil n.submitted), refl)
    send_all-IsInitialised (item ∷ items) n =
        let (go_on, n') = send_one O ids item n in
        let same : n'.chain.delegate_accounts ≡ n.chain.delegate_accounts =
          ap (λ s. s.delegate_accounts) (send_one-IsSameChain O ids item n) in
        let (later, sent, initialised) = send_all-IsInitialised items n' in
        let (subs, tail, there) : (subs : List (Submission O)) × ((send_all O ids (item ∷ items)
                n).submitted
              ≡ n'.submitted ++ subs)
            × IsInitialised ids n.chain.delegate_accounts items subs =
          elim (Bool-cases go_on) [
            | inl on ↦ (
              later,
              rw on sent,
              subst (λ names. IsInitialised ids names items later) same initialised,
            )
            | inr off ↦ (
              [],
              rw off (sym (append-nil n'.submitted)),
              IsInitialised-none n.chain.delegate_accounts items,
            )
          ] in
        elim (send_one-cases item n) [
          | inl silent ↦ (subs, tail ∙ ap (λ l. l ++ subs) silent, inl there)
          | inr (sub, init, one) ↦ (
            sub ∷ subs,
            tail ∙ ap (λ l. l ++ subs) one ∙ append_assoc n.submitted (sub ∷ []) subs,
            inr (sub, subs, init, refl, there),
          )
        ]

  -- When a block has tasks and there is a key to sign with, the calls that are sent for them
  -- initialise tasks of the block and nothing else: they follow the order of the tasks, with one call
  -- at most for each, signed by the local keys of the account that the task's delegate is
  -- registered with.
  pub send_errand_tasks_initialises :
      (block_number : ℕ) (n : Node O) {task_array : List TaskInfo}
      → n.chain.tasks block_number ≡ some task_array
      → O.can_sign n.world ≡ true
      → (subs : List (Submission O)) × ((send_errand_tasks O block_number n).submitted
          ≡ n.submitted ++ subs)
        × IsInitialised (get_accounts O n.world) n.chain.delegate_accounts task_array subs
  unfolding send_errand_tasks
  send_errand_tasks_initialises block_number n {task_array} queued signs =
      rw (queued, send_errand_tasks)
        (rw signs (send_all-IsInitialised (get_accounts O n.world) task_array n))
