-- ===== src/Offchain/Worker/Send.antt =====
-- `send_errand_tasks` of pallets/abc-demo/src/lib.rs.
use substrate_demo.Prelude.{
  ℕ, Bool, true, false, none, some, List, [], ◌∷◌, bytes_eq, ok, err, if◌then◌else◌,
}
use substrate_demo.Prelude.StorageMap
use substrate_demo.Pallet.Types.{TaskInfo}
use substrate_demo.Pallet.Config.{Trait}
use substrate_demo.Pallet.Accounts.{account_to_bytes}
use substrate_demo.Offchain.World.{Offchain}
use substrate_demo.Offchain.Task.{send_task_to_tea_network}
use substrate_demo.Offchain.Signing.{Node, get_accounts, signer_filter, init_single_errand_task}

module _ {T : Trait} (O : Offchain T) where
  -- `T::Currency::unreserve`, in the storage that the worker sees.
  abbrev release : T.AccountId → ℕ → Node O → Node O
  release account fee n =
      let (_, b) = T.unreserve account fee n.chain.balances in
      let s = n.chain in record n { chain = record s { balances = b } }

  -- The request to the delegate's machine; an account that is no 32 bytes is only logged.
  unfoldable pub send_to_delegator : TaskInfo → T.AccountId → Node O → Bool × Node O
  send_to_delegator item delegator n = elim (account_to_bytes T delegator) [
    | err _ ↦ (true, n)
    | ok account ↦
        let net_address = StorageMap.get_or [] delegator n.chain.delegate_net_address in
        let (sent, w) =
          send_task_to_tea_network O account item.description_cid item.errand_id net_address
            n.world in
        (sent, record n { world = w })
  ]

  -- One round of the loop, and whether the loop goes on.
  unfoldable pub send_one : List (T.AccountId × O.Public) → TaskInfo → Node O → Bool × Node O
  send_one account_ids item n = elim (n.chain.delegate_accounts item.delegator) [
    | none ↦ (false, n)
    | some delegator ↦ elim (T.decode item.client) [
      | none ↦ (true, n)
      | some client ↦
          let fee = StorageMap.get_or 0 client n.chain.client_task_fee in
          elim (signer_filter O delegator account_ids) [
            | [] ↦ (true, n)
            | k ∷ keys ↦
                let (sent, n₁) = send_to_delegator item delegator n in
                let (inited, n₂) =
                  init_single_errand_task O (some (k ∷ keys)) client item.description_cid
                    item.errand_id n₁ in
                if sent
                then (if inited then (true, n₂) else (true, release client fee n₂))
                else (true, release delegator fee n₁)
          ]
    ]
  ]

  unfoldable pub send_all : List (T.AccountId × O.Public) → List TaskInfo → Node O → Node O
  send_all account_ids [] n = n
  send_all account_ids (item ∷ items) n =
      let (go_on, n') = send_one account_ids item n in
      let rest = send_all account_ids items n' in if go_on then rest else n'

  unfoldable pub send_errand_tasks : ℕ → Node O → Node O
  unfolding send_all
  send_errand_tasks block_number n = elim (n.chain.tasks block_number) [
    | none ↦ n
    | some task_array ↦
        if O.can_sign n.world then send_all (get_accounts O n.world) task_array n else n
  ]
