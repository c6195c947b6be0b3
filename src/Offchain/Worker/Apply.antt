-- ===== src/Offchain/Worker/Apply.antt =====
-- `apply_delegates` and `apply_single_delegate` of pallets/abc-demo/src/lib.rs.
use substrate_demo.Prelude.{ℕ, none, some, List, [], ◌∷◌, Result, ok, err, if◌then◌else◌}
use substrate_demo.Prelude.StorageMap
use substrate_demo.Pallet.Types.{Call, Error, apply_delegate_error, DelegatorName}
use substrate_demo.Pallet.Config.{Trait}
use substrate_demo.Pallet.Accounts.{account_to_bytes}
use substrate_demo.Offchain.World.{Offchain}
use substrate_demo.Offchain.Delegate.{request_single_delegate}
use substrate_demo.Offchain.Signing.{Node, get_accounts, signer_filter, submit}

module _ {T : Trait} (O : Offchain T) where
  unfoldable pub apply_single_delegate : T.AccountId → Node O → Result Error (Unit {0}) × Node O
  apply_single_delegate delegator n =
      let net_address = StorageMap.get_or [] delegator n.chain.delegate_net_address in
      elim (account_to_bytes T delegator) [
        | err e ↦ (err e, n)
        | ok account ↦
            let (accepted, w) = request_single_delegate O account net_address n.world in
            (if accepted then ok tt else err apply_delegate_error, record n { world = w })
      ]

  -- The call that an application leads to: the update of the status, or the removal.
  abbrev pub application_call :
      DelegatorName × T.AccountId → Result Error (Unit {0}) → Call T.AccountId
  application_call (name, account) (ok _) = Call.update_delegate_status account
  application_call (name, account) (err _) = Call.unreserve name account

  -- One round of the loop: an application of an account with no local key is passed over.
  unfoldable pub apply_one :
      List (T.AccountId × O.Public) → DelegatorName × T.AccountId → Node O → Node O
  unfolding submit
  apply_one account_ids (name, account) n = elim (signer_filter O account account_ids) [
    | [] ↦ n
    | k ∷ keys ↦
        let (result, n') = apply_single_delegate account n in
        (submit O (some (k ∷ keys)) (application_call (name, account) result) n').1
  ]

  unfoldable pub apply_all :
      List (T.AccountId × O.Public) → List (DelegatorName × T.AccountId) → Node O → Node O
  apply_all account_ids [] n = n
  apply_all account_ids (acc ∷ accounts) n =
      apply_all account_ids accounts (apply_one account_ids acc n)

  unfoldable pub apply_delegates : ℕ → Node O → Node O
  unfolding apply_all
  apply_delegates block_number n = elim (n.chain.delegates_applys block_number) [
    | none ↦ n
    | some accounts ↦
        if O.can_sign n.world then apply_all (get_accounts O n.world) accounts n else n
  ]
