-- ===== src/Pallet/Delegation.antt =====
-- The calls `request_delegate`, `update_delegate_status` and `unreserve` of
-- pallets/abc-demo/src/lib.rs.
use substrate_demo.Prelude.{
  true, false, not, Eq, bytes_eq, nat_eq, ◌==◌, lift, gets, modify, ensure, ◌>>=◌, ◌>>◌,
}
use substrate_demo.Prelude.StorageMap
use substrate_demo.Pallet.Types.{
  NetAddress, DelegatorName, client_already_exists, client_not_exist, no_right_to_update_delegate,
  delegate_requested, delegate_updated,
}
use substrate_demo.Pallet.Config.{Trait}
use substrate_demo.Pallet.Store.{Dispatch, deposit_event, push_or_insert}

module _ (T : Trait) where
  instance abbrev account_eq : Eq T.AccountId
  account_eq = T.account_eq

  unfoldable pub request_delegate : T.Origin → DelegatorName → NetAddress → Dispatch T (Unit {0})
  request_delegate origin delegator_name net_address = do
    sender ← lift (T.ensure_signed origin)
    ensure (not (← gets (λ s. StorageMap.contains_key sender s.delegates)))
        (T.from_error client_already_exists)
    block_number ← gets (λ s. s.block_number)
    modify (λ s. record s {
      delegates_applys = push_or_insert block_number (delegator_name, sender) s.delegates_applys;
    })
    modify (λ s. record s { delegates = StorageMap.insert sender false s.delegates })
    modify (λ s. record s {
      delegate_net_address = StorageMap.insert sender net_address s.delegate_net_address;
    })
    modify (λ s. record s {
      delegate_accounts = StorageMap.insert delegator_name sender s.delegate_accounts;
    })
    deposit_event (delegate_requested sender delegator_name)

  unfoldable pub update_delegate_status : T.Origin → T.AccountId → Dispatch T (Unit {0})
  update_delegate_status origin updater = do
    sender ← lift (T.ensure_signed origin)
    ensure (sender == updater) (T.from_error no_right_to_update_delegate)
    ensure (← gets (λ s. StorageMap.contains_key sender s.delegates))
        (T.from_error client_not_exist)
    modify (λ s. record s { delegates = StorageMap.insert sender true s.delegates })
    deposit_event (delegate_updated sender)

  -- The origin is taken and never looked at.
  unfoldable pub unreserve : T.Origin → DelegatorName → T.AccountId → Dispatch T (Unit {0})
  unreserve origin delegator_name client = do
    modify (λ s. record s { delegates = StorageMap.remove client s.delegates })
    modify (λ s. record s { client_delegate = StorageMap.remove client s.client_delegate })
    delegator ← gets (λ s. StorageMap.get_or T.default_account delegator_name s.delegate_accounts)
    modify (λ s. record s {
      delegate_net_address = StorageMap.remove delegator s.delegate_net_address;
    })
    modify
        (λ s. record s { delegate_accounts = StorageMap.remove delegator_name s.delegate_accounts })
