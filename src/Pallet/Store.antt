-- ===== src/Pallet/Store.antt =====
-- `decl_storage!` of pallets/abc-demo/src/lib.rs, beside what the pallet reads of other pallets:
-- the block number, the random seed and the extrinsic index, and the balances that it moves.
-- `events` is the log of the calls of `deposit_event`.
use substrate_demo.Prelude.{
  ◌≡◌, ◌==◌, arith, some, ℕ, Bool, Option, List, [], ◌∷◌, ◌++◌, Bytes, Eq, Action, modify,
  if◌then◌else◌,
}
use substrate_demo.Prelude.StorageMap
use substrate_demo.Prelude.StorageMap.{StorageMap}
use substrate_demo.Pallet.Types.{
  Errand, TaskInfo, Event, Cid, NetAddress, DelegatorName, AccountId32,
}
use substrate_demo.Pallet.Config.{Trait}

pub record Store (T : Trait) : Type 0 where
  pub errands : StorageMap Cid Errand
  pub delegates : StorageMap T.AccountId Bool
  pub completed_errands : StorageMap Cid (List T.AccountId)
  pub client_task_fee : StorageMap T.AccountId ℕ
  pub client_delegate : StorageMap T.AccountId T.AccountId
  pub delegate_net_address : StorageMap T.AccountId NetAddress
  pub delegate_accounts : StorageMap DelegatorName T.AccountId
  pub tasks : StorageMap ℕ (List TaskInfo)
  pub delegates_applys : StorageMap ℕ (List (DelegatorName × T.AccountId))
  pub processing_errands : List Cid
  pub development_mode : Bool
  pub update_result_accounts : List AccountId32
  pub block_number : ℕ
  pub random_seed : Bytes
  pub extrinsic_index : Option ℕ
  pub balances : T.Balances
  pub events : List (Event T.AccountId)

-- A call of the pallet: its result, and the storage with every write made before it returned.
abbrev pub Dispatch : Trait → Type 0 → Type 0
Dispatch T A = Action (Store T) T.DispatchError A

pub record GenesisConfig : Type 0 where
  pub development_mode : Bool
  pub update_result_accounts : List AccountId32

module _ {T : Trait} where
  -- The `build` closure of `add_extra_genesis`.
  unfoldable pub build : GenesisConfig → Store T → Store T
  build config s = record s {
    development_mode = config.development_mode;
    update_result_accounts = config.update_result_accounts;
  }

  abbrev pub deposit_event : Event T.AccountId → Dispatch T (Unit {0})
  deposit_event e = modify (λ s. record s { events = s.events ++ e ∷ [] })

-- `if contains_key { take; push; insert } else { insert(vec![v]) }`
unfoldable pub push_or_insert :
    {K V : Type 0} ⦃e : Eq K⦄ → K → V → StorageMap K (List V) → StorageMap K (List V)
push_or_insert k v m =
    if StorageMap.contains_key k m
    then StorageMap.insert k (StorageMap.get_or [] k m ++ v ∷ []) (StorageMap.remove k m)
    else StorageMap.insert k (v ∷ []) m

-- In either branch the value is added at the end of what the key held.
pub push_or_insert_lem :
    {K V : Type 0} ⦃e : Eq K⦄ (k j : K) (v : V) (m : StorageMap K (List V))
    → push_or_insert k v m j ≡ (if j == k then some (StorageMap.get_or [] k m ++ v ∷ []) else m j)
unfolding push_or_insert
push_or_insert_lem k j v m = ground arith

pub get_or-push_or_insert :
    {K V : Type 0} ⦃e : Eq K⦄ (k j : K) (v : V) (m : StorageMap K (List V))
    → StorageMap.get_or [] j (push_or_insert k v m)
      ≡ (if j == k then StorageMap.get_or [] k m ++ v ∷ [] else StorageMap.get_or [] j m)
get_or-push_or_insert k j v m = ground (arith, push_or_insert_lem k j v m)

pub get_or-remove :
    {K V : Type 0} ⦃e : Eq K⦄ (k j : K) (m : StorageMap K (List V))
    → StorageMap.get_or [] j (StorageMap.remove k m)
      ≡ (if j == k then [] else StorageMap.get_or [] j m)
get_or-remove k j m = ground arith
