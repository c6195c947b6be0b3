-- ===== src/Pallet/Call.antt =====
-- The dispatch that `decl_module!` generates from the functions of the pallet, and the executions
-- of a chain: calls by any origins, between changes that the other pallets make.
use substrate_demo.Prelude.{ℕ, ◌≤◌, ◌≡◌, Option, Bytes}
use substrate_demo.Pallet.Types.{Call}
use substrate_demo.Pallet.Config.{Trait}
use substrate_demo.Pallet.Store.{Store, Dispatch}
use substrate_demo.Pallet.Delegation
use substrate_demo.Pallet.Tasks
use substrate_demo.Pallet.Results

unfoldable pub dispatch : (T : Trait) → Call T.AccountId → T.Origin → Dispatch T (Unit {0})
dispatch T (Call.request_delegate name address) o = Delegation.request_delegate T o name address
dispatch T (Call.update_delegate_status updater) o = Delegation.update_delegate_status T o updater
dispatch T (Call.begin_task name cid fee) o = Tasks.begin_task T o name cid fee
dispatch T (Call.init_errand client id cid) o = Tasks.init_errand T o client id cid
dispatch T (Call.update_errand cid result) o = Results.update_errand T o cid result
dispatch T (Call.unreserve name client) o = Delegation.unreserve T o name client

-- One step of the chain. What a failed call wrote before it failed stays written: the calls are
-- not marked `#[transactional]`.
pub data Step (T : Trait) (s t : Store T) : Type 0 where
  call : (c : Call T.AccountId) (o : T.Origin) → t ≡ (dispatch T c o s).1 → Step T s t
  other_pallets :
      (n : ℕ) (seed : Bytes) (index : Option ℕ) (b : T.Balances)
      → s.block_number ≤ n
      → t ≡ record s { block_number = n; random_seed = seed; extrinsic_index = index; balances = b }
      → Step T s t

pub data Reach (T : Trait) (s : Store T) : Store T → Type 0 where
  here : Reach T s s
  next : {t u : Store T} → Reach T s t → Step T t u → Reach T s u
