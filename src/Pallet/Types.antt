-- ===== src/Pallet/Types.antt =====
-- The data types of pallets/abc-demo/src/lib.rs that do not depend on the configuration.
use substrate_demo.Prelude.{ℕ, Bool, Bytes, Eq}

abbrev pub ClientAccountId : Type 0
ClientAccountId = Bytes

abbrev pub ErrandId : Type 0
ErrandId = Bytes

abbrev pub Cid : Type 0
Cid = Bytes

abbrev pub NetAddress : Type 0
NetAddress = Bytes

abbrev pub DelegatorName : Type 0
DelegatorName = Bytes

-- `sp_core::crypto::AccountId32`, by its 32 bytes.
abbrev pub AccountId32 : Type 0
AccountId32 = Bytes

abbrev pub min_update_result_account : ℕ
min_update_result_account = 2

pub data ErrandStatus : Type 0 where
  processing done : ErrandStatus

ErrandStatus-discrete : Discrete ErrandStatus
ErrandStatus-discrete = hlevel

instance unfoldable pub errand_status_eq : Eq ErrandStatus
unfolding ErrandStatus-discrete
errand_status_eq = record { discrete = ErrandStatus-discrete }

pub record Errand : Type 0 where
  pub account_id : ClientAccountId
  pub errand_id : ErrandId
  pub description_cid : Cid
  pub status : ErrandStatus
  pub result : Cid

pub record TaskInfo : Type 0 where
  pub client : ClientAccountId
  pub delegator : DelegatorName
  pub description_cid : Cid
  pub errand_id : ErrandId
  pub fee : ℕ

pub record ErrandResultInfo : Type 0 where
  pub completed : Bool
  pub result_cid : Bytes
  pub failed_count : ℕ

pub data Event (AccountId : Type 0) : Type 0 where
  delegate_requested : AccountId → DelegatorName → Event AccountId
  delegate_updated : AccountId → Event AccountId
  task_began : AccountId → Bytes → AccountId → Event AccountId
  errand_inited : AccountId → Bytes → Event AccountId
  errand_updated : Bytes → Bytes → Event AccountId

pub data Error : Type 0 where
  none_value storage_overflow insufficient_fee send_errand_task_error query_errand_result_error :
      Error
  response_parsing_error errand_already_executed errand_task_not_exist errand_task_completed : Error
  errand_item_is_none processing_errand_not_exist apply_delegate_error client_already_exists : Error
  client_not_exist client_not_ready client_delegator_not_exist no_right_to_update_delegate : Error
  no_right_to_init_errand no_right_to_update_errand account_id32_convertion_error : Error
  local_storage_error : Error

-- The enum that `decl_module!` generates.
pub data Call (AccountId : Type 0) : Type 0 where
  request_delegate : DelegatorName → NetAddress → Call AccountId
  update_delegate_status : AccountId → Call AccountId
  begin_task : DelegatorName → Cid → ℕ → Call AccountId
  init_errand : AccountId → ErrandId → Cid → Call AccountId
  update_errand : Cid → Bytes → Call AccountId
  unreserve : DelegatorName → AccountId → Call AccountId
