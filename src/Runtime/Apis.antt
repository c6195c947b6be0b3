-- ===== src/Runtime/Apis.antt =====
-- The runtime interfaces of runtime/src/lib.rs, by which the node calls the runtime.
use substrate_demo.Prelude.{ℕ, Option, none, List, Bytes}
use substrate_demo.Runtime.Constants.{RuntimeVersion, version}

-- What the interfaces pass calls on to: the executive, the modules of the pallets and generated
-- code, over the storage of a block.
pub record Modules : Type 1 where
  pub Storage : Type 0
  pub Apis : Type 0
  pub runtime_api_versions : Apis
  pub Block : Type 0
  pub Header : Type 0
  pub Extrinsic : Type 0
  pub Hash : Type 0
  pub AccountId : Type 0
  pub ApplyExtrinsicResult : Type 0
  pub InherentData : Type 0
  pub CheckInherentsResult : Type 0
  pub TransactionSource : Type 0
  pub TransactionValidity : Type 0
  pub Metadata : Type 0
  pub OpaqueMetadata : Type 0
  pub AuraId : Type 0
  pub GrandpaId : Type 0
  pub GrandpaAuthorityList : Type 0
  pub KeyTypeId : Type 0
  pub RuntimeDispatchInfo : Type 0
  pub executive_execute_block : Block → Storage → Storage
  pub executive_initialize_block : Header → Storage → Storage
  pub executive_apply_extrinsic : Extrinsic → Storage → ApplyExtrinsicResult × Storage
  pub executive_finalize_block : Storage → Header × Storage
  pub executive_validate_transaction :
      TransactionSource → Extrinsic → Storage → TransactionValidity × Storage
  pub executive_offchain_worker : Header → Storage → Storage
  pub runtime_metadata : Metadata
  pub into_opaque : Metadata → OpaqueMetadata
  pub create_extrinsics : InherentData → Storage → List Extrinsic
  pub check_extrinsics : InherentData → Block → Storage → CheckInherentsResult
  pub randomness_random_seed : Storage → Hash
  pub aura_slot_duration : Storage → ℕ
  pub aura_authorities : Storage → List AuraId
  pub session_keys_generate : Option Bytes → Storage → Bytes × Storage
  pub session_keys_decode_into_raw_public_keys : Bytes → Option (List (Bytes × KeyTypeId))
  pub grandpa_authorities_of : Storage → GrandpaAuthorityList
  pub system_account_nonce : AccountId → Storage → ℕ
  pub transaction_payment_query_info : Extrinsic → ℕ → Storage → RuntimeDispatchInfo

module _ (M : Modules) where
  -- `Core`, and `Metadata`
  abbrev core_version : RuntimeVersion M.Apis
  core_version = version M.runtime_api_versions

  abbrev execute_block : M.Block → M.Storage → M.Storage
  execute_block block = M.executive_execute_block block

  abbrev initialize_block : M.Header → M.Storage → M.Storage
  initialize_block header = M.executive_initialize_block header

  abbrev metadata : M.OpaqueMetadata
  metadata = M.into_opaque M.runtime_metadata

  -- `BlockBuilder`
  abbrev apply_extrinsic : M.Extrinsic → M.Storage → M.ApplyExtrinsicResult × M.Storage
  apply_extrinsic extrinsic = M.executive_apply_extrinsic extrinsic

  abbrev finalize_block : M.Storage → M.Header × M.Storage
  finalize_block = M.executive_finalize_block

  abbrev inherent_extrinsics : M.InherentData → M.Storage → List M.Extrinsic
  inherent_extrinsics data_ = M.create_extrinsics data_

  abbrev check_inherents : M.Block → M.InherentData → M.Storage → M.CheckInherentsResult
  check_inherents block data_ = M.check_extrinsics data_ block

  abbrev random_seed : M.Storage → M.Hash
  random_seed = M.randomness_random_seed

  -- `TaggedTransactionQueue` and `OffchainWorkerApi`
  abbrev validate_transaction :
      M.TransactionSource → M.Extrinsic → M.Storage → M.TransactionValidity × M.Storage
  validate_transaction source tx = M.executive_validate_transaction source tx

  abbrev api_offchain_worker : M.Header → M.Storage → M.Storage
  api_offchain_worker header = M.executive_offchain_worker header

  -- `AuraApi`
  abbrev api_slot_duration : M.Storage → ℕ
  api_slot_duration = M.aura_slot_duration

  abbrev authorities : M.Storage → List M.AuraId
  authorities = M.aura_authorities

  -- `SessionKeys`
  abbrev generate_session_keys : Option Bytes → M.Storage → Bytes × M.Storage
  generate_session_keys seed = M.session_keys_generate seed

  abbrev decode_session_keys : Bytes → Option (List (Bytes × M.KeyTypeId))
  decode_session_keys encoded = M.session_keys_decode_into_raw_public_keys encoded

  -- `GrandpaApi`: no misbehaviour of an authority is ever reported, whatever the proofs are.
  abbrev grandpa_authorities : M.Storage → M.GrandpaAuthorityList
  grandpa_authorities = M.grandpa_authorities_of

  abbrev submit_report_equivocation_unsigned_extrinsic :
      {EquivocationProof OpaqueKeyOwnershipProof : Type 0}
      → EquivocationProof
      → OpaqueKeyOwnershipProof
      → Option (Unit {0})
  submit_report_equivocation_unsigned_extrinsic _ _ = none

  abbrev generate_key_ownership_proof :
      {OpaqueKeyOwnershipProof : Type 0} → ℕ → M.GrandpaId → Option OpaqueKeyOwnershipProof
  generate_key_ownership_proof _ _ = none

  -- `AccountNonceApi` and `TransactionPaymentApi`
  abbrev account_nonce : M.AccountId → M.Storage → ℕ
  account_nonce account = M.system_account_nonce account

  abbrev query_info : M.Extrinsic → ℕ → M.Storage → M.RuntimeDispatchInfo
  query_info uxt len = M.transaction_payment_query_info uxt len
