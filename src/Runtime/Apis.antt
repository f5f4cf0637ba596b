-- ===== src/Runtime/Apis.antt =====
-- `impl_runtime_apis!` of kontracs/runtime/src/lib.rs: what a node may ask of the runtime. Each
-- function passes its arguments on to FRAME, whose functions are a parameter.
pub mod Features
use kontracts.Prelude.{ℕ, Option, none, List}
use kontracts.Bytes.{Bytes}
use kontracts.Runtime.{RuntimeVersion, version}
use kontracts.Runtime.Config.{TimestampConfig, timestamp_config}

-- The types and functions of FRAME, of the inherents and of the session keys that are called. What
-- reads or changes the state of the chain is given it.
pub record Frame : Type 1 where
  pub State : Type 0
  pub Header : Type 0
  pub Block : Type 0
  pub Extrinsic : Type 0
  pub RuntimeCall : Type 0
  pub AccountId : Type 0
  pub AuraId : Type 0
  pub GrandpaId : Type 0
  pub KeyTypeId : Type 0
  pub Hash : Type 0
  pub InherentData : Type 0
  pub CheckInherentsResult : Type 0
  pub ApplyExtrinsicResult : Type 0
  pub TransactionSource : Type 0
  pub TransactionValidity : Type 0
  pub EquivocationProof : Type 0
  pub OpaqueKeyOwnershipProof : Type 0
  pub RuntimeDispatchInfo : Type 0
  pub FeeDetails : Type 0
  -- Executive
  pub execute_block : Block → State → State
  pub initialize_block : Header → State → State
  pub apply_extrinsic : Extrinsic → State → ApplyExtrinsicResult × State
  pub finalize_block : State → Header × State
  pub validate_transaction :
      TransactionSource → Extrinsic → Hash → State → TransactionValidity × State
  pub offchain_worker : Header → State → State
  -- InherentData
  pub create_extrinsics : InherentData → State → List Extrinsic
  pub check_extrinsics : InherentData → Block → State → CheckInherentsResult
  -- Runtime, opaque::SessionKeys
  pub metadata : Bytes
  pub generate : Option Bytes → Bytes
  pub decode_into_raw_public_keys : Bytes → Option (List (Bytes × KeyTypeId))
  -- Aura, Grandpa, System, TransactionPayment
  pub aura_slot_duration : TimestampConfig → ℕ
  pub aura_authorities : State → List AuraId
  pub grandpa_authorities : State → List (GrandpaId × ℕ)
  pub current_set_id : State → ℕ
  pub account_nonce : AccountId → State → ℕ
  pub query_info : Extrinsic → ℕ → State → RuntimeDispatchInfo
  pub query_fee_details : Extrinsic → ℕ → State → FeeDetails
  pub query_call_info : RuntimeCall → ℕ → State → RuntimeDispatchInfo
  pub query_call_fee_details : RuntimeCall → ℕ → State → FeeDetails

module _ (F : Frame) where
  -- Core
  abbrev pub api_version : RuntimeVersion
  api_version = version

  abbrev pub execute_block : F.Block → F.State → F.State
  execute_block block = F.execute_block block

  abbrev pub initialize_block : F.Header → F.State → F.State
  initialize_block header = F.initialize_block header

  -- Metadata
  abbrev pub metadata : Bytes
  metadata = F.metadata

  -- BlockBuilder
  abbrev pub apply_extrinsic : F.Extrinsic → F.State → F.ApplyExtrinsicResult × F.State
  apply_extrinsic extrinsic = F.apply_extrinsic extrinsic

  abbrev pub finalize_block : F.State → F.Header × F.State
  finalize_block = F.finalize_block

  abbrev pub inherent_extrinsics : F.InherentData → F.State → List F.Extrinsic
  inherent_extrinsics inherents = F.create_extrinsics inherents

  abbrev pub check_inherents : F.Block → F.InherentData → F.State → F.CheckInherentsResult
  check_inherents block inherents = F.check_extrinsics inherents block

  -- TaggedTransactionQueue
  abbrev pub validate_transaction :
      F.TransactionSource → F.Extrinsic → F.Hash → F.State → F.TransactionValidity × F.State
  validate_transaction source tx block_hash = F.validate_transaction source tx block_hash

  -- OffchainWorkerApi
  abbrev pub offchain_worker : F.Header → F.State → F.State
  offchain_worker header = F.offchain_worker header

  -- AuraApi; a `SlotDuration` is its milliseconds.
  abbrev pub api_slot_duration : ℕ
  api_slot_duration = F.aura_slot_duration timestamp_config

  abbrev pub authorities : F.State → List F.AuraId
  authorities = F.aura_authorities

  -- SessionKeys
  abbrev pub generate_session_keys : Option Bytes → Bytes
  generate_session_keys seed = F.generate seed

  abbrev pub decode_session_keys : Bytes → Option (List (Bytes × F.KeyTypeId))
  decode_session_keys encoded = F.decode_into_raw_public_keys encoded

  -- GrandpaApi
  abbrev pub grandpa_authorities : F.State → List (F.GrandpaId × ℕ)
  grandpa_authorities = F.grandpa_authorities

  abbrev pub current_set_id : F.State → ℕ
  current_set_id = F.current_set_id

  abbrev pub submit_report_equivocation_unsigned_extrinsic :
      F.EquivocationProof → F.OpaqueKeyOwnershipProof → Option (Unit {0})
  submit_report_equivocation_unsigned_extrinsic _ _ = none

  abbrev pub generate_key_ownership_proof : ℕ → F.GrandpaId → Option F.OpaqueKeyOwnershipProof
  generate_key_ownership_proof _ _ = none

  -- AccountNonceApi
  abbrev pub account_nonce : F.AccountId → F.State → ℕ
  account_nonce account = F.account_nonce account

  -- TransactionPaymentApi, TransactionPaymentCallApi
  abbrev pub query_info : F.Extrinsic → ℕ → F.State → F.RuntimeDispatchInfo
  query_info uxt len = F.query_info uxt len

  abbrev pub query_fee_details : F.Extrinsic → ℕ → F.State → F.FeeDetails
  query_fee_details uxt len = F.query_fee_details uxt len

  abbrev pub query_call_info : F.RuntimeCall → ℕ → F.State → F.RuntimeDispatchInfo
  query_call_info call len = F.query_call_info call len

  abbrev pub query_call_fee_details : F.RuntimeCall → ℕ → F.State → F.FeeDetails
  query_call_fee_details call len = F.query_call_fee_details call len
