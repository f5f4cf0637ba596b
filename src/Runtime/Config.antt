-- ===== src/Runtime/Config.antt =====
-- The configuration of the pallets: the `impl … Config for Runtime` and `construct_runtime!` of
-- kontracs/runtime/src/lib.rs. An item that names a type of FRAME without a value is left out, and
-- a handler that is `()` is an empty list of pallets.
use kontracts.Prelude.{ℕ, Bool, true, Option, some, List, [], ◌∷◌}
use kontracts.Codec.{Bounds}
use kontracts.Runtime.Blocks.{max_block_weight, max_block_length, normal_dispatch_ratio}
use kontracts.Runtime.{
  RuntimeVersion, version, block_hash_count, minimum_period, existential_deposit, runtime_bounds,
  max_code_size, max_authorities,
}

-- The pallets of `construct_runtime!`.
pub data Pallet : Type 0 where
  frame_system pallet_randomness_collective_flip pallet_timestamp pallet_aura pallet_grandpa :
      Pallet
  pallet_balances pallet_transaction_payment pallet_sudo pallet_kontracts : Pallet

-- In their order, which numbers them from 0.
abbrev pub all_pallets : List Pallet
all_pallets =
    frame_system ∷ pallet_randomness_collective_flip ∷ pallet_timestamp ∷ pallet_aura
    ∷ pallet_grandpa ∷ pallet_balances ∷ pallet_transaction_payment ∷ pallet_sudo ∷ pallet_kontracts
    ∷ []

-- The keys of a session, by whom they are for.
pub record SessionKeys (AuraId GrandpaId : Type 0) : Type 0 where
  pub aura : AuraId
  pub grandpa : GrandpaId

-- `SignedExtra`: the checks that a signed extrinsic goes through, in their order.
pub data SignedExtension : Type 0 where
  check_non_zero_sender check_spec_version check_tx_version check_genesis : SignedExtension
  check_era check_nonce check_weight charge_transaction_payment : SignedExtension

abbrev pub signed_extra : List SignedExtension
signed_extra =
    check_non_zero_sender ∷ check_spec_version ∷ check_tx_version ∷ check_genesis ∷ check_era
    ∷ check_nonce ∷ check_weight ∷ charge_transaction_payment ∷ []

-- `base_call_filter` is `Everything` here, on the pallet that a call belongs to; `index`,
-- `block_number`, `hash` and `account_data` are the bits of the types, the last of a balance. The
-- limits of blocks are what frame_system is given for them: from the weight of a second, and in
-- bytes, each with the ratio of the normal class; where they are `()`, nothing.
pub record SystemConfig (V : Type 0) : Type 0 where
  pub base_call_filter : Pallet → Bool
  pub block_weights : Option ((ℕ → ℕ) × ℕ)
  pub block_length : Option (ℕ × ℕ)
  pub index : ℕ
  pub block_number : ℕ
  pub hash : ℕ
  pub block_hash_count : ℕ
  pub version : V
  pub account_data : ℕ
  pub on_new_account : List Pallet
  pub on_killed_account : List Pallet
  pub ss58_prefix : ℕ
  pub on_set_code : List Pallet
  pub max_consumers : ℕ

abbrev pub system_config : SystemConfig RuntimeVersion
system_config = record {
  base_call_filter = λ _. true;
  block_weights = some (max_block_weight, normal_dispatch_ratio);
  block_length = some (max_block_length, normal_dispatch_ratio);
  index = 32;
  block_number = 32;
  hash = 256;
  block_hash_count = block_hash_count;
  version = version;
  account_data = 128;
  on_new_account = [];
  on_killed_account = [];
  ss58_prefix = 42;
  on_set_code = [];
  max_consumers = 16;
}

pub record AuraConfig : Type 0 where
  pub disabled_validators : List Pallet
  pub max_authorities : ℕ

abbrev pub aura_config : AuraConfig
aura_config = record { disabled_validators = []; max_authorities = max_authorities }

-- Without a system of proofs of key ownership, and without reports of equivocation.
pub record GrandpaConfig : Type 0 where
  pub key_owner_proof_system : List Pallet
  pub handle_equivocation : List Pallet
  pub max_authorities : ℕ

abbrev pub grandpa_config : GrandpaConfig
grandpa_config = record {
  key_owner_proof_system = [];
  handle_equivocation = [];
  max_authorities = 32;
}

-- `moment` is the bits of a timestamp.
pub record TimestampConfig : Type 0 where
  pub moment : ℕ
  pub on_timestamp_set : Pallet
  pub minimum_period : ℕ

abbrev pub timestamp_config : TimestampConfig
timestamp_config = record {
  moment = 64;
  on_timestamp_set = pallet_aura;
  minimum_period = minimum_period;
}

-- `reserve_identifier` is its number of bytes, `balance` the bits of a balance.
pub record BalancesConfig : Type 0 where
  pub max_locks : ℕ
  pub max_reserves : ℕ
  pub reserve_identifier : ℕ
  pub balance : ℕ
  pub dust_removal : List Pallet
  pub existential_deposit : ℕ
  pub account_store : Pallet

abbrev pub balances_config : BalancesConfig
balances_config = record {
  max_locks = 50;
  max_reserves = 1048576;
  reserve_identifier = 8;
  balance = 128;
  dust_removal = [];
  existential_deposit = existential_deposit;
  account_store = frame_system;
}

-- Fees go through the balances and to nobody; the multiplier is constant.
pub record TransactionPaymentConfig : Type 0 where
  pub on_charge_transaction : Pallet
  pub on_unbalanced : List Pallet
  pub operational_fee_multiplier : ℕ
  pub weight_to_fee : ℕ → ℕ
  pub length_to_fee : ℕ → ℕ
  pub fee_multiplier : ℕ

abbrev pub transaction_payment_config : TransactionPaymentConfig
transaction_payment_config = record {
  on_charge_transaction = pallet_balances;
  on_unbalanced = [];
  operational_fee_multiplier = 5;
  weight_to_fee = λ weight. weight;
  length_to_fee = λ len. len;
  fee_multiplier = 1;
}

-- `code_id` is the bits of an id.
pub record KontractsConfig : Type 0 where
  pub currency : Pallet
  pub max_number_contracts : ℕ
  pub max_code_size : ℕ
  pub bounds : Bounds
  pub code_id : ℕ

abbrev pub kontracts_config : KontractsConfig
kontracts_config = record {
  currency = pallet_balances;
  max_number_contracts = 1000;
  max_code_size = max_code_size;
  bounds = runtime_bounds;
  code_id = 256;
}
