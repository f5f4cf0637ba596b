-- ===== src/Runtime/Mock.antt =====
-- The runtime of the pallet's tests (kontracs/pallets/kontracts/src/mock.rs).
use kontracts.Prelude.{none, ◌≡◌, true, List, [], ◌∷◌, arith}
use kontracts.Codec.{Bounds, Storage, within, entries_within}
use kontracts.Runtime.{runtime_bounds}
use kontracts.Runtime.Config.{
  Pallet, SystemConfig, BalancesConfig, KontractsConfig, frame_system, pallet_balances,
  pallet_kontracts,
}
use kontracts.Runtime.Sizes.{AreSmall}

abbrev pub mock_pallets : List Pallet
mock_pallets = frame_system ∷ pallet_balances ∷ pallet_kontracts ∷ []

-- The version is `()`.
abbrev pub mock_system_config : SystemConfig (Unit {0})
mock_system_config = record {
  base_call_filter = λ _. true;
  block_weights = none;
  block_length = none;
  index = 64;
  block_number = 64;
  hash = 256;
  block_hash_count = 250;
  version = tt;
  account_data = 64;
  on_new_account = [];
  on_killed_account = [];
  ss58_prefix = 42;
  on_set_code = [];
  max_consumers = 16;
}

abbrev pub mock_bounds : Bounds
mock_bounds = record { key_size = 512; value_size = 512; entries = 1024 }

abbrev pub mock_kontracts_config : KontractsConfig
mock_kontracts_config = record {
  currency = pallet_balances;
  max_number_contracts = 5;
  max_code_size = 1000000;
  bounds = mock_bounds;
  code_id = 256;
}

-- An existential deposit of `()` is 0.
abbrev pub mock_balances_config : BalancesConfig
mock_balances_config = record {
  max_locks = 50;
  max_reserves = 1024;
  reserve_identifier = 8;
  balance = 64;
  dust_removal = [];
  existential_deposit = 0;
  account_store = frame_system;
}

mock_bounds-AreSmall : AreSmall mock_bounds
mock_bounds-AreSmall = omega arith

entries_within-mock :
    (m : Storage) → entries_within mock_bounds m ≡ true → entries_within runtime_bounds m ≡ true
entries_within-mock [] h = h
entries_within-mock ((k, v) ∷ m) h = ground (arith, entries_within-mock m)

-- A storage that the mock runtime accepts, the chain's runtime accepts.
within-mock : (m : Storage) → within mock_bounds m ≡ true → within runtime_bounds m ≡ true
within-mock m h = ground (arith, entries_within-mock m)
