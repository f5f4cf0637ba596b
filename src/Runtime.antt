-- ===== src/Runtime.antt =====
-- The constants of the runtime, and its configuration of the pallet.
pub mod Config
pub mod Sizes
pub mod Deposits
pub mod Storages
pub mod Blocks
pub mod Slots
pub mod Apis
pub mod Fees
pub mod Mock
use kontracts.Prelude.{ℕ, ◌+◌, ◌*◌, ◌/◌, ◌^◌, ◌<◌, ◌≡◌, refl, String}
use kontracts.Codec.{Bounds}

abbrev pub millisecs_per_block : ℕ
millisecs_per_block = 6000

abbrev pub slot_duration : ℕ
slot_duration = millisecs_per_block

abbrev pub minutes : ℕ
minutes = 60000 / millisecs_per_block

abbrev pub hours : ℕ
hours = minutes * 60

abbrev pub days : ℕ
days = hours * 24

abbrev pub block_hash_count : ℕ
block_hash_count = 2400

-- `RuntimeVersion`, less the list of the APIs.
pub record RuntimeVersion : Type 0 where
  pub spec_name : String
  pub impl_name : String
  pub authoring_version : ℕ
  pub spec_version : ℕ
  pub impl_version : ℕ
  pub transaction_version : ℕ
  pub state_version : ℕ

-- `VERSION`
abbrev pub version : RuntimeVersion
version = record {
  spec_name = "node-kontracts";
  impl_name = "node-kontracts";
  authoring_version = 1;
  spec_version = 100;
  impl_version = 1;
  transaction_version = 1;
  state_version = 1;
}

-- `MinimumPeriod` of the timestamps.
abbrev pub minimum_period : ℕ
minimum_period = slot_duration / 2

abbrev pub existential_deposit : ℕ
existential_deposit = 500

-- `impl pallet_kontracts::Config for Runtime`, its bounds on a kontract's storage.
abbrev pub runtime_bounds : Bounds
runtime_bounds = record { key_size = 512; value_size = 1024; entries = 1048576 }

abbrev pub max_code_size : ℕ
max_code_size = 1000000

-- `MaxAuthorities` of the authors and of the voters.
abbrev pub max_authorities : ℕ
max_authorities = 32
