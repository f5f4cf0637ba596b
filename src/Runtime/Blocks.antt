-- ===== src/Runtime/Blocks.antt =====
-- The blocks of the runtime: how much weight and how many bytes the extrinsics of the normal class
-- may take, and which calls of the pallet fit.
use kontracts.Prelude.{ℕ, ◌+◌, ◌*◌, ◌/◌, ◌^◌, ◌≤◌, ◌<◌, ◌≡◌, arith}
use kontracts.Pallet.Weights.{DbWeight, upload_code_weight, update_code_weight, execute_code_weight}
use kontracts.Runtime.{max_code_size}

-- `NORMAL_DISPATCH_RATIO`, in percent.
abbrev pub normal_dispatch_ratio : ℕ
normal_dispatch_ratio = 75

-- The argument of `with_sensible_defaults`: two seconds, each of `WEIGHT_REF_TIME_PER_SECOND`.
abbrev pub max_block_weight : ℕ → ℕ
max_block_weight second = 2 * second

-- The argument of `max_with_normal_ratio`, in bytes.
abbrev pub max_block_length : ℕ
max_block_length = 5 * 1024 * 1024

-- Substrate's weight of a second, and what frame_system makes of the arguments: the largest weight of one normal extrinsic, and the
-- bytes of the normal class.
pub record Limits : Type 0 where
  pub weight_ref_time_per_second : ℕ
  pub with_sensible_defaults : ℕ → ℕ → ℕ
  pub max_with_normal_ratio : ℕ → ℕ → ℕ

-- A tenth of the block is kept for its initialization, and a normal extrinsic may take what its
-- class has of the rest; of a block of a second at least, the base weight of an extrinsic is a hundredth at most.
pub record IsLimits (X : Limits) : Type 0 where
  -- in picoseconds
  pub second : X.weight_ref_time_per_second ≡ 1000000000000
  pub weight_left :
      (weight ratio : ℕ)
      → ratio ≤ 100
      → 1000000000000 ≤ weight
      → weight * ratio / 100 ≤ X.with_sensible_defaults weight ratio + weight * 11 / 100
  pub length_left :
      (bytes ratio : ℕ) → ratio ≤ 100 → X.max_with_normal_ratio bytes ratio ≡ bytes * ratio / 100

-- The prices of `RocksDbWeight`: 25 µs a read and 100 µs a write, in picoseconds.
pub record IsRocks (D : DbWeight) : Type 0 where
  pub writes : (n : ℕ) → D.writes n ≡ 100000000 * n
  pub reads_writes : (r w : ℕ) → D.reads_writes r w ≡ 25000000 * r + 100000000 * w

abbrev pub largest_extrinsic : Limits → ℕ
largest_extrinsic X =
    X.with_sensible_defaults (max_block_weight X.weight_ref_time_per_second) normal_dispatch_ratio

module _ (X : Limits) (L : IsLimits X) (D : DbWeight) (R : IsRocks D) where
  -- An upload or an update of a code of at most MaxCodeSize bytes, with at most 1000 bytes
  -- around it, fits a block of the runtime in the weight of one normal extrinsic and in the
  -- length of the normal class.
  pub largest_code_fits :
      (len overhead : ℕ)
      → len ≤ max_code_size
      → overhead ≤ 1000
      → (upload_code_weight D len ≤ largest_extrinsic X)
        × (update_code_weight D len ≤ largest_extrinsic X)
        × (len + overhead ≤ X.max_with_normal_ratio max_block_length normal_dispatch_ratio)
  largest_code_fits len overhead h k =
      let weight =
        L.weight_left (max_block_weight X.weight_ref_time_per_second) normal_dispatch_ratio
          (omega arith) (omega (arith, L.second)) in
      let bytes = L.length_left max_block_length normal_dispatch_ratio (omega arith) in
      (
        omega (arith, L.second, weight, R.writes 1),
        omega (arith, L.second, weight, R.writes 1),
        omega (arith, bytes),
      )

  -- An execution with any u32 for its fuel and at most 8000 reads and writes fits a block.
  pub execution_fits :
      (fuel reads writes : ℕ)
      → fuel < 2 ^ 32
      → reads + writes ≤ 8000
      → execute_code_weight D fuel reads writes ≤ largest_extrinsic X
  unfolding execute_code_weight
  execution_fits fuel reads writes h k =
      let weight =
        L.weight_left (max_block_weight X.weight_ref_time_per_second) normal_dispatch_ratio
          (omega arith) (omega (arith, L.second)) in
      omega (arith, L.second, weight, R.reads_writes reads writes)
