-- ===== src/Runtime/Apis/Features.antt =====
-- The runtime APIs behind features in kontracs/runtime/src/lib.rs: `frame_benchmarking::Benchmark`
-- with the list of `define_benchmarks!`, and `frame_try_runtime::TryRuntime`.
use kontracts.Prelude.{ℕ, String, Bool, List, [], ◌∷◌, ◌++◌}
use kontracts.Prelude.Outcome.{Outcome, ok, err, panic, ◌>>=◌}
use kontracts.Runtime.Apis.{Frame}

-- The benchmarks of `define_benchmarks!`: the crate that they are named by, and what runs them.
pub data Bench : Type 0 where
  baseline_bench system_bench balances_bench timestamp_bench kontracts_bench : Bench

abbrev pub benches : List (String × Bench)
benches =
    ("frame_benchmarking", baseline_bench)
    ∷ ("frame_system", system_bench)
    ∷ ("pallet_balances", balances_bench)
    ∷ ("pallet_timestamp", timestamp_bench)
    ∷ ("pallet_kontracts", kontracts_bench)
    ∷ []

-- What FRAME's tools give: of a benchmark its entry of a list, and what it adds to the batches under
-- a configuration and the keys whose accesses are not counted.
pub record Tools (F : Frame) : Type 1 where
  pub BenchmarkList : Type 0
  pub StorageInfo : Type 0
  pub BenchmarkConfig : Type 0
  pub BenchmarkBatch : Type 0
  pub TrackedStorageKey : Type 0
  pub TryStateSelect : Type 0
  pub list_benchmark : Bool → String × Bench → BenchmarkList
  pub run_benchmark :
      BenchmarkConfig
      → List TrackedStorageKey
      → String × Bench
      → Outcome String (List BenchmarkBatch)
  pub storage_info : List StorageInfo
  pub whitelisted_storage_keys : List TrackedStorageKey
  -- of `BlockWeights::get()`
  pub max_block : ℕ
  pub try_runtime_upgrade : F.State → Outcome String ℕ × F.State
  pub try_execute_block : F.Block → Bool → TryStateSelect → F.State → Outcome String ℕ × F.State

module _ {F : Frame} (X : Tools F) where
  -- `list_benchmarks!(list, extra)`
  abbrev pub list_benchmarks : Bool → List (String × Bench) → List X.BenchmarkList
  list_benchmarks extra [] = []
  list_benchmarks extra (b ∷ bs) = X.list_benchmark extra b ∷ list_benchmarks extra bs

  abbrev pub benchmark_metadata : Bool → List X.BenchmarkList × List X.StorageInfo
  benchmark_metadata extra = (list_benchmarks extra benches, X.storage_info)

  -- `add_benchmarks!(params, batches)`, which returns at the first error.
  abbrev pub add_benchmarks :
      X.BenchmarkConfig
      → List X.TrackedStorageKey
      → List (String × Bench)
      → List X.BenchmarkBatch
      → Outcome String (List X.BenchmarkBatch)
  add_benchmarks config whitelist [] batches = ok batches
  add_benchmarks config whitelist (b ∷ bs) batches = do
    more ← X.run_benchmark config whitelist b
    add_benchmarks config whitelist bs (batches ++ more)

  abbrev pub dispatch_benchmark : X.BenchmarkConfig → Outcome String (List X.BenchmarkBatch)
  dispatch_benchmark config = add_benchmarks config X.whitelisted_storage_keys benches []

  -- `….unwrap()`: an error panics.
  abbrev unwrap : {A : Type 0} → Outcome String A → Outcome String A
  unwrap (ok a) = ok a
  unwrap (err _) = panic
  unwrap panic = panic

  -- The weight of the upgrade, and that of a whole block.
  abbrev pub on_runtime_upgrade : F.State → Outcome String (ℕ × ℕ) × F.State
  on_runtime_upgrade s =
      let (weight, t) = X.try_runtime_upgrade s in ((do w ← unwrap weight; ok (w, X.max_block)), t)

  abbrev pub try_execute_block :
      F.Block → Bool → X.TryStateSelect → F.State → Outcome String ℕ × F.State
  try_execute_block block state_root_check select s =
      let (weight, t) = X.try_execute_block block state_root_check select s in (unwrap weight, t)
