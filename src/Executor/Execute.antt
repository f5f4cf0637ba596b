-- ===== src/Executor/Execute.antt =====
-- `KontractsExecutor::execute_code`.
pub mod Refines
pub mod Limits
pub mod Completes
pub mod Encodes
use kontracts.Prelude.{ℕ, Bool, Option, none, some, if◌then◌else◌}
use kontracts.Prelude.Outcome.{Outcome, ok, err, panic, ◌>>=◌, ◌>>◌, ok_or, map_err}
use kontracts.Bytes.{Bytes}
use kontracts.Codec.{Codec, Storage}
use kontracts.Executor.Store.{KontractStore, Trap}
use kontracts.Executor.Guest.{Guest, run}
use text.Mathlib.Text.{◌==◌}

pub data ExecutionErrors : Type 0 where
  incorrec_binary impossible_create_instance main_entry_point_not_defined wasm_panic :
      ExecutionErrors
  impossible_add_fuel impossible_create_engine impossible_create_host_function : ExecutionErrors
  impossible_decoding_kontract_storage unexpected_behavoiur : ExecutionErrors
  out_of_fuel out_of_reads out_of_writes : ExecutionErrors

-- wasmtime, which the repository does not hold. `instantiate` runs the module's start function,
-- which may call the host; `main` is the export's type check, then its body.
pub record Engine : Type 1 where
  pub Module : Type 0
  pub Instance : Type 0
  pub create : Bool
  pub compile : Bytes → Option Module
  pub add_fuel : ℕ → Bool
  pub func_wrap : Bool
  pub instantiate : Module → ℕ → Option (Guest Instance)
  pub main : Instance → Option (Guest (Unit {0}))

-- `map_err` of the call of `main`, on what the trap displays.
unfoldable pub error_of_trap : Trap → ExecutionErrors
error_of_trap reason =
    if reason == "all fuel consumed by WebAssembly"
    then out_of_fuel
    else if reason == "ExceededReads"
    then out_of_reads
    else if reason == "ExceededWrites"
    then out_of_writes
    else wasm_panic

abbrev ensure : Bool → ExecutionErrors → Outcome ExecutionErrors (Unit {0})
ensure b e = if b then ok tt else err e

-- The data of a new `Store`.
abbrev pub fresh_store : ℕ → ℕ → Storage → KontractStore
fresh_store max_read max_write storage = record {
  max_n_read = max_read;
  max_n_write = max_write;
  curr_n_read = 0;
  curr_n_write = 0;
  storage = storage;
}

module _ (E : Engine) (C : Codec) (hash : Bytes → Bytes) where
  -- `linker.instantiate(…)`, and `get_typed_func` and the call of "main", on the same store.
  unfoldable pub call_main : E.Module → ℕ → KontractStore → Outcome ExecutionErrors Bytes
  call_main compiled fuel store = do
    start ← ok_or (E.instantiate compiled fuel) impossible_create_instance
    let (instantiated, s) = run C hash start store
    linked ← map_err (λ _. impossible_create_instance) instantiated
    body ← ok_or (E.main linked) main_entry_point_not_defined
    let (r, s') = run C hash body s
    map_err error_of_trap r
    ok (C.encode_map s'.storage)

  unfoldable pub execute_code : Bytes → Bytes → ℕ → ℕ → ℕ → Outcome ExecutionErrors Bytes
  unfolding call_main
  execute_code code storage fuel max_read max_write = do
    ensure E.create impossible_create_engine
    compiled ← ok_or (E.compile code) incorrec_binary
    decoded ← ok_or (C.decode_map storage) impossible_decoding_kontract_storage
    ensure (E.add_fuel fuel) impossible_add_fuel
    ensure E.func_wrap impossible_decoding_kontract_storage
    call_main compiled fuel (fresh_store max_read max_write decoded.0)
