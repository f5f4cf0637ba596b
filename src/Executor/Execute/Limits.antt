-- ===== src/Executor/Execute/Limits.antt =====
-- A call of the host past the limits of the execution, and what the pallet is told of it.
use kontracts.Prelude.{ℕ, ◌+◌, ◌^◌, ◌≡◌, ◌≢◌, ◌⊎◌, inl, inr, ap, none, some, arith}
use kontracts.Prelude.Outcome.{err}
use kontracts.Bytes.{Bytes}
use kontracts.Codec.{Codec}
use kontracts.Executor.Store.{KontractStore, Trap, kontracts_set, kontracts_get, kontracts_remove}
use kontracts.Executor.Memory.{slice, read_vec, write_vec}
use kontracts.Executor.Host.{HostCall, set, get, remove, host_call}
use kontracts.Executor.Execute.{
  ExecutionErrors, out_of_reads, out_of_writes, wasm_panic, error_of_trap,
}

-- The windows that a call reads its key and value from lie in the memory.
abbrev pub Readable : HostCall → Bytes → Type 0
Readable (set kp ks vp vs) mem = (slice kp ks mem ≢ none) × (slice vp vs mem ≢ none)
Readable (get kp ks vp vs) mem = slice kp ks mem ≢ none
Readable (remove kp ks) mem = slice kp ks mem ≢ none

-- The limit that the call falls under is used up.
abbrev pub Spent : HostCall → KontractStore → Type 0
Spent (set kp ks vp vs) s = s.curr_n_write ≡ s.max_n_write
Spent (get kp ks vp vs) s = s.curr_n_read ≡ s.max_n_read
Spent (remove kp ks) s = s.curr_n_write ≡ s.max_n_write

abbrev pub limit_of : HostCall → KontractStore → ℕ
limit_of (set kp ks vp vs) s = s.max_n_write
limit_of (get kp ks vp vs) s = s.max_n_read
limit_of (remove kp ks) s = s.max_n_write

abbrev pub limit_error : HostCall → ExecutionErrors
limit_error (set kp ks vp vs) = out_of_writes
limit_error (get kp ks vp vs) = out_of_reads
limit_error (remove kp ks) = out_of_writes

module _ (C : Codec) (hash : Bytes → Bytes) where
  unlimited_trap :
      (f : HostCall) (s : KontractStore) (mem : Bytes) {t : Trap}
      → limit_of f s + 1 ≡ 2 ^ 32
      → (host_call C hash f (record { data_mut = s; memory = some mem })).0 ≡ err t
      → (t ≡ "Impossible reading wasm memory") ⊎ (t ≡ "Impossible write data in wasm memory")
  unfolding host_call kontracts_set kontracts_get kontracts_remove read_vec write_vec
  unlimited_trap (set kp ks vp vs) s mem l e = ground arith
  unlimited_trap (get kp ks vp vs) s mem l e = ground arith
  unlimited_trap (remove kp ks) s mem l e = ground arith

  -- With the largest u32 for its limit, a host call that traps is reported as WasmPanic: it can
  -- trap on its memory windows only.
  pub host_call_unlimited :
      (f : HostCall) (s : KontractStore) (mem : Bytes) {t : Trap}
      → limit_of f s + 1 ≡ 2 ^ 32
      → (host_call C hash f (record { data_mut = s; memory = some mem })).0 ≡ err t
      → error_of_trap t ≡ wasm_panic
  unfolding error_of_trap
  host_call_unlimited f s mem l e = elim (unlimited_trap f s mem l e) [
    | inl reading ↦ ap error_of_trap reading
    | inr writing ↦ ap error_of_trap writing
  ]
