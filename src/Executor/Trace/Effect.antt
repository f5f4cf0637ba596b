-- ===== src/Executor/Trace/Effect.antt =====
-- What one call of the host does to the store.
use kontracts.Prelude.{◌≤◌, ◌≡◌, ◌≢◌, Option, arith}
use kontracts.Prelude.Outcome.{ok}
use kontracts.Bytes.{Bytes, bytes_ord}
use kontracts.Codec.{Codec}
use kontracts.Executor.Store.{KontractStore, Caller, kontracts_set, kontracts_get, kontracts_remove}
use kontracts.Executor.Memory.{read_vec, write_vec}
use kontracts.Executor.Host.{HostCall, set, get, remove, host_call}
use kontracts.Executor.Trace.{Op, op_of, next_read, next_write, perform}

module _ (hash : Bytes → Bytes) where
  pub record Effect (o : Op) (s s' : KontractStore) : Type 0 where
    pub max_read : s'.max_n_read ≡ s.max_n_read
    pub max_write : s'.max_n_write ≡ s.max_n_write
    pub read : s'.curr_n_read ≡ next_read o s.curr_n_read
    pub written : s'.curr_n_write ≡ next_write o s.curr_n_write
    pub read_budget : s.curr_n_read ≤ s.max_n_read → s'.curr_n_read ≤ s.max_n_read
    pub write_budget : s.curr_n_write ≤ s.max_n_write → s'.curr_n_write ≤ s.max_n_write
    pub stored : s'.storage ≡ perform hash o s.storage

module _ (C : Codec) (hash : Bytes → Bytes) where
  pub host_call-Effect :
      (f : HostCall) (mem : Option Bytes) (s : KontractStore) {c : Caller}
      → host_call C hash f (record { data_mut = s; memory = mem }) ≡ (ok tt, c)
      → Effect hash (op_of f mem) s c.data_mut
  unfolding host_call kontracts_set kontracts_get kontracts_remove read_vec write_vec
  host_call-Effect (set kp ks vp vs) mem s h = ground arith
  host_call-Effect (get kp ks vp vs) mem s h = ground arith
  host_call-Effect (remove kp ks) mem s h = ground arith

  -- A call that traps or panics has left the storage alone.
  pub host_call-storage_kept :
      (f : HostCall) (mem : Option Bytes) (s : KontractStore)
      → let (r, c) = host_call C hash f (record { data_mut = s; memory = mem }) in
        r ≢ ok tt → c.data_mut.storage ≡ s.storage
  unfolding host_call kontracts_set kontracts_get kontracts_remove read_vec write_vec
  host_call-storage_kept (set kp ks vp vs) mem s h = ground arith
  host_call-storage_kept (get kp ks vp vs) mem s h = ground arith
  host_call-storage_kept (remove kp ks) mem s h = ground arith
