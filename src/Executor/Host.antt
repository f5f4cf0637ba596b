-- ===== src/Executor/Host.antt =====
-- The functions that `execute_code` links under "env": the closures for "set", "get", "remove".
pub mod Get
use kontracts.Prelude.{ℕ, Option, none, some, [], if◌then◌else◌}
use kontracts.Prelude.Outcome.{Outcome, ok, err, panic}
use kontracts.Bytes.{Bytes}
use kontracts.Codec.{Codec}
use kontracts.Executor.Store.{Host, ◌>>=◌, ◌>>◌, kontracts_set, kontracts_get, kontracts_remove}
use kontracts.Executor.Memory.{read_vec, write_vec}

-- A call of an import, with its `u32` arguments.
pub data HostCall : Type 0 where
  set : ℕ → ℕ → ℕ → ℕ → HostCall
  get : ℕ → ℕ → ℕ → ℕ → HostCall
  remove : ℕ → ℕ → HostCall

abbrev pub unwrap_or_empty : Option Bytes → Bytes
unwrap_or_empty none = []
unwrap_or_empty (some v) = v

module _ (C : Codec) (hash : Bytes → Bytes) where
  unfoldable pub host_call : HostCall → Host (Unit {0})
  host_call (set key_ptr key_size value_ptr value_size) = do
    key_vec ← read_vec key_ptr key_size
    value_vec ← read_vec value_ptr value_size
    kontracts_set hash key_vec value_vec
  host_call (get key_ptr key_size value_ptr value_max_size) = do
    key_vec ← read_vec key_ptr key_size
    value ← kontracts_get hash key_vec
    write_vec C (unwrap_or_empty value) value_ptr value_max_size
  host_call (remove key_ptr key_size) = do
    key_vec ← read_vec key_ptr key_size
    kontracts_remove hash key_vec
