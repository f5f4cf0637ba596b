-- ===== src/Executor/Memory.antt =====
-- `read_vec` and `write_vec` of `mod kontracts_host_function`: bytes to and from the linear memory.
pub mod Window
use kontracts.Prelude.{
  ℕ, ◌+◌, Option, none, some, ◌++◌, ◌==◌, ltb, leb, length, take, drop, if◌then◌else◌,
}
use kontracts.Prelude.Outcome.{Outcome, ok, err, panic}
use kontracts.Bytes.{Bytes}
use kontracts.Codec.{Codec}
use kontracts.Executor.Store.{Caller, Host}

-- `mem.get(ptr..).and_then(|arr| arr.get(..size))`
unfoldable pub slice : ℕ → ℕ → Bytes → Option Bytes
slice ptr size mem =
    if leb ptr (length mem)
    then (if leb size (length (drop ptr mem)) then some (take size (drop ptr mem)) else none)
    else none

unfoldable pub read_vec : ℕ → ℕ → Host Bytes
unfolding slice
read_vec ptr size c = elim c.memory [
  | none ↦ (err "Impossible reading wasm memory", c)
  | some mem ↦ elim (slice ptr size mem) [
    | none ↦ (err "Impossible reading wasm memory", c)
    | some w ↦ (ok w, c)
  ]
]

-- `mem[ptr..ptr + new.len()].copy_from_slice(new)`, where it fits.
abbrev pub splice : ℕ → Bytes → Bytes → Bytes
splice ptr new mem = take ptr mem ++ (new ++ drop (ptr + length new) mem)

-- The range `ptr..=ptr + vec.len()` includes its end. Indexing out of range and copying a slice
-- of another length panic.
unfoldable pub write_vec : Codec → Bytes → ℕ → ℕ → Host (Unit {0})
write_vec C vec ptr size c = elim c.memory [
  | none ↦ (err "Impossible write data in wasm memory", c)
  | some mem ↦
      if ltb size (length vec)
      then (err "Impossible write data in wasm memory", c)
      else if ltb (ptr + length vec) (length mem)
      then (if length (C.encode_bytes vec) == length vec + 1
          then (ok tt, record c { memory = some (splice ptr (C.encode_bytes vec) mem) })
          else (panic, c))
      else (panic, c)
]
