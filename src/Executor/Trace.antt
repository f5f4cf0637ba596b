-- ===== src/Executor/Trace.antt =====
-- The abstract view of an execution: the list of operations that the host performed, replayed on
-- a function from hashed keys to values. Nothing of the order of the map or of the linear memory
-- is left in it.
pub mod Effect
pub mod Replay
pub mod Budget
use kontracts.Prelude.{ℕ, ◌+◌, ◌%◌, ◌^◌, Option, none, some, List, [], ◌∷◌, if◌then◌else◌}
use kontracts.Prelude.Outcome.{Outcome, ok, err, panic}
use kontracts.Bytes.{Bytes, bytes_ord, same}
use kontracts.BTreeMap
use kontracts.Codec.{Codec, Storage}
use kontracts.Executor.Store.{KontractStore}
use kontracts.Executor.Memory.{slice}
use kontracts.Executor.Host.{HostCall, unwrap_or_empty, host_call}
use kontracts.Executor.Guest.{Guest, returned, trapped, calls}

pub data Op : Type 0 where
  set : Bytes → Bytes → Op
  get : Bytes → Op
  remove : Bytes → Op

abbrev bytes_at : ℕ → ℕ → Option Bytes → Bytes
bytes_at ptr size none = []
bytes_at ptr size (some mem) = unwrap_or_empty (slice ptr size mem)

-- What a call that returns has asked for.
abbrev pub op_of : HostCall → Option Bytes → Op
op_of (HostCall.set kp ks vp vs) mem = Op.set (bytes_at kp ks mem) (bytes_at vp vs mem)
op_of (HostCall.get kp ks vp vs) mem = Op.get (bytes_at kp ks mem)
op_of (HostCall.remove kp ks) mem = Op.remove (bytes_at kp ks mem)

abbrev pub reads : List Op → ℕ
reads [] = 0
reads (Op.get k ∷ ops) = reads ops + 1
reads (Op.set k v ∷ ops) = reads ops
reads (Op.remove k ∷ ops) = reads ops

abbrev pub writes : List Op → ℕ
writes [] = 0
writes (Op.get k ∷ ops) = writes ops
writes (Op.set k v ∷ ops) = writes ops + 1
writes (Op.remove k ∷ ops) = writes ops + 1

-- The `u32` counters after one operation.
abbrev pub next_read : Op → ℕ → ℕ
next_read (Op.get k) n = (n + 1) % 2 ^ 32
next_read (Op.set k v) n = n
next_read (Op.remove k) n = n

abbrev pub next_write : Op → ℕ → ℕ
next_write (Op.get k) n = n
next_write (Op.set k v) n = (n + 1) % 2 ^ 32
next_write (Op.remove k) n = (n + 1) % 2 ^ 32

-- What a kontract can learn of its storage.
abbrev pub View : Type 0
View = Bytes → Option Bytes

abbrev pub view : Storage → View
view m j = BTreeMap.get j m

module _ (hash : Bytes → Bytes) where
  abbrev pub apply : Op → View → View
  apply (Op.set k v) w j = if same (hash k) j then some v else w j
  apply (Op.get k) w j = w j
  apply (Op.remove k) w j = if same (hash k) j then none else w j

  abbrev pub replay : List Op → View → View
  replay [] w = w
  replay (o ∷ ops) w = replay ops (apply o w)

  -- The same on the map itself.
  abbrev pub perform : Op → Storage → Storage
  perform (Op.set k v) m = BTreeMap.insert (hash k) v m
  perform (Op.get k) m = m
  perform (Op.remove k) m = BTreeMap.remove (hash k) m

module _ (C : Codec) (hash : Bytes → Bytes) where
  -- The operations of a run, up to the call that ended it.
  unfoldable pub trace : {R : Type 0} → Guest R → KontractStore → List Op
  trace (returned r) s = []
  trace (trapped t) s = []
  trace (calls f mem next) s =
      let (r, c) = host_call C hash f (record { data_mut = s; memory = mem }) in
      elim r [ ok _ ↦ op_of f mem ∷ trace (next c.memory) c.data_mut | err t ↦ [] | panic ↦ [] ]
