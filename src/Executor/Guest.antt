-- ===== src/Executor/Guest.antt =====
-- A kontract as wasmtime runs it under metered fuel: its computation between two calls of the
-- host is not seen, so it is the tree of the calls that it makes. Fuel makes every run finite.
use kontracts.Prelude.{Option}
use kontracts.Prelude.Outcome.{Outcome, ok, err, panic}
use kontracts.Bytes.{Bytes}
use kontracts.Codec.{Codec}
use kontracts.Executor.Store.{KontractStore, Trap}
use kontracts.Executor.Host.{HostCall, host_call}

-- At a call: its arguments, the exported memory, and how the guest goes on from the memory that
-- the host leaves.
pub data Guest (R : Type 0) : Type 0 where
  returned : R → Guest R
  trapped : Trap → Guest R
  calls : HostCall → Option Bytes → (Option Bytes → Guest R) → Guest R

module _ (C : Codec) (hash : Bytes → Bytes) where
  -- A trap or a panic of the host ends the run.
  unfoldable pub run : {R : Type 0} → Guest R → KontractStore → Outcome Trap R × KontractStore
  run (returned r) s = (ok r, s)
  run (trapped t) s = (err t, s)
  run (calls f mem next) s =
      let (r, c) = host_call C hash f (record { data_mut = s; memory = mem }) in
      elim r [
        | ok _ ↦ run (next c.memory) c.data_mut
        | err t ↦ (err t, c.data_mut)
        | panic ↦ (panic, c.data_mut)
      ]
