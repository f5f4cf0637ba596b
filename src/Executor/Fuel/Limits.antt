-- ===== src/Executor/Fuel/Limits.antt =====
-- The limits on reads and writes of a metered program. Its fuel is a u32, so that no counter wraps,
-- and they hold for every u32, the largest one included.
use kontracts.Prelude.{ℕ, ◌+◌, ◌^◌, ◌≤◌, ◌<◌, ◌≡◌, subst, inl, inr, List, [], ◌∷◌, length, arith}
use kontracts.Bytes.{Bytes, bytes_ord}
use kontracts.Codec.{Codec, IsScale, Storage, size}
use kontracts.Codec.Size.{decode_map-encode_map_nil}
use kontracts.Prelude.Outcome.{ok, Outcome-cases}
use kontracts.BTreeMap.{IsSorted}
use kontracts.Executor.Trace.Replay.{run_replays}
use kontracts.Executor.Store.{KontractStore, Host-cases}
use kontracts.Executor.Host.{host_call}
use kontracts.Executor.Guest.{Guest, returned, trapped, calls, run}
use kontracts.Executor.Trace.{Op, op_of, reads, writes, trace}
use kontracts.Executor.Trace.Effect.{Effect, host_call-Effect}
use kontracts.Executor.Execute.{Engine, fresh_store, execute_code}
use kontracts.Executor.Execute.Refines.{Executed}
use kontracts.Executor.Fuel.{Program, metered, Meters, length-trace-metered, execute_code-run}

abbrev Within : List Op → KontractStore → Type 0
Within ops s =
    (s.curr_n_read + reads ops ≤ s.max_n_read) × (s.curr_n_write + writes ops ≤ s.max_n_write)

-- The counters are within limits of 32 bits, and so far from 2 ^ 32 that `n` more accesses do not
-- make them wrap.
record Counts (n : ℕ) (s : KontractStore) : Type 0 where
  pub reads_fit : s.curr_n_read ≤ s.max_n_read
  pub writes_fit : s.curr_n_write ≤ s.max_n_write
  pub reads_left : s.curr_n_read + n < 2 ^ 32
  pub writes_left : s.curr_n_write + n < 2 ^ 32

module _ (hash : Bytes → Bytes) where
  Effect-Counts :
      (o : Op) (n : ℕ) {s t : KontractStore} → Effect hash o s t → Counts (n + 1) s → Counts n t
  Effect-Counts (Op.set k v) n e c = ground arith
  Effect-Counts (Op.get k) n e c = ground arith
  Effect-Counts (Op.remove k) n e c = ground arith

  Effect-Within :
      (o : Op) (ops : List Op) (n : ℕ) {s t : KontractStore}
      → Effect hash o s t
      → Counts (n + 1) s
      → Within ops t
      → Within (o ∷ ops) s
  Effect-Within (Op.set k v) ops n e c h = ground arith
  Effect-Within (Op.get k) ops n e c h = ground arith
  Effect-Within (Op.remove k) ops n e c h = ground arith

module _ (C : Codec) (hash : Bytes → Bytes) where
  run-Within :
      (g : Guest (Unit {0})) (s : KontractStore)
      → Counts (length (trace C hash g s)) s
      → Within (trace C hash g s) s
  unfolding trace
  run-Within (returned r) s c = omega arith
  run-Within (trapped t) s c = omega arith
  run-Within (calls f mem next) s c =
      elim (Host-cases (host_call C hash f (record { data_mut = s; memory = mem }))) [
        | inl (_, d, e) ↦
            let effect = host_call-Effect C hash f mem s e in
            let ops = trace C hash (next d.memory) d.data_mut in
            let counted : length (trace C hash (calls f mem next) s) ≡ length ops + 1 =
              rw (e, trace) (rw e (omega arith)) in
            let c' : Counts (length ops + 1) s = subst (λ n. Counts n s) counted c in
            let rest =
              run-Within (next d.memory) d.data_mut
                (Effect-Counts hash (op_of f mem) (length ops) effect c') in
            rw (e, trace) (rw e (Effect-Within hash (op_of f mem) ops (length ops) effect c' rest))
        | inr (inl (t, d, e)) ↦ rw (e, trace) (omega arith)
        | inr (inr (d, e)) ↦ rw (e, trace) (omega arith)
      ]

module _ (P : Program) (C : Codec) (hash : Bytes → Bytes) where
  -- A metered program under a u32 of fuel keeps to its limits, the largest u32 included, and to its
  -- fuel.
  pub metered_within_limits :
      (fuel max_read max_write : ℕ) (m : Storage)
      → fuel < 2 ^ 32
      → let ops = trace C hash (metered P fuel P.start) (fresh_store max_read max_write m) in
        (reads ops ≤ max_read) × (writes ops ≤ max_write) × (length ops ≤ fuel)
  metered_within_limits fuel max_read max_write m h =
      let s = fresh_store max_read max_write m in
      let short = length-trace-metered P C hash fuel P.start s in
      let within = run-Within C hash (metered P fuel P.start) s (omega arith) in
      (omega (arith, within), omega (arith, within), short)

module _ (P : Program) (E : Engine) (C : Codec) (S : IsScale C) (hash : Bytes → Bytes)
    {code : Bytes} (M : Meters E code P) where
  -- Where the engine meters the code as a program and the fuel is a u32, a successful execution
  -- on a sorted encoded storage of less than 2^32 bytes returns the encoding of a sorted storage
  -- that is, as a function from hashed keys, the replay on the given one of the operations that
  -- the host performed in the program's run: at most as many gets as the limit on reads, as many
  -- sets and removes as the limit on writes, whatever these are, the largest u32 included, and
  -- no more operations than the fuel.
  pub execute_code-metered :
      (m : Storage) (fuel max_read max_write : ℕ) {raw : Bytes}
      → IsSorted m
      → size C m < 2 ^ 32
      → fuel < 2 ^ 32
      → execute_code E C hash code (C.encode_map m) fuel max_read max_write ≡ ok raw
      → let ops = trace C hash (metered P fuel P.start) (fresh_store max_read max_write m) in
        (m' : Storage) × (raw ≡ C.encode_map m')
        × Executed hash ops m m' max_read max_write
        × (length ops ≤ fuel)
  execute_code-metered m fuel r w {raw} sorted small h ran =
      let s = fresh_store r w m in
      let body = metered P fuel P.start in
      let same =
        execute_code-run E C hash (M fuel) m (C.encode_map m) [] r w
          (decode_map-encode_map_nil C S m sorted small) in
      let (sorted', replayed) = run_replays C hash body s sorted in
      let (read_limit, write_limit, short) = metered_within_limits P C hash fuel r w m h in
      elim (Outcome-cases (run C hash body s).0) [
        | inl (_, ended) ↦ (
          (run C hash body s).1.storage,
          ground (arith, same),
          record {
            sorted = sorted';
            replayed = replayed;
            read_limit = read_limit;
            write_limit = write_limit;
          },
          short,
        )
        | inr failed ↦ absurd (ground (arith, same))
      ]
