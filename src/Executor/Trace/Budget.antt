-- ===== src/Executor/Trace/Budget.antt =====
-- The limits on reads and writes that `execute_code` is given, over whole runs.
use kontracts.Prelude.{◌+◌, ◌^◌, ◌≤◌, ◌<◌, ◌≡◌, refl, ◌∙◌, ap, inl, inr, List, [], ◌∷◌, ◌++◌, arith}
use kontracts.Prelude.Outcome.{ok}
use kontracts.Bytes.{Bytes, bytes_ord}
use kontracts.BTreeMap.{IsSorted}
use kontracts.BTreeMap.Laws.{sorted-ext}
use kontracts.Codec.{Codec}
use kontracts.Executor.Store.{KontractStore, Host-cases}
use kontracts.Executor.Host.{host_call}
use kontracts.Executor.Guest.{Guest, returned, trapped, calls, run}
use kontracts.Executor.Trace.{Op, op_of, View, view, replay, reads, writes, trace}
use kontracts.Executor.Trace.Effect.{Effect, host_call-Effect}
use kontracts.Executor.Trace.Replay.{run_replays}

-- Both counters are within their limits, and neither limit is so high that the counter wraps.
pub record IsMetered (s : KontractStore) : Type 0 where
  pub reads_fit : s.curr_n_read ≤ s.max_n_read
  pub writes_fit : s.curr_n_write ≤ s.max_n_write
  pub read_limit : s.max_n_read + 1 < 2 ^ 32
  pub write_limit : s.max_n_write + 1 < 2 ^ 32

abbrev Spends : List Op → KontractStore → Type 0
Spends ops s =
    (s.curr_n_read + reads ops ≤ s.max_n_read) × (s.curr_n_write + writes ops ≤ s.max_n_write)

module _ (hash : Bytes → Bytes) where
  Effect-IsMetered :
      (o : Op) {s s' : KontractStore} → Effect hash o s s' → IsMetered s → IsMetered s'
  Effect-IsMetered (Op.set k v) e m = ground arith
  Effect-IsMetered (Op.get k) e m = ground arith
  Effect-IsMetered (Op.remove k) e m = ground arith

  Effect-Spends :
      (o : Op) (ops : List Op) {s s' : KontractStore}
      → Effect hash o s s'
      → IsMetered s
      → Spends ops s'
      → Spends (o ∷ ops) s
  Effect-Spends (Op.set k v) ops e m h = ground arith
  Effect-Spends (Op.get k) ops e m h = ground arith
  Effect-Spends (Op.remove k) ops e m h = ground arith

module _ (C : Codec) (hash : Bytes → Bytes) {R : Type 0} where
  -- From a store whose counters are within limits below 2^32 - 1, however a run ends, the reads
  -- and the writes that the host performed are no more than the limits leave.
  pub run_within_limits :
      (g : Guest R) (s : KontractStore)
      → IsMetered s
      → let ops = trace C hash g s in
        (s.curr_n_read + reads ops ≤ s.max_n_read) × (s.curr_n_write + writes ops ≤ s.max_n_write)
  unfolding trace
  run_within_limits (returned r) s m = omega arith
  run_within_limits (trapped t) s m = omega arith
  run_within_limits (calls f mem next) s m =
      elim (Host-cases (host_call C hash f (record { data_mut = s; memory = mem }))) [
        | inl (_, c, e) ↦
            let effect = host_call-Effect C hash f mem s e in
            let rest =
              run_within_limits (next c.memory) c.data_mut
                (Effect-IsMetered hash (op_of f mem) effect m) in
            rw (e, trace)
              (rw e (
                Effect-Spends hash (op_of f mem) (trace C hash (next c.memory) c.data_mut) effect m
                  rest))
        | inr (inl (t, c, e)) ↦ rw (e, trace) (omega arith)
        | inr (inr (c, e)) ↦ rw (e, trace) (omega arith)
      ]

-- The counters count: how a store's stand after the operations of a run that returns.
pub record Counted (ops : List Op) (s s' : KontractStore) : Type 0 where
  pub read : s'.curr_n_read ≡ s.curr_n_read + reads ops
  pub written : s'.curr_n_write ≡ s.curr_n_write + writes ops
  pub max_read : s'.max_n_read ≡ s.max_n_read
  pub max_write : s'.max_n_write ≡ s.max_n_write

Effect-Counted :
    (hash : Bytes → Bytes) (o : Op) (ops : List Op) {s t u : KontractStore}
    → Effect hash o s t
    → IsMetered s
    → Counted ops t u
    → Counted (o ∷ ops) s u
Effect-Counted hash (Op.set k v) ops e m h = ground arith
Effect-Counted hash (Op.get k) ops e m h = ground arith
Effect-Counted hash (Op.remove k) ops e m h = ground arith

module _ (C : Codec) (hash : Bytes → Bytes) {R : Type 0} where
  pub run-Counted :
      (g : Guest R) (s : KontractStore) {r : R}
      → IsMetered s
      → (run C hash g s).0 ≡ ok r
      → Counted (trace C hash g s) s (run C hash g s).1
  unfolding run trace
  run-Counted (returned r) s m h = ground arith
  run-Counted (trapped t) s m h = cc
  run-Counted (calls f mem next) s m h =
      elim (Host-cases (host_call C hash f (record { data_mut = s; memory = mem }))) [
        | inl (_, c, e) ↦
            let effect = host_call-Effect C hash f mem s e in
            let rest =
              run-Counted (next c.memory) c.data_mut (Effect-IsMetered hash (op_of f mem) effect m)
                (rw e at (rw (e, run) at h)) in
            rw (e, run, trace)
              (rw e (
                Effect-Counted hash (op_of f mem) (trace C hash (next c.memory) c.data_mut) effect m
                  rest))
        | inr (inl (t, c, e)) ↦ cc (rw (e, run) at h)
        | inr (inr (c, e)) ↦ cc (rw (e, run) at h)
      ]

module _ (hash : Bytes → Bytes) where
  pub replay_of_reads : (ops : List Op) (w : View) → writes ops ≡ 0 → replay hash ops w ≡ w
  replay_of_reads [] w h = refl
  replay_of_reads (Op.get k ∷ ops) w h = replay_of_reads ops w h
  replay_of_reads (Op.set k v ∷ ops) w h = absurd (omega arith)
  replay_of_reads (Op.remove k ∷ ops) w h = absurd (omega arith)

module _ (C : Codec) (hash : Bytes → Bytes) {R : Type 0} where
  -- From a sorted storage and counters within limits below 2^32 - 1, a run whose limit on writes
  -- is 0 leaves the storage as it was, however it ends.
  pub run_read_only :
      (g : Guest R) (s : KontractStore)
      → IsMetered s
      → IsSorted s.storage
      → s.max_n_write ≡ 0
      → (run C hash g s).1.storage ≡ s.storage
  run_read_only g s m sorted h =
      let limits = run_within_limits C hash g s m in
      let (sorted', replayed) = run_replays C hash g s sorted in
      sorted-ext _ _ sorted' sorted λ k.
        ap (λ (w : View). w k)
          (replayed ∙ replay_of_reads hash (trace C hash g s) (view s.storage) (omega arith))

pub reads-append : (xs ys : List Op) → reads (xs ++ ys) ≡ reads xs + reads ys
reads-append [] ys = omega arith
reads-append (Op.get k ∷ xs) ys = omega (arith, reads-append xs ys)
reads-append (Op.set k v ∷ xs) ys = reads-append xs ys
reads-append (Op.remove k ∷ xs) ys = reads-append xs ys

pub writes-append : (xs ys : List Op) → writes (xs ++ ys) ≡ writes xs + writes ys
writes-append [] ys = omega arith
writes-append (Op.get k ∷ xs) ys = writes-append xs ys
writes-append (Op.set k v ∷ xs) ys = omega (arith, writes-append xs ys)
writes-append (Op.remove k ∷ xs) ys = omega (arith, writes-append xs ys)
