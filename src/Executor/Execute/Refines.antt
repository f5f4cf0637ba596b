-- ===== src/Executor/Execute/Refines.antt =====
-- What `execute_code` promises to the pallet: a successful execution of a kontract returns the
-- encoding of the storage that its operations lead to, and they kept to the limits.
use mathlib.Core.List.{append-nil}
use kontracts.Prelude.{
  ℕ, ◌+◌, ◌^◌, ◌≤◌, ◌<◌, ◌≡◌, refl, sym, ◌∙◌, ap, subst, inl, inr, Option, none, some, Option-cases,
  List, [], ◌++◌, arith,
}
use kontracts.Prelude.Outcome.{Outcome, ok, err, panic, Outcome-cases}
use kontracts.Bytes.{Bytes, bytes_ord}
use kontracts.BTreeMap.{IsSorted}
use kontracts.BTreeMap.Laws.{sorted-ext}
use kontracts.Codec.{Codec, IsScale, Storage, Fits}
use kontracts.Executor.Store.{KontractStore, Trap}
use kontracts.Executor.Guest.{Guest, run}
use kontracts.Executor.Trace.{Op, View, view, replay, reads, writes, trace}
use kontracts.Executor.Trace.Replay.{run_replays, replay-append}
use kontracts.Executor.Trace.Budget.{
  IsMetered, run-Counted, run_within_limits, reads-append, writes-append, replay_of_reads,
}
use kontracts.Executor.Execute.{Engine, fresh_store, call_main, execute_code}

-- The operations `ops` lead from the storage `m` to the storage `m'`, and are within the limits.
pub record Executed (hash : Bytes → Bytes) (ops : List Op) (m m' : Storage) (max_read max_write : ℕ)
    : Type 0 where
  pub sorted : IsSorted m'
  pub replayed : view m' ≡ replay hash ops (view m)
  pub read_limit : reads ops ≤ max_read
  pub write_limit : writes ops ≤ max_write

-- The operations that the host performs in an execution on a storage: in the start function, and
-- then in `main`, which goes on with the store that the start function leaves.
module _ (E : Engine) (C : Codec) (hash : Bytes → Bytes) where
  abbrev main_performed : Outcome Trap E.Instance → KontractStore → List Op
  main_performed (ok linked) s = elim (E.main linked) [
    | none ↦ []
    | some body ↦ trace C hash body s
  ]
  main_performed (err t) s = []
  main_performed panic s = []

  abbrev instance_performed : Option (Guest E.Instance) → KontractStore → List Op
  instance_performed none s = []
  instance_performed (some start) s =
      let (linked, s') = run C hash start s in trace C hash start s ++ main_performed linked s'

  abbrev pub performed : Bytes → Storage → ℕ → ℕ → ℕ → List Op
  performed code m fuel max_read max_write = elim (E.compile code) [
    | none ↦ []
    | some compiled ↦
        instance_performed (E.instantiate compiled fuel) (fresh_store max_read max_write m)
  ]

module _ (C : Codec) (hash : Bytes → Bytes) where
  -- The start function and `main` run one after the other on one store.
  two_runs-Executed :
      {R : Type 0} (start : Guest R) (body : Guest (Unit {0})) (s : KontractStore) {r : R}
      → IsSorted s.storage
      → IsMetered s
      → s.curr_n_read ≡ 0
      → s.curr_n_write ≡ 0
      → (run C hash start s).0 ≡ ok r
      → (run C hash body (run C hash start s).1).0 ≡ ok tt
      → Executed hash
          (trace C hash start s ++ trace C hash body (run C hash start s).1)
          s.storage
          (run C hash body (run C hash start s).1).1.storage
          s.max_n_read
          s.max_n_write
  two_runs-Executed start body s sorted m zr zw e₁ e₂ =
      let s₁ = (run C hash start s).1 in
      let ops₁ = trace C hash start s in
      let ops₂ = trace C hash body s₁ in
      let (sorted₁, view₁) = run_replays C hash start s sorted in
      let (sorted₂, view₂) = run_replays C hash body s₁ sorted₁ in
      let counted = run-Counted C hash start s m e₁ in
      let limits₁ = run_within_limits C hash start s m in
      let metered : IsMetered s₁ = omega arith in
      let limits₂ = run_within_limits C hash body s₁ metered in
      record {
        sorted = sorted₂;
        replayed =
            view₂
            ∙ ap (replay hash ops₂) view₁
            ∙ sym (replay-append hash ops₁ ops₂ (view s.storage));
        read_limit = omega (arith, reads-append ops₁ ops₂);
        write_limit = omega (arith, writes-append ops₁ ops₂);
      }

module _ (E : Engine) (C : Codec) (hash : Bytes → Bytes) where
  call_main-ok :
      (compiled : E.Module) (fuel : ℕ) (s : KontractStore) {raw : Bytes}
      → IsSorted s.storage
      → IsMetered s
      → s.curr_n_read ≡ 0
      → s.curr_n_write ≡ 0
      → call_main E C hash compiled fuel s ≡ ok raw
      → (m' : Storage) × (raw ≡ C.encode_map m')
        × Executed hash
            (instance_performed E C hash (E.instantiate compiled fuel) s)
            s.storage
            m'
            s.max_n_read
            s.max_n_write
  unfolding call_main
  call_main-ok compiled fuel s sorted m zr zw h =
      elim (Option-cases (E.instantiate compiled fuel)) [
        | inl e ↦ absurd (ground arith)
        | inr (start, e) ↦ elim (Outcome-cases (run C hash start s).0) [
          | inl (linked, e₁) ↦ elim (Option-cases (E.main linked)) [
            | inl e₂ ↦ absurd (ground arith)
            | inr (body, e₂) ↦
                let s₁ = (run C hash start s).1 in
                elim (Outcome-cases (run C hash body s₁).0) [
                  | inl (_, e₃) ↦ (
                    (run C hash body s₁).1.storage,
                    ground arith,
                    rw (e, e₁, e₂, main_performed, instance_performed)
                        (two_runs-Executed C hash start body s sorted m zr zw e₁ e₃),
                  )
                  | inr not_ok ↦ absurd (ground arith)
                ]
          ]
          | inr not_ok ↦ absurd (ground arith)
        ]
      ]

  -- A successful execution of a code on a sorted encoded storage, with limits below 2^32 - 1,
  -- returns the encoding of a sorted storage that is, as a function from hashed keys, the replay
  -- on the given one of the operations that the host performed in that execution, those of the
  -- start function first; the gets among them are at most the limit on reads, the sets and
  -- removes at most the limit on writes.
  pub execute_code_refines :
      (S : IsScale C) (code : Bytes) (m : Storage) (fuel max_read max_write : ℕ) {raw : Bytes}
      → IsSorted m
      → Fits m
      → max_read + 1 < 2 ^ 32
      → max_write + 1 < 2 ^ 32
      → execute_code E C hash code (C.encode_map m) fuel max_read max_write ≡ ok raw
      → (m' : Storage) × (raw ≡ C.encode_map m')
        × Executed hash (performed E C hash code m fuel max_read max_write) m m' max_read max_write
  unfolding execute_code
  execute_code_refines S code m fuel max_read max_write sorted fits hr hw h =
      elim (Option-cases (E.compile code)) [
        | inl e ↦ absurd (ground arith)
        | inr (compiled, e) ↦
            let decoded : C.decode_map (C.encode_map m) ≡ some (m, []) =
              subst (λ b. C.decode_map b ≡ some (m, [])) (append-nil (C.encode_map m))
                (S.decode_map-encode_map m [] sorted fits) in
            rw (e, performed)
              (call_main-ok compiled fuel (fresh_store max_read max_write m) sorted (omega arith)
                refl refl (ground arith))
      ]

  -- An execution that may not write returns the storage that it was given.
  pub execute_code_read_only :
      (S : IsScale C) (code : Bytes) (m : Storage) (fuel max_read : ℕ) {raw : Bytes}
      → IsSorted m
      → Fits m
      → max_read + 1 < 2 ^ 32
      → execute_code E C hash code (C.encode_map m) fuel max_read 0 ≡ ok raw
      → raw ≡ C.encode_map m
  execute_code_read_only S code m fuel max_read sorted fits hr h =
      let (m', encoded, done) =
        execute_code_refines S code m fuel max_read 0 sorted fits hr (omega arith) h in
      let same_view =
        done.replayed
        ∙ replay_of_reads hash (performed E C hash code m fuel max_read 0) (view m)
            (omega (arith, done.write_limit)) in
      encoded
      ∙ ap C.encode_map (sorted-ext m' m done.sorted sorted (λ k. ap (λ (w : View). w k) same_view))
