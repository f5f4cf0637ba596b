-- ===== src/Executor/Fuel.antt =====
-- Fuel: a kontract's steps as wasmtime meters them, one unit each. The body of `main` under some
-- fuel is a run that traps where the fuel is used up.
pub mod Limits
use kontracts.Prelude.{
  ℕ, zero, suc, ◌≤◌, ◌≡◌, ◌≢◌, refl, inl, inr, Option, none, some, Option-cases, length, arith,
}
use kontracts.Prelude.Outcome.{ok, err, Outcome-cases, map_err, ◌>>◌}
use kontracts.Bytes.{Bytes}
use kontracts.Codec.{Codec, Storage}
use kontracts.Executor.Store.{KontractStore, Trap, Host-cases}
use kontracts.Executor.Host.{HostCall, host_call}
use kontracts.Executor.Guest.{Guest, returned, trapped, calls, run}
use kontracts.Executor.Trace.{trace}
use kontracts.Executor.Execute.{
  Engine, out_of_fuel, fresh_store, error_of_trap, call_main, execute_code,
}
use kontracts.Executor.Execute.Completes.{Runs}

-- A step of a kontract that has not ended: it goes on, calls the host and goes on from the memory
-- that the host leaves, ends, or traps.
pub data Progress (S : Type 0) : Type 0 where
  goes : S → Progress S
  hosts : HostCall → Option Bytes → (Option Bytes → S) → Progress S
  ends : Progress S
  faults : Trap → Progress S

pub record Program : Type 1 where
  pub State : Type 0
  pub start : State
  pub step : State → Progress State

abbrev pub fuel_trap : Trap
fuel_trap = "all fuel consumed by WebAssembly"

-- A step, given what follows the state that it leads to.
abbrev onward : {S : Type 0} → Progress S → (S → Guest (Unit {0})) → Guest (Unit {0})
onward (goes x) rest = rest x
onward (hosts f mem next) rest = calls f mem (λ mem'. rest (next mem'))
onward ends rest = returned tt
onward (faults t) rest = trapped t

module _ (P : Program) where
  unfoldable pub metered : ℕ → P.State → Guest (Unit {0})
  metered zero x = trapped fuel_trap
  metered (suc fuel) x = onward (P.step x) (λ y. metered fuel y)

-- The engine runs the code as the program, under every amount of fuel.
abbrev pub Meters : Engine → Bytes → Program → Type 0
Meters E code P = (fuel : ℕ) → Runs E code fuel (metered P fuel P.start)

module _ (C : Codec) (hash : Bytes → Bytes) where
  -- The first run returns wherever it leads, and the second one then does what it does.
  abbrev Extends : Guest (Unit {0}) → Guest (Unit {0}) → Type 0
  Extends g g' = (s k : KontractStore) → run C hash g s ≡ (ok tt, k) → run C hash g' s ≡ (ok tt, k)

  onward-Extends :
      {S : Type 0} (p : Progress S) (rest rest' : S → Guest (Unit {0}))
      → ((x : S) → Extends (rest x) (rest' x))
      → Extends (onward p rest) (onward p rest')
  unfolding run
  onward-Extends (goes x) rest rest' more s k h = more x s k h
  onward-Extends (hosts f mem next) rest rest' more s k h =
      elim (Host-cases (host_call C hash f (record { data_mut = s; memory = mem }))) [
        | inl (_, c, e) ↦
            rw (e, run) (rw e (more (next c.memory) c.data_mut k (rw e at (rw (e, run) at h))))
        | inr (inl (t, c, e)) ↦ cc (rw (e, run) at h)
        | inr (inr (c, e)) ↦ cc (rw (e, run) at h)
      ]
  onward-Extends ends rest rest' more s k h = h
  onward-Extends (faults t) rest rest' more s k h = h

module _ (P : Program) (C : Codec) (hash : Bytes → Bytes) where
  metered-Extends :
      (fuel fuel' : ℕ) (x : P.State)
      → fuel ≤ fuel'
      → Extends C hash (metered P fuel x) (metered P fuel' x)
  unfolding metered run
  metered-Extends zero fuel' x le s k h = cc
  metered-Extends (suc fuel) zero x le s k h = absurd (omega arith)
  metered-Extends (suc fuel) (suc fuel') x le s k h =
      onward-Extends C hash (P.step x) (λ y. metered P fuel y) (λ y. metered P fuel' y)
        (λ y. metered-Extends fuel fuel' y (omega arith)) s k h

undecodable :
    (E : Engine) (C : Codec) (hash : Bytes → Bytes) (code input : Bytes) (fuel r w : ℕ)
    {raw : Bytes}
    → C.decode_map input ≡ none
    → execute_code E C hash code input fuel r w ≢ ok raw
unfolding execute_code
undecodable E C hash code input fuel r w e h = ground arith

-- An execution of code that the engine takes is the run of its body on the decoded storage.
module _ (E : Engine) (C : Codec) (hash : Bytes → Bytes) {code : Bytes} {fuel : ℕ}
    {body : Guest (Unit {0})} (R : Runs E code fuel body) where
  pub execute_code-run :
      (m : Storage) (input rest : Bytes) (r w : ℕ)
      → C.decode_map input ≡ some (m, rest)
      → execute_code E C hash code input fuel r w ≡ (
          let (end, s) = run C hash body (fresh_store r w m) in
          map_err error_of_trap end >> ok (C.encode_map s.storage))
  unfolding execute_code call_main run
  execute_code-run m input rest r w decoded =
      ground (arith, decoded, R.creates, R.compiles, R.fuelled, R.wraps, R.instantiates, R.enters)

module _ (P : Program) (E : Engine) (C : Codec) (hash : Bytes → Bytes) {code : Bytes}
    (M : Meters E code P) where
  -- What an execution returns under some fuel it returns under more.
  pub execute_code_more_fuel :
      (input : Bytes) (fuel fuel' max_read max_write : ℕ) {raw : Bytes}
      → fuel ≤ fuel'
      → execute_code E C hash code input fuel max_read max_write ≡ ok raw
      → execute_code E C hash code input fuel' max_read max_write ≡ ok raw
  execute_code_more_fuel input fuel fuel' r w {raw} le h =
      elim (Option-cases (C.decode_map input)) [
        | inl e ↦ absurd (undecodable E C hash code input fuel r w e h)
        | inr ((m, rest), e) ↦
            let same = execute_code-run E C hash (M fuel) m input rest r w e in
            let same' = execute_code-run E C hash (M fuel') m input rest r w e in
            let k = (run C hash (metered P fuel P.start) (fresh_store r w m)).1 in
            elim (Outcome-cases (run C hash (metered P fuel P.start) (fresh_store r w m)).0) [
              | inl (_, ended) ↦
                  let ended' =
                    metered-Extends P C hash fuel fuel' P.start le (fresh_store r w m) k
                      (ground arith) in
                  ground (arith, same, same', ended')
              | inr ended ↦ absurd (ground (arith, same))
            ]
      ]

-- Every step leads to another one, with no call of the host.
abbrev pub IsEndless : Program → Type 0
IsEndless P = (x : P.State) → (y : P.State) × (P.step x ≡ goes y)

module _ (P : Program) (C : Codec) (hash : Bytes → Bytes) (endless : IsEndless P) where
  run-endless :
      (fuel : ℕ) (x : P.State) (s : KontractStore)
      → run C hash (metered P fuel x) s ≡ (err fuel_trap, s)
  unfolding run metered
  run-endless zero x s = refl
  run-endless (suc fuel) x s = let (y, e) = endless x in rw e (run-endless fuel y s)

module _ (C : Codec) (hash : Bytes → Bytes) where
  onward-length :
      {S : Type 0} (p : Progress S) (rest : S → Guest (Unit {0})) (n : ℕ)
      → ((x : S) (s : KontractStore) → length (trace C hash (rest x) s) ≤ n)
      → (s : KontractStore) → length (trace C hash (onward p rest) s) ≤ suc n
  unfolding trace
  onward-length (goes x) rest n short s = omega (arith, short x s)
  onward-length (hosts f mem next) rest n short s =
      elim (Host-cases (host_call C hash f (record { data_mut = s; memory = mem }))) [
        | inl (_, c, e) ↦ rw (e, trace) (rw e (omega (arith, short (next c.memory) c.data_mut)))
        | inr (inl (t, c, e)) ↦ rw (e, trace) (omega arith)
        | inr (inr (c, e)) ↦ rw (e, trace) (omega arith)
      ]
  onward-length ends rest n short s = omega arith
  onward-length (faults t) rest n short s = omega arith

module _ (P : Program) (C : Codec) (hash : Bytes → Bytes) where
  -- Under every amount of fuel, the reads and writes that a metered program makes the host
  -- perform are at most as many as the units of fuel.
  pub length-trace-metered :
      (fuel : ℕ) (x : P.State) (s : KontractStore)
      → length (trace C hash (metered P fuel x) s) ≤ fuel
  unfolding trace metered
  length-trace-metered zero x s = omega arith
  length-trace-metered (suc fuel) x s =
      onward-length C hash (P.step x) (λ y. metered P fuel y) fuel
        (λ y. length-trace-metered fuel y) s

module _ (P : Program) (E : Engine) (C : Codec) (hash : Bytes → Bytes) {code : Bytes}
    (M : Meters E code P) (endless : IsEndless P) where
  pub execute_code_endless :
      (m : Storage) (input rest : Bytes) (fuel max_read max_write : ℕ)
      → C.decode_map input ≡ some (m, rest)
      → execute_code E C hash code input fuel max_read max_write ≡ err out_of_fuel
  unfolding error_of_trap
  execute_code_endless m input rest fuel r w e = ground (
    arith,
    execute_code-run E C hash (M fuel) m input rest r w e,
    run-endless P C hash endless fuel P.start (fresh_store r w m),
  )
