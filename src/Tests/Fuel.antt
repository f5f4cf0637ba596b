-- ===== src/Tests/Fuel.antt =====
-- The theorems on fuel and on executions that succeed, with kontracts that are run step by step.
use kontracts.Prelude.{
  length, ◌≤◌, ℕ, zero, suc, ◌-◌, ◌^◌, ◌≡◌, refl, some, [], ◌∷◌, arith, ◌==◌, if◌then◌else◌,
}
use kontracts.Prelude.Int.{pos}
use kontracts.Prelude.Outcome.{ok, err}
use kontracts.Bytes.{bytes_ord}
use kontracts.BTreeMap
use kontracts.Executor.Trace.{trace}
use kontracts.Executor.Store.{KontractStore, kontracts_set}
use kontracts.Executor.Memory.{slice, read_vec}
use kontracts.Executor.Host.{set, host_call}
use kontracts.Executor.Guest.{returned, run}
use kontracts.Executor.Execute.{Engine, fresh_store, out_of_fuel}
use kontracts.Executor.Execute
use kontracts.Executor.Execute.Completes.{Runs}
use kontracts.Executor.Fuel.{Progress, goes, hosts, ends, Program, metered, Meters}
use kontracts.Executor.Fuel.Limits.{execute_code-metered}
use kontracts.Executor.Execute.Refines.{Executed}
use kontracts.Codec.{Storage}
use kontracts.Kontract.Endless.{loop_forever, loop_forever_runs_out}
use kontracts.Pallet.State.{State, module_error, execution_code, code_executed}
use kontracts.Pallet.Calls.{execute_code}
use kontracts.Pallet.Settlement.{settlement, settled}
use kontracts.Pallet.Settlement.Correct.{execute_code_settles}
use kontracts.Pallet.Liveness.{execute_code_succeeds, execute_code_fuel_enough}
use kontracts.Tests.Scale.{scale, scale-IsScale}
use kontracts.Tests.Chain.{chain, signed_by}
use kontracts.Tests.Machine.{machine, blake2, memory, one_entry, set_code, deployed, setter}

-- An engine that runs every code as the program, under the fuel that it is given.
abbrev running : Program → Engine
running P = record machine {
  Instance = ℕ;
  instantiate = λ _ fuel. some (returned fuel);
  main = λ fuel. some (metered P fuel P.start);
}

running-Meters : (P : Program) → Meters (running P) set_code P
running-Meters P fuel = record {
  creates = refl;
  compiled = set_code;
  compiles = refl;
  fuelled = refl;
  wraps = refl;
  linked = fuel;
  instantiates = refl;
  enters = refl;
}

loop_forever_runs_out_example :
    execute_code chain (running loop_forever) scale blake2 (signed_by 1) 2 (pos 0) 1000 5 5 deployed
    ≡ (err (module_error (execution_code out_of_fuel)), deployed)
loop_forever_runs_out_example =
    loop_forever_runs_out chain (running loop_forever) scale scale-IsScale blake2 (signed_by 1) 2
      (pos 0) 5 5 deployed 1000 (running-Meters loop_forever) refl refl tt (omega arith)

-- Two steps of computation, the call of the host, and the end: four units of fuel.
abbrev step : ℕ → Progress ℕ
step zero = goes 1
step (suc zero) = goes 2
step (suc (suc zero)) = hosts (set 0 1 1 3) (some memory) (λ _. 3)
step (suc (suc (suc _))) = ends

abbrev slow_setter : Program
slow_setter = record { State = ℕ; start = 0; step = step }

abbrev paid : State chain
paid = (settled chain 1 2 one_entry deployed (settlement 0 6 (pos 6))).1

slow_setter_stores :
    Execute.execute_code (running slow_setter) scale blake2 set_code (scale.encode_map []) 4 0 1
    ≡ ok (scale.encode_map one_entry)
unfolding Execute.execute_code run metered host_call read_vec slice kontracts_set BTreeMap.insert
slow_setter_stores = refl

slow_setter_runs :
    execute_code chain (running slow_setter) scale blake2 (signed_by 1) 2 (pos 6) 4 0 1 deployed
    ≡ (ok tt, paid)
slow_setter_runs =
    execute_code_settles chain (running slow_setter) scale scale-IsScale blake2 (signed_by 1) 2
      (pos 6) 4 0 1 deployed one_entry refl refl slow_setter_stores (tt, tt) (omega arith)
      (omega arith)

execute_code_fuel_enough_example :
    execute_code chain (running slow_setter) scale blake2 (signed_by 1) 2 (pos 6) 1000 0 1 deployed
    ≡ (ok tt, paid)
execute_code_fuel_enough_example =
    execute_code_fuel_enough chain (running slow_setter) scale blake2 slow_setter (signed_by 1) 2
      (pos 6) 0 1 deployed 4 1000 (running-Meters slow_setter) refl (omega arith) slow_setter_runs

setter-Runs : Runs machine set_code 9 setter
setter-Runs = record {
  creates = refl;
  compiled = set_code;
  compiles = refl;
  fuelled = refl;
  wraps = refl;
  linked = set_code;
  instantiates = refl;
  enters = refl;
}

abbrev stored : KontractStore
stored = record (fresh_store 5 5 []) { curr_n_write = 1; storage = one_entry }

setter_stores : run scale blake2 setter (fresh_store 5 5 []) ≡ (ok tt, stored)
unfolding run host_call read_vec slice kontracts_set BTreeMap.insert
setter_stores = refl

execute_code_succeeds_example :
    let r = execute_code chain machine scale blake2 (signed_by 1) 2 (pos 9) 9 5 5 deployed in
    (r.0 ≡ ok tt)
    × (r.1.storages ≡ chain.storages.insert deployed.storages 2 one_entry)
    × (r.1.events ≡ code_executed 2 1 ∷ [])
execute_code_succeeds_example =
    execute_code_succeeds chain machine scale scale-IsScale blake2 (signed_by 1) 2 (pos 9) 9 5 5
      deployed refl refl setter-Runs tt (omega arith) (omega arith) setter_stores refl (omega arith)
      (λ _. (λ j. if j == 1 then (994, 56) else deployed.ledger j, refl))

-- With the largest u32 for both limits, as the pallet's tests declare them.
slow_setter_unlimited :
    Execute.execute_code
      (running slow_setter)
      scale
      blake2
      set_code
      (scale.encode_map [])
      4
      (2 ^ 32 - 1)
      (2 ^ 32 - 1)
    ≡ ok (scale.encode_map one_entry)
unfolding Execute.execute_code run metered host_call read_vec slice kontracts_set BTreeMap.insert
slow_setter_unlimited = refl

execute_code-metered_example :
    (m' : Storage) × (scale.encode_map one_entry ≡ scale.encode_map m')
    × Executed blake2
        (trace scale blake2
          (metered slow_setter 4 slow_setter.start)
          (fresh_store (2 ^ 32 - 1) (2 ^ 32 - 1) []))
        []
        m'
        (2 ^ 32 - 1)
        (2 ^ 32 - 1)
    × (length (
          trace scale blake2
            (metered slow_setter 4 slow_setter.start)
            (fresh_store (2 ^ 32 - 1) (2 ^ 32 - 1) []))
        ≤ 4)
execute_code-metered_example =
    execute_code-metered slow_setter (running slow_setter) scale scale-IsScale blake2
      (running-Meters slow_setter) [] 4 (2 ^ 32 - 1) (2 ^ 32 - 1) tt (omega arith) (omega arith)
      slow_setter_unlimited
