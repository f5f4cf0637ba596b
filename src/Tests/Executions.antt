-- ===== src/Tests/Executions.antt =====
-- The theorems on the executor, on small kontracts.
use kontracts.Prelude.{◌+◌, ◌≤◌, ◌≡◌, refl, some, [], ◌∷◌, ◌++◌, arith, length}
use kontracts.Prelude.Outcome.{ok}
use kontracts.Bytes.{Bytes, bytes_ord}
use kontracts.BTreeMap
use kontracts.BTreeMap.{IsSorted}
use kontracts.Codec.{Storage}
use kontracts.Executor.Memory.{slice}
use kontracts.Executor.Host.{get, host_call}
use kontracts.Executor.Host.Get.{get_delivers, get_overruns}
use kontracts.Executor.Guest.{run}
use kontracts.Executor.Execute.{fresh_store}
use kontracts.Executor.Execute.Refines.{Executed, performed, execute_code_refines}
use kontracts.Executor.Trace.{view, replay, reads, writes, trace}
use kontracts.Executor.Trace.Replay.{run_replays}
use kontracts.Executor.Trace.Budget.{run_within_limits}
use kontracts.Tests.Scale.{scale, scale-IsScale}
use kontracts.Tests.Machine.{machine, blake2, memory, one_entry, set_code, setter, setter_runs}

execute_code_refines_example :
    (m' : Storage) × (scale.encode_map one_entry ≡ scale.encode_map m')
    × Executed blake2 (performed machine scale blake2 set_code [] 9 5 5) [] m' 5 5
execute_code_refines_example =
    execute_code_refines machine scale blake2 scale-IsScale set_code [] 9 5 5 tt (omega arith, tt)
      (omega arith) (omega arith) setter_runs

run_replays_example :
    let (_, s) = run scale blake2 setter (fresh_store 5 5 []) in
    IsSorted s.storage
    × (view s.storage ≡ replay blake2 (trace scale blake2 setter (fresh_store 5 5 [])) (view []))
run_replays_example = run_replays scale blake2 setter (fresh_store 5 5 []) tt

run_within_limits_example :
    let ops = trace scale blake2 setter (fresh_store 5 1 []) in
    (0 + reads ops ≤ 5) × (0 + writes ops ≤ 1)
run_within_limits_example = run_within_limits scale blake2 setter (fresh_store 5 1 []) (omega arith)

-- The value has three bytes, and the buffer four.
get_delivers_example :
    (mem' : Bytes) × (host_call scale blake2
        (get 0 1 4 4)
        (record { data_mut = fresh_store 5 0 one_entry; memory = some memory })
      ≡ (
        ok tt,
        record {
          data_mut = record (fresh_store 5 0 one_entry) { curr_n_read = 0 + 1 };
          memory = some mem';
        },
      ))
    × (length mem' ≡ length memory)
    × (slice 4 (3 + 1) mem' ≡ some (scale.encode_bytes (1 ∷ 2 ∷ 3 ∷ [])))
    × (scale.decode_bytes (scale.encode_bytes (1 ∷ 2 ∷ 3 ∷ [])) ≡ some (1 ∷ 2 ∷ 3 ∷ [], []))
unfolding BTreeMap.get slice
get_delivers_example =
    get_delivers scale scale-IsScale blake2 0 1 4 4 (fresh_store 5 0 one_entry) memory (7 ∷ []) refl
      (omega arith) (omega arith) (omega arith) (omega arith) (omega arith)

-- A buffer of three bytes is overrun by one.
get_overruns_example :
    (mem' : Bytes) × (host_call scale blake2
        (get 0 1 4 3)
        (record { data_mut = fresh_store 5 0 one_entry; memory = some memory })
      ≡ (
        ok tt,
        record {
          data_mut = record (fresh_store 5 0 one_entry) { curr_n_read = 0 + 1 };
          memory = some mem';
        },
      ))
    × (slice 4 (3 + 1) mem' ≡ some (scale.compact 3 ++ (1 ∷ 2 ∷ 3 ∷ [])))
unfolding BTreeMap.get slice
get_overruns_example =
    get_overruns scale scale-IsScale blake2 0 1 4 3 (fresh_store 5 0 one_entry) memory (7 ∷ []) refl
      (omega arith) (omega arith) (omega arith) (omega arith) (omega arith)
