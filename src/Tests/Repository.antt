-- ===== src/Tests/Repository.antt =====
-- The pallet's unit tests (kontracs/pallets/kontracts/src/tests.rs), run in the model: the mock
-- runtime's bounds, hashes of 32 bytes, one account, and the tests' kontracts.
use kontracts.Prelude.{
  ◌+◌, ℕ, zero, suc, Bool, true, false, ◌-◌, ◌^◌, ◌≡◌, refl, Option, none, some, List, [], ◌∷◌,
  ◌++◌, length, replicate, ◌==◌, if◌then◌else◌,
}
use kontracts.Prelude.Int.{ℤ, pos, negsuc}
use kontracts.Prelude.Outcome.{Outcome, ok, err}
use kontracts.Bytes.{Bytes, bytes_ord}
use kontracts.BTreeMap
use kontracts.Codec.{Storage}
use kontracts.Executor.Store.{kontracts_set, kontracts_get, kontracts_remove}
use kontracts.Executor.Memory.{slice, read_vec, write_vec}
use kontracts.Executor.Host.{host_call, unwrap_or_empty}
use kontracts.Executor.Guest.{Guest, returned, run}
use kontracts.Executor.Execute.{Engine, wasm_panic, out_of_fuel, out_of_reads, out_of_writes}
use kontracts.Executor.Execute
use kontracts.Executor.Fuel.{metered}
use kontracts.Pallet.Config.{Config}
use kontracts.Pallet.State.{State, DispatchError, module_error, execution_code}
use kontracts.Pallet.Calls.{or_default, execute_code, get_storage_size, settle, keep_storage}
use kontracts.Kontract.{write, read, delete}
use kontracts.Kontract.Programs.{
  main, write_8b, read_test, delete_test, write_and_read_16b, panic_test, empty_execution,
  collatz_conjecture, same_words,
}
use kontracts.Kontract.Collatz.{member}
use kontracts.Kontract.Endless.{loop_forever}
use kontracts.Runtime.Mock.{mock_bounds}
use kontracts.Tests.Scale.{scale}
use kontracts.Tests.Chain.{chain, signed_by}
use kontracts.Tests.Machine.{machine}
use kontracts.Tests.Compiled.{growing, words}

abbrev mock : Config
mock = record chain { bounds = mock_bounds }

-- The key, filled up to the length of a hash.
abbrev hash : Bytes → Bytes
hash key = key ++ replicate (32 - length key) 0

-- A file of wasm_test by a number.
abbrev wasm_test : ℕ → ℕ → Guest (Unit {0})
wasm_test file fuel =
    if file == 1
    then main growing scale words (write_8b growing scale words) []
    else if file == 2
    then main growing scale words (read_test growing scale words) []
    else if file == 3
    then main growing scale words (delete_test growing scale words) []
    else if file == 4
    then main growing scale words (write_and_read_16b growing scale words) []
    else if file == 5
    then main growing scale words (panic_test growing scale words) []
    else if file == 6
    then metered loop_forever fuel loop_forever.start
    else if file == 8
    then main growing scale words (collatz_conjecture growing scale words) []
    else main growing scale words (empty_execution growing scale words) []

abbrev first : Bytes → ℕ
first [] = 0
first (b ∷ _) = b

abbrev wasm : Engine
wasm = record machine {
  Instance = ℕ × ℕ;
  instantiate = λ code fuel. some (returned (first code, fuel));
  main = λ i. some (wasm_test i.0 i.1);
}

-- Account 1 has the balances, and the kontract the storage.
abbrev world : ℕ → ℕ → ℕ → Option Storage → State mock
world file free reserved m = record {
  codes = λ id. if id == file then some (file ∷ []) else none;
  storages = λ id. if id == file then m else none;
  ledger = λ a. if a == 1 then (free, reserved) else (0, 0);
  events = [];
}

abbrev u32_max : ℕ
u32_max = 2 ^ 32 - 1

execute : ℕ → ℤ → ℕ → ℕ → ℕ → State mock → Outcome DispatchError (Unit {0}) × State mock
unfolding execute_code get_storage_size settle keep_storage Execute.execute_code run host_call
    read_vec write_vec slice kontracts_set kontracts_get kontracts_remove BTreeMap.insert
    BTreeMap.get BTreeMap.remove write read delete write_8b read_test delete_test write_and_read_16b
    panic_test empty_execution collatz_conjecture metered loop_forever Execute.error_of_trap
execute file declared fuel reads writes s =
    execute_code mock wasm scale hash (signed_by 1) file declared fuel reads writes s

-- The storage that the tests put under the key of the kontracts.
abbrev storage_of : List ℕ → Storage
storage_of value = (hash (words.encode_vec (1 ∷ 2 ∷ 3 ∷ [])), words.encode_vec value) ∷ []

abbrev free_and_reserved : State mock → ℕ × ℕ
free_and_reserved t = t.ledger 1

execute_empty_kontract : (execute 7 (pos 0) u32_max u32_max u32_max (world 7 0 0 none)).0 ≡ ok tt
unfolding execute
execute_empty_kontract = refl

write_8b_equal_kontract :
    let (r, t) = execute 1 (pos 47) u32_max u32_max u32_max (world 1 47 0 none) in
    (r ≡ ok tt) × (free_and_reserved t ≡ (0, 47))
unfolding execute
write_8b_equal_kontract = (refl, refl)

write_8b_less_kontract :
    let (r, t) = execute 1 (pos 30) u32_max u32_max u32_max (world 1 47 0 none) in
    (r ≡ ok tt) × (free_and_reserved t ≡ (0, 0))
unfolding execute
write_8b_less_kontract = (refl, refl)

write_8b_more_kontract :
    let (r, t) = execute 1 (pos 50) u32_max u32_max u32_max (world 1 50 0 none) in
    (r ≡ ok tt) × (free_and_reserved t ≡ (3, 47))
unfolding execute
write_8b_more_kontract = (refl, refl)

write_8b_negative_kontract :
    let s = world 1 45 55 (some (storage_of (4 ∷ 5 ∷ 6 ∷ 7 ∷ 8 ∷ []))) in
    let (r, t) = execute 1 (negsuc 7) u32_max u32_max u32_max s in
    (r ≡ ok tt) × (free_and_reserved t ≡ (53, 47))
unfolding execute
write_8b_negative_kontract = (refl, refl)

delete_kontract :
    let s = world 3 53 47 (some (storage_of (4 ∷ 5 ∷ 6 ∷ []))) in
    let (r, t) = execute 3 (negsuc 46) u32_max u32_max u32_max s in
    (r ≡ ok tt) × (free_and_reserved t ≡ (100, 0))
unfolding execute
delete_kontract = (refl, refl)

read_kontract :
    let s = world 2 0 0 (some (storage_of (4 ∷ 5 ∷ 6 ∷ []))) in
    (execute 2 (pos 0) u32_max u32_max u32_max s).0 ≡ ok tt
unfolding execute
read_kontract = refl

read_and_multiple_write_ok :
    let (r, t) = execute 4 (pos 94) u32_max u32_max u32_max (world 4 100 0 none) in
    (r ≡ ok tt) × (free_and_reserved t ≡ (6, 94))
unfolding execute
read_and_multiple_write_ok = (refl, refl)

panic_kontract :
    (execute 5 (pos 0) u32_max u32_max u32_max (world 5 0 0 none)).0
    ≡ err (module_error (execution_code wasm_panic))
unfolding execute
panic_kontract = refl

out_of_fuel_kontract :
    (execute 6 (pos 0) 10 u32_max u32_max (world 6 0 0 none)).0
    ≡ err (module_error (execution_code out_of_fuel))
unfolding execute
out_of_fuel_kontract = refl

out_of_reads_kontract :
    (execute 2 (pos 0) u32_max 0 0 (world 2 0 0 none)).0
    ≡ err (module_error (execution_code out_of_reads))
unfolding execute
out_of_reads_kontract = refl

out_of_writes_kontract :
    (execute 1 (pos 0) u32_max 0 0 (world 1 0 0 none)).0
    ≡ err (module_error (execution_code out_of_writes))
unfolding execute
out_of_writes_kontract = refl

-- The bytes under the key of the Collatz kontract.
collatz_bytes : State mock → Bytes
unfolding BTreeMap.get
collatz_bytes s =
    unwrap_or_empty (BTreeMap.get (hash (words.encode_u32 1)) (or_default (s.storages 8)))

-- So many executions, each of which leaves the next member of the sequence from 5.
collatz_agrees : ℕ → ℕ → State mock → Bool
unfolding execute collatz_bytes
collatz_agrees zero n s = true
collatz_agrees (suc k) n s =
    let t = (execute 8 (pos 38) u32_max u32_max u32_max s).1 in
    let rest = collatz_agrees k (n + 1) t in
    if same_words (collatz_bytes t) (words.encode_u32 (member n)) then rest else false

collatz_conjecture_kontract : collatz_agrees 100 0 (world 8 100 0 none) ≡ true
unfolding collatz_agrees
collatz_conjecture_kontract = refl
