-- ===== src/Tests/Machine.antt =====
-- An engine whose modules are bytes, with a few kontracts, and a chain that has registered them.
use kontracts.Prelude.{
  ℕ, ◌≡◌, refl, Option, none, some, [], ◌∷◌, replicate, true, ◌==◌, ◌||◌, if◌then◌else◌,
}
use kontracts.Prelude.Outcome.{ok}
use kontracts.Bytes.{Bytes, bytes_ord}
use kontracts.BTreeMap
use kontracts.Codec.{Storage}
use kontracts.Executor.Store.{kontracts_set, kontracts_remove}
use kontracts.Executor.Memory.{slice, read_vec}
use kontracts.Executor.Host.{set, get, remove, host_call}
use kontracts.Executor.Guest.{Guest, returned, trapped, calls, run}
use kontracts.Executor.Execute.{Engine}
use kontracts.Executor.Execute
use kontracts.Pallet.State.{State}
use kontracts.Tests.Scale.{scale}
use kontracts.Tests.Chain.{chain, Ledger}

-- A key of one byte, a value of three, and room.
abbrev pub memory : Bytes
memory = 7 ∷ 1 ∷ 2 ∷ 3 ∷ replicate 12 0

abbrev pub setter : Guest (Unit {0})
setter = calls (set 0 1 1 3) (some memory) (λ _. returned tt)

abbrev pub getter : Guest (Unit {0})
getter = calls (get 0 1 4 4) (some memory) (λ _. returned tt)

abbrev pub remover : Guest (Unit {0})
remover = calls (remove 0 1) (some memory) (λ _. returned tt)

abbrev pub main : Bytes → Option (Guest (Unit {0}))
main [] = none
main (b ∷ _) =
    if b == 1
    then some setter
    else if b == 2
    then some getter
    else if b == 3
    then some remover
    else if b == 4
    then some (trapped "unreachable")
    else some (returned tt)

abbrev pub compile : Bytes → Option Bytes
compile [] = none
compile (b ∷ bs) = some (b ∷ bs)

abbrev pub machine : Engine
machine = record {
  Module = Bytes;
  Instance = Bytes;
  create = true;
  compile = compile;
  add_fuel = λ _. true;
  func_wrap = true;
  instantiate = λ code _. some (returned code);
  main = main;
}

abbrev pub blake2 : Bytes → Bytes
blake2 key = key

abbrev pub one_entry : Storage
one_entry = (7 ∷ [], 1 ∷ 2 ∷ 3 ∷ []) ∷ []

abbrev pub set_code : Bytes
set_code = 1 ∷ []

abbrev pub get_code : Bytes
get_code = 2 ∷ []

abbrev pub remove_code : Bytes
remove_code = 3 ∷ []

abbrev pub codes : ℕ → Option Bytes
codes id =
    if id == 2
    then some set_code
    else if id == 3
    then some get_code
    else if id == 4
    then some remove_code
    else none

-- The kontracts that read and remove find an entry.
abbrev pub storages : ℕ → Option Storage
storages id = if id == 3 || id == 4 then some one_entry else none

abbrev pub ledger : Ledger
ledger a = if a == 1 then (1000, 50) else (0, 0)

abbrev pub deployed : State chain
deployed = record { codes = codes; storages = storages; ledger = ledger; events = [] }

pub setter_runs :
    Execute.execute_code machine scale blake2 set_code (scale.encode_map []) 9 5 5
    ≡ ok (scale.encode_map one_entry)
unfolding Execute.execute_code run host_call read_vec slice kontracts_set BTreeMap.insert
setter_runs = refl

pub remover_runs :
    Execute.execute_code machine scale blake2 remove_code (scale.encode_map one_entry) 9 5 5
    ≡ ok (scale.encode_map [])
unfolding Execute.execute_code run host_call read_vec slice kontracts_remove BTreeMap.remove
    BTreeMap.insert
remover_runs = refl
