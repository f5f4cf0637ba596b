-- ===== src/Tests/Kontracts.antt =====
-- The theorems on the kontract's side, with the growing memory and the format itself.
use kontracts.Prelude.{
  ℕ, ◌≢◌, min, ◌==◌, ◌+◌, ◌≡◌, refl, some, [], ◌∷◌, arith, leb, replicate, if◌then◌else◌,
}
use kontracts.Prelude.Int.{pos, negsuc}
use kontracts.Prelude.Outcome.{ok, err, panic}
use kontracts.Bytes.{Bytes, bytes_ord}
use kontracts.BTreeMap
use kontracts.Codec.{Storage}
use kontracts.Executor.Guest.{Guest, returned, run}
use kontracts.Executor.Execute.{fresh_store}
use kontracts.Executor.Execute.{Engine}
use kontracts.Executor.Execute.Completes.{Runs}
use kontracts.Pallet.State.{State, code_executed}
use kontracts.Pallet.Calls.{execute_code}
use kontracts.Kontract.{write, read}
use kontracts.Kontract.Reads.{run-read_long, read-write}
use kontracts.Kontract.Programs.{main, write_8b}
use kontracts.Kontract.Collatz.{holding_number}
use kontracts.Kontract.Collatz.Executions.{executed, execute_code-collatz_conjecture}
use kontracts.Kontract.Freed.{execute_code-delete_test}
use kontracts.Kontract.Programs.{delete_test, write_and_read_16b, collatz_conjecture}
use kontracts.Kontract.Copied.{copied, execute_code-write_and_read_16b}
use kontracts.Tests.Scale.{scale, scale-IsScale}
use kontracts.Kontract.Deployed.{written, execute_code-write_8b}
use kontracts.Tests.Chain.{chain, chain-IsConfig, signed_by}
use kontracts.Tests.Machine.{machine, blake2, set_code, deployed}
use kontracts.Tests.Compiled.{growing, growing-IsAllocator, words, words-IsWords}

abbrev goes_on : Bytes → Bytes → Guest (Unit {0})
goes_on v h = returned tt

read-write_example :
    (h' : Bytes) × (run scale blake2
        (write growing scale
          (7 ∷ [])
          (1 ∷ 2 ∷ [])
          []
          (λ _ h₁. read growing scale (7 ∷ []) h₁ goes_on))
        (fresh_store 1 1 [])
      ≡ run scale blake2 (goes_on (1 ∷ 2 ∷ []) h') (record (fresh_store 1 1 []) {
        curr_n_read = 0 + 1;
        curr_n_write = 0 + 1;
        storage = BTreeMap.insert (7 ∷ []) (1 ∷ 2 ∷ []) [];
      }))
read-write_example =
    read-write growing growing-IsAllocator scale scale-IsScale blake2 (7 ∷ []) (1 ∷ 2 ∷ []) []
      (fresh_store 1 1 []) goes_on (omega arith) (omega arith) (omega arith) (omega arith)
      (omega arith)

abbrev long_entry : Storage
long_entry = (7 ∷ [], replicate 70 9) ∷ []

run-read_long_example :
    (run scale blake2 (read growing scale (7 ∷ []) [] goes_on) (fresh_store 1 0 long_entry)).0
    ≡ (if leb 70 100 then panic else err "Impossible write data in wasm memory")
unfolding BTreeMap.get
run-read_long_example =
    run-read_long growing growing-IsAllocator scale scale-IsScale blake2 (7 ∷ []) []
      (fresh_store 1 0 long_entry) goes_on (omega arith) (omega arith) (omega arith)

abbrev key_123 : Bytes
key_123 = words.encode_vec (1 ∷ 2 ∷ 3 ∷ [])

abbrev value_456 : Bytes
value_456 = words.encode_vec (4 ∷ 5 ∷ 6 ∷ [])

abbrev writing : Guest (Unit {0})
writing = main growing scale words (write_8b growing scale words) []

-- Every code is the writing kontract.
abbrev writer : Engine
writer = record machine { main = λ _. some writing }

writer-Runs : Runs writer set_code 9 writing
writer-Runs = record {
  creates = refl;
  compiled = set_code;
  compiles = refl;
  fuelled = refl;
  wraps = refl;
  linked = set_code;
  instantiates = refl;
  enters = refl;
}

-- The entry takes 28 bytes of the caller's free balance.
execute_code-write_8b_example :
    execute_code chain writer scale blake2 (signed_by 1) 2 (pos 28) 9 0 1 deployed ≡ (
      ok tt,
      record deployed {
        ledger = λ j. if j == 1 then (972, 78) else deployed.ledger j;
        storages = chain.storages.insert deployed.storages 2 (written blake2 words);
        events = code_executed 2 1 ∷ [];
      },
    )
execute_code-write_8b_example =
    execute_code-write_8b growing growing-IsAllocator scale scale-IsScale blake2 words words-IsWords
      [] writer writer-Runs chain (signed_by 1) 2 (pos 28) deployed refl refl refl (omega arith)
      refl (omega arith) refl

abbrev copying : Guest (Unit {0})
copying = main growing scale words (write_and_read_16b growing scale words) []

abbrev copier : Engine
copier = record machine { main = λ _. some copying }

copier-Runs : Runs copier set_code 9 copying
copier-Runs = record {
  creates = refl;
  compiled = set_code;
  compiles = refl;
  fuelled = refl;
  wraps = refl;
  linked = set_code;
  instantiates = refl;
  enters = refl;
}

-- Two entries of 28 bytes.
execute_code-write_and_read_16b_example :
    execute_code chain copier scale blake2 (signed_by 1) 2 (pos 60) 9 1 2 deployed ≡ (
      ok tt,
      record deployed {
        ledger = λ j. if j == 1 then (944, 106) else deployed.ledger j;
        storages = chain.storages.insert deployed.storages 2 (copied blake2 words);
        events = code_executed 2 1 ∷ [];
      },
    )
unfolding BTreeMap.insert
execute_code-write_and_read_16b_example =
    execute_code-write_and_read_16b growing growing-IsAllocator scale scale-IsScale blake2 words
      words-IsWords [] copier copier-Runs chain (signed_by 1) 2 (pos 60) deployed refl refl refl
      (omega arith) refl (omega arith) refl

abbrev collatz : Guest (Unit {0})
collatz = main growing scale words (collatz_conjecture growing scale words) []

abbrev collatz_engine : Engine
collatz_engine = record machine { main = λ _. some collatz }

collatz-Runs : Runs collatz_engine set_code 9 collatz
collatz-Runs = record {
  creates = refl;
  compiled = set_code;
  compiles = refl;
  fuelled = refl;
  wraps = refl;
  linked = set_code;
  instantiates = refl;
  enters = refl;
}

-- After four executions, the fifth one stores a 1; an entry takes 10 bytes.
execute_code-collatz_conjecture_example :
    let t = executed chain collatz_engine scale blake2 (signed_by 1) 2 (pos 10) 9 4 deployed in
    let (result, after) =
      execute_code chain collatz_engine scale blake2 (signed_by 1) 2 (pos 10) 9 1 1 t in
    (result ≡ ok tt)
    × (after.storages 2
        ≡ some (
            holding_number growing growing-IsAllocator scale scale-IsScale blake2 words
              words-IsWords [] 1))
    × (after.ledger ≡ (λ j. if j == 1 then (990, 60) else deployed.ledger j))
execute_code-collatz_conjecture_example =
    execute_code-collatz_conjecture growing growing-IsAllocator scale scale-IsScale blake2 words
      words-IsWords [] chain chain-IsConfig collatz_engine collatz-Runs (signed_by 1) 2 (pos 10)
      refl deployed 4 refl refl (omega arith) refl (omega arith) refl

abbrev erasing : Guest (Unit {0})
erasing = main growing scale words (delete_test growing scale words) []

abbrev eraser : Engine
eraser = record machine { main = λ _. some erasing }

eraser-Runs : Runs eraser set_code 9 erasing
eraser-Runs = record {
  creates = refl;
  compiled = set_code;
  compiles = refl;
  fuelled = refl;
  wraps = refl;
  linked = set_code;
  instantiates = refl;
  enters = refl;
}

-- The kontract 2 holds the entry of 28 bytes, and account 1 has reserved 50.
abbrev holding : State chain
holding = record deployed {
  storages = chain.storages.insert deployed.storages 2 (written blake2 words);
}

execute_code-delete_test_example :
    let result = execute_code chain eraser scale blake2 (signed_by 1) 2 (negsuc 27) 9 0 1 holding in
    (result.0 ≡ ok tt)
    × (result.1.storages ≡ chain.storages.insert holding.storages 2 [])
    × ((result.1.ledger 1).0 ≡ 1000 + min 28 50)
    × ((a : ℕ) → 1 ≢ a → (result.1.ledger a).1 ≡ (holding.ledger a).1)
execute_code-delete_test_example =
    execute_code-delete_test growing growing-IsAllocator scale scale-IsScale blake2 words
      words-IsWords [] eraser eraser-Runs chain chain-IsConfig (signed_by 1) 2 (negsuc 27) holding
      refl refl refl (omega arith) (omega arith)
