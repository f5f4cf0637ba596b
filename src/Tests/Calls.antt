-- ===== src/Tests/Calls.antt =====
-- The theorems on the pallet's calls, on the small chain.
use kontracts.Prelude.{◌+◌, ◌-◌, ◌^◌, ◌<◌, ◌≡◌, refl, [], ◌∷◌, arith}
use kontracts.Prelude.Int.{ℤ, pos, negsuc}
use kontracts.Prelude.Outcome.{Outcome, ok, err}
use kontracts.Bytes.{bytes_ord}
use kontracts.Codec.{Storage, size}
use kontracts.Executor.Execute.Refines.{Executed, performed}
use kontracts.Pallet.State.{State, DispatchError, module_error, invalid_code_id}
use kontracts.Pallet.Calls.{upload_code, execute_code}
use kontracts.Pallet.Settlement.{settlement, settled}
use kontracts.Pallet.Settlement.Correct.{execute_code_settles}
use kontracts.Pallet.Money.Deposits.{execute_code_deposit_tracks_size, execute_code_short_release}
use kontracts.Pallet.Atomic.{execute_code_atomic}
use kontracts.Pallet.Reach.{Reach, IsValid, here, next, uploaded, executed}
use kontracts.Pallet.Execution.{execute_code_run}
use kontracts.Tests.Scale.{scale, scale-IsScale}
use kontracts.Tests.Chain.{chain, chain-IsConfig, signed_by}
use kontracts.Tests.Machine.{
  set_code, machine, blake2, one_entry, deployed, setter_runs, remover_runs,
}

abbrev run_setter : ℤ → Outcome DispatchError (Unit {0}) × State chain
run_setter declared =
    execute_code chain machine scale blake2 (signed_by 1) 2 declared 9 5 5 deployed

abbrev run_remover : ℤ → Outcome DispatchError (Unit {0}) × State chain
run_remover declared =
    execute_code chain machine scale blake2 (signed_by 1) 4 declared 9 5 5 deployed

-- The entry takes six bytes.
execute_code_settles_example :
    run_setter (pos 6) ≡ settled chain 1 2 one_entry deployed (settlement 0 6 (pos 6))
execute_code_settles_example =
    execute_code_settles chain machine scale scale-IsScale blake2 (signed_by 1) 2 (pos 6) 9 5 5
      deployed one_entry refl refl setter_runs (tt, tt) (omega arith) (omega arith)

execute_code_run_example :
    (m' : Storage) × Executed blake2 (performed machine scale blake2 set_code [] 9 5 5) [] m' 5 5
    × (run_setter (pos 6)
        ≡ settled chain 1 2 m' deployed (settlement (size scale []) (size scale m') (pos 6)))
execute_code_run_example =
    execute_code_run chain machine scale scale-IsScale blake2 (signed_by 1) 2 (pos 6) 9 5 deployed
      refl refl tt (omega arith) (omega arith) 5 (omega arith) (omega arith) setter_runs

-- The call that declares the six bytes succeeds, and reserves them.
setter_settled :
    run_setter (pos 6) ≡ (ok tt, (settled chain 1 2 one_entry deployed (settlement 0 6 (pos 6))).1)
setter_settled = execute_code_settles_example

execute_code_deposit_tracks_size_example :
    let t = (settled chain 1 2 one_entry deployed (settlement 0 6 (pos 6))).1 in
    ((t.ledger 1).1 + 0 ≡ 50 + 6) × ((t.ledger 1).0 + 6 ≡ 1000 + 0)
execute_code_deposit_tracks_size_example =
    execute_code_deposit_tracks_size chain chain-IsConfig machine scale scale-IsScale blake2
      (signed_by 1) 2 (pos 6) 9 5 5 deployed one_entry refl refl setter_runs (tt, tt) (omega arith)
      (omega arith) (omega arith) (omega arith) setter_settled

execute_code_short_release_example :
    let result = run_remover (negsuc 9) in
    (result.0 ≡ ok tt)
    × (result.1.storages ≡ deployed.storages)
    × (result.1.ledger ≡ chain.currency.slash deployed.ledger 1 (2 ^ 32 - (6 - 0)))
    × (2 ^ 31 < 2 ^ 32 - (6 - 0))
execute_code_short_release_example =
    execute_code_short_release chain chain-IsConfig machine scale scale-IsScale blake2 (signed_by 1)
      4 (negsuc 9) 9 5 5 deployed [] refl refl remover_runs tt (omega arith) (omega arith)
      (omega arith) (omega arith)

-- No kontract has the id 8.
unknown_refused :
    (execute_code chain machine scale blake2 (signed_by 1) 8 (pos 5) 9 5 5 deployed).0
    ≡ err (module_error invalid_code_id)
unfolding execute_code
unknown_refused = refl

execute_code_atomic_example :
    (execute_code chain machine scale blake2 (signed_by 1) 8 (pos 5) 9 5 5 deployed).1 ≡ deployed
execute_code_atomic_example =
    execute_code_atomic chain machine scale blake2 (signed_by 1) 8 (pos 5) 9 5 5 deployed
      unknown_refused (ground arith)

pub deployed-IsValid : IsValid chain deployed
deployed-IsValid = record {
  addressed = λ j code h. ground arith;
  sorted = λ j m h. let e : one_entry ≡ m = ground arith in rw (← e) (tt, tt);
  bounded = λ j m h. ground arith;
}

-- An upload, and an execution that reserves.
pub two_calls :
    Reach chain machine scale blake2 deployed
      (settled chain 1 2 one_entry
        (upload_code chain (signed_by 1) (5 ∷ []) deployed).1
        (settlement 0 6 (pos 6))).1
unfolding upload_code
two_calls = next (next here (uploaded (signed_by 1) (5 ∷ []) refl)) (
    executed (signed_by 1) 2 (pos 6) 9 5 5 (
      execute_code_settles chain machine scale scale-IsScale blake2 (signed_by 1) 2 (pos 6) 9 5 5
        (upload_code chain (signed_by 1) (5 ∷ []) deployed).1 one_entry refl refl setter_runs
        (tt, tt) (omega arith) (omega arith)))
