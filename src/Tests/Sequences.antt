-- ===== src/Tests/Sequences.antt =====
-- The theorems on sequences of extrinsics, on the small chain.
use native.Mathlib.Decide.{ℕ_discrete}
use kontracts.Prelude.{
  ℕ, ◌+◌, ◌-◌, ◌^◌, ◌≤◌, ◌≡◌, ◌≢◌, refl, inl, none, some, List, [], ◌∷◌, arith, min, length, ◌<◌,
}
use kontracts.Prelude.Int.{pos}
use kontracts.Prelude.Outcome.{ok, err}
use kontracts.Bytes.{Bytes, bytes_ord}
use kontracts.Executor.Execute
use kontracts.Executor.Execute.Refines.{Executed}
use kontracts.Runtime.Storages.{stored}
use kontracts.Runtime.Storages.History.{kept_ops, dispatch_all-Executed}
use kontracts.Pallet.State.{Event, State, module_error, invalid_code_id}
use kontracts.Pallet.Calls
use kontracts.Pallet.Calls.{execute_code}
use kontracts.Pallet.Settlement.{settlement, settled}
use kontracts.Pallet.Settlement.Correct.{execute_code_settles}
use kontracts.Pallet.Reach.{IsValid}
use kontracts.Pallet.Backing.{Backed}
use kontracts.Pallet.Money.Release.{execute_code_release}
use kontracts.Pallet.Dispatch.{KontractsCall, Extrinsic, call, dispatch_all}
use kontracts.Pallet.Dispatch.Sequences.{
  dispatch_all-IsValid, dispatch_all-isolated, dispatch_all_others,
}
use kontracts.Pallet.Dispatch.Register.{dispatch_all-registered}
use kontracts.Pallet.Dispatch.Log.{Tells}
use kontracts.Pallet.Dispatch.Log.Indexer.{dispatch_all-Tells}
use kontracts.Pallet.Dispatch.Raised.{IsRaised, call-IsRaised}
use kontracts.Runtime.Deposits.{executed, PaidReach, paid_here, paid_next, PaidReach-Backed}
use kontracts.Tests.Scale.{scale, scale-IsScale}
use kontracts.Tests.Chain.{chain, chain-IsConfig, signed_by, root}
use kontracts.Tests.Machine.{
  machine, blake2, one_entry, set_code, deployed, setter_runs, remover_runs,
}
use kontracts.Tests.Calls.{deployed-IsValid}

-- An upload, an execution that reserves, one of an unknown code, and an update that root signs.
abbrev extrinsics : List (Extrinsic chain)
extrinsics =
    (signed_by 1, KontractsCall.upload_code (5 ∷ []))
    ∷ (signed_by 1, KontractsCall.execute_code 2 (pos 6) 9 5 5)
    ∷ (signed_by 1, KontractsCall.execute_code 8 (pos 6) 9 5 5)
    ∷ (root, KontractsCall.update_code 6 (7 ∷ []))
    ∷ []

abbrev final : State chain
final = dispatch_all chain machine scale blake2 extrinsics deployed

dispatch_all-IsValid_example : IsValid chain final
dispatch_all-IsValid_example =
    dispatch_all-IsValid chain machine scale blake2 chain-IsConfig scale-IsScale extrinsics deployed
      deployed-IsValid

dispatch_all-isolated_example : final.storages 3 ≡ some one_entry
dispatch_all-isolated_example =
    dispatch_all-isolated chain chain-IsConfig machine scale blake2 extrinsics deployed 3
      (tt, ((omega arith), ((omega arith), (tt, tt))))

dispatch_all_others_example :
    ((final.ledger 2).0 ≡ (deployed.ledger 2).0) × ((final.ledger 2).1 ≡ (deployed.ledger 2).1)
dispatch_all_others_example =
    dispatch_all_others chain chain-IsConfig machine scale blake2 extrinsics deployed 2
      (ground arith, (ground arith, (ground arith, (ground arith, tt))))

-- The code uploaded under 6 is replaced by the one under 8.
dispatch_all-registered_example : final.codes 6 ≡ none
unfolding ℕ_discrete
dispatch_all-registered_example =
    dispatch_all-registered chain chain-IsConfig machine scale blake2 extrinsics deployed 6

unknown_code :
    (call chain machine scale blake2
      (signed_by 1, KontractsCall.execute_code 8 (pos 6) 9 5 5)
      deployed).0
    ≡ err (module_error invalid_code_id)
unfolding call Calls.execute_code
unknown_code = refl

call-IsRaised_example : IsRaised (module_error invalid_code_id)
call-IsRaised_example =
    call-IsRaised chain machine scale blake2
      (signed_by 1, KontractsCall.execute_code 8 (pos 6) 9 5 5) deployed unknown_code

-- Account 2 has reserved nothing: it frees six bytes and gets nothing back.
execute_code_release_example :
    let result = execute_code chain machine scale blake2 (signed_by 2) 4 (pos 0) 9 5 5 deployed in
    (result.0 ≡ ok tt)
    × (result.1.storages ≡ chain.storages.insert deployed.storages 4 [])
    × ((result.1.ledger 2).0 ≡ 0 + min (6 - 0) 0)
    × ((a : ℕ) → 2 ≢ a → (result.1.ledger a).1 ≡ (deployed.ledger a).1)
execute_code_release_example =
    execute_code_release chain chain-IsConfig machine scale scale-IsScale blake2 (signed_by 2) 4
      (pos 0) 9 5 5 deployed [] refl refl remover_runs tt (omega arith) (omega arith) (omega arith)
      refl

abbrev paid : State chain
paid = (settled chain 1 2 one_entry deployed (settlement 0 6 (pos 6))).1

one_payment : PaidReach chain machine scale blake2 (2 ∷ 3 ∷ 4 ∷ []) (1 ∷ 2 ∷ []) deployed paid
one_payment = paid_next paid_here (
    executed (signed_by 1) 2 (pos 6) 9 5 5 1 set_code (scale.encode_map one_entry) refl (inl refl)
      (inl refl) refl setter_runs (omega arith)
      (execute_code_settles chain machine scale scale-IsScale blake2 (signed_by 1) 2 (pos 6) 9 5 5
        deployed one_entry refl refl setter_runs (tt, tt) (omega arith) (omega arith))
      refl)

PaidReach-Backed_example : Backed chain scale (2 ∷ 3 ∷ 4 ∷ []) (1 ∷ 2 ∷ []) paid
PaidReach-Backed_example =
    PaidReach-Backed chain chain-IsConfig machine scale scale-IsScale blake2 (2 ∷ 3 ∷ 4 ∷ [])
      (1 ∷ 2 ∷ []) ((ground arith, (ground arith, tt)), ((ground arith, tt), (tt, tt)))
      ((ground arith, tt), (tt, tt)) (omega arith) deployed-IsValid one_payment (omega arith)

-- An execution of the code 2, and an upload.
abbrev execution_and_upload : List (Extrinsic chain)
execution_and_upload =
    (signed_by 1, KontractsCall.execute_code 2 (pos 6) 9 5 5)
    ∷ (signed_by 1, KontractsCall.upload_code (5 ∷ []))
    ∷ []

setter_modest :
    (code raw : Bytes)
    → deployed.codes 2 ≡ some code
    → Execute.execute_code machine scale blake2 code (scale.encode_map []) 9 5 5 ≡ ok raw
    → length raw < 2 ^ 31
setter_modest code raw known ran =
    let same : set_code ≡ code = ground arith in
    let ran' : Execute.execute_code machine scale blake2 set_code (scale.encode_map []) 9 5 5
        ≡ ok raw =
      rw same ran in
    let stored' : scale.encode_map one_entry ≡ raw = ground (arith, setter_runs) in
    rw (← stored') (omega arith)

dispatch_all-Executed_example :
    Executed blake2
      (kept_ops chain machine scale blake2 2 execution_and_upload deployed)
      []
      (stored chain (dispatch_all chain machine scale blake2 execution_and_upload deployed) 2)
      5
      5
unfolding ℕ_discrete
dispatch_all-Executed_example =
    dispatch_all-Executed chain chain-IsConfig machine scale scale-IsScale blake2
      (omega arith, omega arith, omega arith) execution_and_upload deployed 2 deployed-IsValid
      ((omega arith, omega arith, setter_modest), (tt, tt))

dispatch_all-Tells_example :
    (es : List (Event chain)) × Tells chain deployed final es × (length es ≤ 4)
dispatch_all-Tells_example =
    dispatch_all-Tells chain chain-IsConfig machine scale blake2 extrinsics deployed
