-- ===== src/Pallet/Dispatch/Raised.antt =====
-- Which errors the calls raise.
use kontracts.Prelude.{ℕ, ◌≡◌, ◌⊎◌, refl, inl, inr, Option-cases, arith}
use kontracts.Prelude.Int.{ℤ, sub32}
use kontracts.Prelude.Outcome.{Outcome, err, Outcome-cases}
use kontracts.Bytes.{Bytes}
use kontracts.Codec.{Codec}
use kontracts.Executor.Execute.{
  Engine, ExecutionErrors, incorrec_binary, impossible_create_instance,
  main_entry_point_not_defined, wasm_panic, impossible_add_fuel, impossible_create_engine,
  impossible_create_host_function, impossible_decoding_kontract_storage, unexpected_behavoiur,
  out_of_fuel, out_of_reads, out_of_writes, error_of_trap, call_main,
}
use kontracts.Executor.Execute
use kontracts.Pallet.Config.{Config}
use kontracts.Pallet.State.{
  State, DispatchError, bad_origin, module_error, invalid_code_id, execution_code, exceeded_fuel,
  wrong_storage_encoding, deposit_error,
}
use kontracts.Pallet.Calls.{is_zero, or_default, get_storage_size, keep_storage, settle}
use kontracts.Pallet.Calls
use kontracts.Pallet.Effects.{Ends, keeps, refuses, fines, settle-Ends}
use kontracts.Pallet.Atomic.{keep_storage-err}
use kontracts.Pallet.Dispatch.{KontractsCall, Extrinsic, call}

-- The errors that the executor returns.
abbrev pub IsReturned : ExecutionErrors → Type 0
IsReturned impossible_create_host_function = ⊥
IsReturned unexpected_behavoiur = ⊥
IsReturned _ = Unit {0}

-- The errors that a call ends in.
abbrev pub IsRaised : DispatchError → Type 0
IsRaised bad_origin = Unit {0}
IsRaised (module_error invalid_code_id) = Unit {0}
IsRaised (module_error (execution_code e)) = IsReturned e ⊎ (e ≡ unexpected_behavoiur)
IsRaised (module_error exceeded_fuel) = ⊥
IsRaised (module_error wrong_storage_encoding) = ⊥
IsRaised (module_error deposit_error) = Unit {0}

module _ (E : Engine) (C : Codec) (hash : Bytes → Bytes) where
  pub execute_code-IsReturned :
      (code input : Bytes) (fuel r w : ℕ) {e : ExecutionErrors}
      → Execute.execute_code E C hash code input fuel r w ≡ err e
      → IsReturned e
  unfolding Execute.execute_code call_main error_of_trap
  execute_code-IsReturned code input fuel r w h = ground arith

IsReturned-IsRaised :
    {e : ExecutionErrors} {d : DispatchError}
    → IsReturned e
    → d ≡ module_error (execution_code e)
    → IsRaised d
IsReturned-IsRaised r h = rw h (inl r)

module _ (T : Config) (C : Codec) (who : T.AccountId) (code_id : T.CodeId) where
  Ends-IsRaised :
      (raw : Bytes) (s : State T) {r : Outcome DispatchError (Unit {0}) × State T}
      {e : DispatchError}
      → Ends T C who code_id raw s r
      → r.0 ≡ err e
      → IsRaised e
  Ends-IsRaised raw s (keeps l moved fair) h =
      rw (keep_storage-err T C who code_id raw (record s { ledger = l }) h) (inr refl)
  Ends-IsRaised raw s refuses h = ground arith
  Ends-IsRaised raw s (fines n) h = cc

module _ (T : Config) (E : Engine) (C : Codec) (blake2 : Bytes → Bytes) where
  execute_code-IsRaised :
      (origin : T.Origin) (code_id : T.CodeId) (expected : ℤ) (fuel r w : ℕ) (s : State T)
      {e : DispatchError}
      → (Calls.execute_code T E C blake2 origin code_id expected fuel r w s).0 ≡ err e
      → IsRaised e
  unfolding Calls.execute_code get_storage_size
  execute_code-IsRaised origin code_id expected fuel r w s h =
      elim (Option-cases (T.ensure_signed origin)) [
        | inl e ↦ ground arith
        | inr (who, signed) ↦ elim (Option-cases (T.codes.get s.codes code_id)) [
          | inl e ↦ ground arith
          | inr (code, known) ↦
              let raw = C.encode_map (or_default (T.storages.get s.storages code_id)) in
              elim (Outcome-cases (get_storage_size C raw)) [
                | inl (old, e₁) ↦
                    elim (Outcome-cases (Execute.execute_code E C blake2 code raw fuel r w)) [
                      | inl (raw', e₂) ↦ elim (Outcome-cases (get_storage_size C raw')) [
                        | inl (new, e₃) ↦
                            Ends-IsRaised T C who code_id raw' s
                              (settle-Ends T C who code_id (sub32 new old) expected raw' s)
                              (ground arith)
                        | inr e₃ ↦ ground arith
                      ]
                      | inr (inl (e', e₂)) ↦
                          IsReturned-IsRaised
                            (execute_code-IsReturned E C blake2 code raw fuel r w e₂) (ground arith)
                      | inr (inr e₂) ↦ ground arith
                    ]
                | inr e₁ ↦ ground arith
              ]
        ]
      ]

  -- No call ends in ExceededFuel or WrongStorageEncoding, or in the execution error
  -- ImpossibleCreateHostFunction.
  pub call-IsRaised :
      (x : Extrinsic T) (s : State T) {e : DispatchError}
      → (call T E C blake2 x s).0 ≡ err e
      → IsRaised e
  unfolding call Calls.upload_code Calls.delete_code Calls.update_code
  call-IsRaised (origin, KontractsCall.upload_code code) s h = ground arith
  call-IsRaised (origin, KontractsCall.execute_code code_id expected fuel r w) s h =
      execute_code-IsRaised origin code_id expected fuel r w s h
  call-IsRaised (origin, KontractsCall.delete_code id) s h = ground arith
  call-IsRaised (origin, KontractsCall.update_code old code) s h = ground arith
