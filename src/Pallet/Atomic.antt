-- ===== src/Pallet/Atomic.antt =====
-- Which errors leave the state as it was, without the roll-back of FRAME's dispatch.
use kontracts.Prelude.{ℕ, ◌≡◌, ◌≢◌, inl, inr, refl, arith}
use kontracts.Prelude.Int.{ℤ}
use kontracts.Prelude.Outcome.{Outcome, err}
use kontracts.Bytes.{Bytes}
use kontracts.Codec.{Codec}
use kontracts.Executor.Execute.{Engine, unexpected_behavoiur}
use kontracts.Pallet.Config.{Config}
use kontracts.Pallet.State.{State, DispatchError, module_error, execution_code}
use kontracts.Pallet.Calls.{keep_storage, execute_code}
use kontracts.Pallet.Effects.{execute_code-settle, Ends, keeps, refuses, fines, settle-Ends}

module _ (T : Config) (C : Codec) (who : T.AccountId) (code_id : T.CodeId) where
  pub keep_storage-err :
      (raw : Bytes) (s : State T) {e : DispatchError}
      → (keep_storage T C who code_id raw s).0 ≡ err e
      → e ≡ module_error (execution_code unexpected_behavoiur)
  unfolding keep_storage
  keep_storage-err raw s h = ground arith

  Ends-err :
      (raw : Bytes) (s : State T) {r : Outcome DispatchError (Unit {0}) × State T}
      {e : DispatchError}
      → Ends T C who code_id raw s r
      → r.0 ≡ err e
      → e ≢ module_error (execution_code unexpected_behavoiur)
      → r.1 ≡ s
  Ends-err raw s (keeps l moved fair) h ne =
      absurd (ne (keep_storage-err raw (record s { ledger = l }) h))
  Ends-err raw s refuses h ne = refl
  Ends-err raw s (fines n) h ne = cc

module _ (T : Config) (E : Engine) (C : Codec) (blake2 : Bytes → Bytes) where
  -- An execution that ends in an error other than UnexpectedBehavoiur has changed nothing, even
  -- before FRAME rolls it back.
  pub execute_code_atomic :
      (origin : T.Origin) (code_id : T.CodeId) (expected : ℤ) (fuel max_read max_write : ℕ)
      (s : State T) {e : DispatchError}
      → let result = execute_code T E C blake2 origin code_id expected fuel max_read max_write s in
        result.0 ≡ err e → e ≢ module_error (execution_code unexpected_behavoiur) → result.1 ≡ s
  execute_code_atomic origin code_id expected fuel max_read max_write s h ne =
      elim (execute_code-settle T E C blake2 origin code_id expected fuel max_read max_write s) [
        | inl (unchanged, _) ↦ unchanged
        | inr (who, x, raw, signed, settled) ↦ rw settled (
            Ends-err T C who code_id raw s (settle-Ends T C who code_id x expected raw s)
              (rw settled at h) ne)
      ]
