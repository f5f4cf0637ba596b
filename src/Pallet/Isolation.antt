-- ===== src/Pallet/Isolation.antt =====
-- What an execution leaves alone: the codes, and the storages of all other kontracts.
use kontracts.Prelude.{ℕ, ◌≡◌, ◌≢◌, refl, ◌∙◌, ap, inl, inr}
use kontracts.Prelude.Int.{ℤ}
use kontracts.Bytes.{Bytes}
use kontracts.Codec.{Codec}
use kontracts.Executor.Execute.{Engine}
use kontracts.Pallet.Config.{Config, IsConfig}
use kontracts.Pallet.State.{State}
use kontracts.Pallet.Calls.{execute_code}
use kontracts.Pallet.Effects.{Effects, settle-Effects, execute_code-settle}

module _ (T : Config) (L : IsConfig T) where
  Effects-storages :
      {C : Codec} {who : T.AccountId} {code_id : T.CodeId} {s t : State T} (j : T.CodeId)
      → Effects T C who code_id s t
      → code_id ≢ j
      → T.storages.get t.storages j ≡ T.storages.get s.storages j
  Effects-storages {code_id = code_id} {s = s} j e ne = elim e.storages [
    | inl unchanged ↦ ap (λ m. T.storages.get m j) unchanged
    | inr (raw, d, decoded, inserted) ↦
        ap (λ m. T.storages.get m j) inserted ∙ L.storages.get-insert_ne s.storages code_id j d.0 ne
  ]

  pub execute_code-codes :
      (E : Engine) (C : Codec) (blake2 : Bytes → Bytes) (origin : T.Origin) (code_id : T.CodeId)
      (expected : ℤ) (fuel max_read max_write : ℕ) (s : State T)
      → (execute_code T E C blake2 origin code_id expected fuel max_read max_write s).1.codes
        ≡ s.codes
  execute_code-codes E C blake2 origin code_id expected fuel max_read max_write s =
      elim (execute_code-settle T E C blake2 origin code_id expected fuel max_read max_write s) [
        | inl (unchanged, _) ↦ rw unchanged refl
        | inr (who, x, raw, signed, settled) ↦
            rw settled (settle-Effects T C who code_id x expected raw s).codes
      ]

  -- However an execution ends, no code changes, and the storage of no other code id changes.
  pub execute_code_isolated :
      (E : Engine) (C : Codec) (blake2 : Bytes → Bytes) (origin : T.Origin) (code_id j : T.CodeId)
      (expected : ℤ) (fuel max_read max_write : ℕ) (s : State T)
      → code_id ≢ j
      → let t = (execute_code T E C blake2 origin code_id expected fuel max_read max_write s).1 in
        (t.codes ≡ s.codes) × (T.storages.get t.storages j ≡ T.storages.get s.storages j)
  execute_code_isolated E C blake2 origin code_id j expected fuel max_read max_write s ne =
      elim (execute_code-settle T E C blake2 origin code_id expected fuel max_read max_write s) [
        | inl (unchanged, _) ↦ rw unchanged (refl, refl)
        | inr (who, x, raw, signed, settled) ↦
            let effects = settle-Effects T C who code_id x expected raw s in
            rw settled (effects.codes, Effects-storages j effects ne)
      ]
