-- ===== src/Pallet/Local/Execution.antt =====
-- An execution as a function of what it reads of the state.
use kontracts.Prelude.{ℕ, ◌≡◌, refl, sym, ◌∙◌, ap, subst, inl, inr, Option, none, some}
use kontracts.Prelude.Int.{ℤ, sub32}
use kontracts.Prelude.Outcome.{ok, err, ok_or, map_err, Outcome-cases}
use kontracts.Bytes.{Bytes}
use kontracts.Codec.{Codec, Storage}
use kontracts.Executor.Execute.{Engine}
use kontracts.Executor.Execute
use kontracts.Pallet.Config.{Config, IsConfig}
use kontracts.Pallet.State.{
  State, Call, lift, ◌>>=◌, bad_origin, module_error, invalid_code_id, execution_code,
}
use kontracts.Pallet.Calls.{or_default, get_storage_size, settle, execute_code}
use kontracts.Pallet.Local.{IsLocal, Alike, EndAlike, settle-Alike}

module _ (T : Config) (E : Engine) (C : Codec) (blake2 : Bytes → Bytes) where
  -- The call as a function of what it reads.
  abbrev execution :
      T.CodeId → ℤ → ℕ → ℕ → ℕ → Option T.AccountId → Option Bytes → Storage → Call T (Unit {0})
  execution id expected fuel r w signer known stored = do
    who ← lift (elim signer [ none ↦ err bad_origin | some who ↦ ok who ])
    code ← lift (ok_or known (module_error invalid_code_id))
    old ← lift (get_storage_size C (C.encode_map stored))
    raw ← lift (
        map_err (λ e. module_error (execution_code e))
          (Execute.execute_code E C blake2 code (C.encode_map stored) fuel r w))
    new ← lift (get_storage_size C raw)
    settle T C who id (sub32 new old) expected raw

  execute_code-execution :
      (origin : T.Origin) (id : T.CodeId) (expected : ℤ) (fuel r w : ℕ) (s : State T)
      → execute_code T E C blake2 origin id expected fuel r w s
        ≡ execution id expected fuel r w
            (T.ensure_signed origin)
            (T.codes.get s.codes id)
            (or_default (T.storages.get s.storages id))
            s
  unfolding execute_code
  execute_code-execution origin id expected fuel r w s = refl

module _ (T : Config) (L : IsConfig T) (local : IsLocal T.currency) (E : Engine) (C : Codec)
    (blake2 : Bytes → Bytes) where
  execution-Alike :
      (origin : T.Origin) (id : T.CodeId) (expected : ℤ) (fuel r w : ℕ)
      (signer : Option T.AccountId) (known : Option Bytes) (stored : Storage) (s t : State T)
      → T.ensure_signed origin ≡ signer
      → Alike T id origin s t
      → EndAlike T id origin
          (execution T E C blake2 id expected fuel r w signer known stored s)
          (execution T E C blake2 id expected fuel r w signer known stored t)
  execution-Alike origin id expected fuel r w none known stored s t signed alike = (refl, alike)
  execution-Alike origin id expected fuel r w (some who) none stored s t signed alike =
      (refl, alike)
  execution-Alike origin id expected fuel r w (some who) (some code) stored s t signed alike =
      elim (Outcome-cases (get_storage_size C (C.encode_map stored))) [
        | inr (inl (_, e₁)) ↦ rw e₁ (refl, alike)
        | inr (inr e₁) ↦ rw e₁ (refl, alike)
        | inl (old, e₁) ↦
            elim (Outcome-cases
              (Execute.execute_code E C blake2 code (C.encode_map stored) fuel r w)) [
                | inr (inl (_, e₂)) ↦ rw (e₁, e₂) (refl, alike)
                | inr (inr e₂) ↦ rw (e₁, e₂) (refl, alike)
                | inl (raw, e₂) ↦ elim (Outcome-cases (get_storage_size C raw)) [
                  | inr (inl (_, e₃)) ↦ rw (e₁, e₂, e₃) (refl, alike)
                  | inr (inr e₃) ↦ rw (e₁, e₂, e₃) (refl, alike)
                  | inl (new, e₃) ↦
                      rw (e₁, e₂, e₃)
                        (settle-Alike T L local C id origin who signed (sub32 new old) expected raw
                          s t alike)
                ]
              ]
      ]

  -- Executions of one code by one signer in states that they do not tell apart end alike.
  pub execute_code-Alike :
      (origin : T.Origin) (id : T.CodeId) (expected : ℤ) (fuel r w : ℕ) (s t : State T)
      → Alike T id origin s t
      → EndAlike T id origin
          (execute_code T E C blake2 origin id expected fuel r w s)
          (execute_code T E C blake2 origin id expected fuel r w t)
  execute_code-Alike origin id expected fuel r w s t alike =
      let at = execution T E C blake2 id expected fuel r w (T.ensure_signed origin) in
      let known = T.codes.get t.codes id in
      let stored = or_default (T.storages.get t.storages id) in
      let same : execute_code T E C blake2 origin id expected fuel r w s ≡ at known stored s =
        execute_code-execution T E C blake2 origin id expected fuel r w s
        ∙ ap (λ k. at k (or_default (T.storages.get s.storages id)) s) alike.codes
        ∙ ap (λ m. at known (or_default m) s) alike.storages in
      let same' = execute_code-execution T E C blake2 origin id expected fuel r w t in
      subst (λ p. EndAlike T id origin p (execute_code T E C blake2 origin id expected fuel r w t))
        (sym same)
        (subst (EndAlike T id origin (at known stored s)) (sym same') (
          execution-Alike origin id expected fuel r w (T.ensure_signed origin) known stored s t refl
            alike))
