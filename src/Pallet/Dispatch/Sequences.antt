-- ===== src/Pallet/Dispatch/Sequences.antt =====
-- Every sequence of extrinsics, the failing ones among them.
use kontracts.Prelude.{
  ◌≡◌, ◌≢◌, ◌⊎◌, refl, ◌∙◌, ap, subst, inl, inr, Bool-cases, Option-cases, some, List, [], ◌∷◌,
  arith,
}
use kontracts.Prelude.Outcome.{ok, err, Outcome-cases, panic}
use kontracts.Bytes.{Bytes}
use kontracts.Codec.{Codec, IsScale}
use kontracts.Executor.Execute.{Engine}
use kontracts.Pallet.Config.{Config, IsConfig}
use kontracts.Pallet.State.{State, DispatchError}
use kontracts.Pallet.Calls
use kontracts.Pallet.Reach
use kontracts.Pallet.Reach.{Step, Reach, IsValid, Reach-IsValid, here, next}
use kontracts.Pallet.Isolation.{execute_code_isolated}
use kontracts.Pallet.Money.{execute_code_charges_caller}
use kontracts.Pallet.Dispatch.{KontractsCall, Extrinsic, call, dispatch, dispatch_all}

module _ (T : Config) (E : Engine) (C : Codec) (blake2 : Bytes → Bytes) where
  -- An extrinsic is a step, or changes nothing.
  call-Step :
      (x : Extrinsic T) (s : State T) {t : State T}
      → call T E C blake2 x s ≡ (ok tt, t)
      → Step T E C blake2 s t
  unfolding call
  call-Step (origin, KontractsCall.upload_code code) s h = Reach.uploaded origin code h
  call-Step (origin, KontractsCall.execute_code code_id expected fuel r w) s h =
      Reach.executed origin code_id expected fuel r w h
  call-Step (origin, KontractsCall.delete_code code_id) s h = Reach.deleted origin code_id h
  call-Step (origin, KontractsCall.update_code old code) s h = Reach.updated origin old code h

  -- The two ways for an extrinsic to end.
  pub dispatch-cases :
      (x : Extrinsic T) (s : State T)
      → (call T E C blake2 x s ≡ (ok tt, dispatch T E C blake2 x s))
        ⊎ (dispatch T E C blake2 x s ≡ s)
  unfolding dispatch
  dispatch-cases x s = elim (Outcome-cases (call T E C blake2 x s).0) [
    | inl (_, e) ↦ inl (ground arith)
    | inr (inl (e, h)) ↦ inr (ground arith)
    | inr (inr h) ↦ inr (ground arith)
  ]

  pub dispatch_done :
      (x : Extrinsic T) (s : State T) {t : State T}
      → call T E C blake2 x s ≡ (ok tt, t)
      → dispatch T E C blake2 x s ≡ t
  unfolding dispatch
  dispatch_done x s h = ground arith

  pub dispatch_refused :
      (x : Extrinsic T) (s : State T) {t : State T} {e : DispatchError}
      → call T E C blake2 x s ≡ (err e, t)
      → dispatch T E C blake2 x s ≡ s
  unfolding dispatch
  dispatch_refused x s h = ground arith

  pub dispatch_panicked :
      (x : Extrinsic T) (s : State T) {t : State T}
      → call T E C blake2 x s ≡ (panic, t)
      → dispatch T E C blake2 x s ≡ s
  unfolding dispatch
  dispatch_panicked x s h = ground arith

  Reach-prepend :
      {s t u : State T} → Step T E C blake2 s t → Reach T E C blake2 t u → Reach T E C blake2 s u
  Reach-prepend step here = next here step
  Reach-prepend step (next r last) = next (Reach-prepend step r) last

  dispatch_all-Reach :
      (xs : List (Extrinsic T)) (s : State T)
      → Reach T E C blake2 s (dispatch_all T E C blake2 xs s)
  dispatch_all-Reach [] s = here
  dispatch_all-Reach (x ∷ xs) s = elim (dispatch-cases x s) [
    | inl done ↦
        Reach-prepend (call-Step x s done) (dispatch_all-Reach xs (dispatch T E C blake2 x s))
    | inr same ↦ rw same (dispatch_all-Reach xs s)
  ]

  -- Every sequence of extrinsics, the failing ones rolled back, leads from a state where every
  -- code stands under its own hash and every storage is sorted and within the pallet's bounds to
  -- such a state.
  pub dispatch_all-IsValid :
      IsConfig T
      → IsScale C
      → (xs : List (Extrinsic T)) (s : State T) → IsValid T s
      → IsValid T (dispatch_all T E C blake2 xs s)
  dispatch_all-IsValid L S xs s v = Reach-IsValid T L E C S blake2 (dispatch_all-Reach xs s) v

module _ (T : Config) where
  -- The extrinsic does not execute the code.
  abbrev Spares : T.CodeId → Extrinsic T → Type 0
  Spares j (_, KontractsCall.upload_code _) = Unit {0}
  Spares j (_, KontractsCall.execute_code code_id _ _ _ _) = code_id ≢ j
  Spares j (_, KontractsCall.delete_code _) = Unit {0}
  Spares j (_, KontractsCall.update_code _ _) = Unit {0}

  abbrev pub NeverExecutes : T.CodeId → List (Extrinsic T) → Type 0
  NeverExecutes j [] = Unit {0}
  NeverExecutes j (x ∷ xs) = Spares j x × NeverExecutes j xs

  -- None of them is signed by the account.
  abbrev pub NeverSigns : T.AccountId → List (Extrinsic T) → Type 0
  NeverSigns a [] = Unit {0}
  NeverSigns a ((origin, _) ∷ xs) = (T.ensure_signed origin ≢ some a) × NeverSigns a xs

module _ (T : Config) (L : IsConfig T) (E : Engine) (C : Codec) (blake2 : Bytes → Bytes) where
  -- The calls on the register, however they end.
  pub register_kept :
      (origin : T.Origin) (id : T.CodeId) (code : Bytes) (s : State T)
      → let uploaded = (Calls.upload_code T origin code s).1 in
        let deleted = (Calls.delete_code T origin id s).1 in
        let replaced = (Calls.update_code T origin id code s).1 in
        ((uploaded.storages ≡ s.storages) × (uploaded.ledger ≡ s.ledger))
        × ((deleted.storages ≡ s.storages) × (deleted.ledger ≡ s.ledger))
        × ((replaced.storages ≡ s.storages) × (replaced.ledger ≡ s.ledger))
  unfolding Calls.upload_code Calls.delete_code Calls.update_code
  register_kept origin id code s = elim (Option-cases (T.ensure_signed origin)) [
    | inl e ↦ elim (Bool-cases (T.ensure_root origin)) [
      | inl e' ↦ ground arith
      | inr e' ↦ ground arith
    ]
    | inr (who, e) ↦ elim (Bool-cases (T.ensure_root origin)) [
      | inl e' ↦ ground arith
      | inr e' ↦ ground arith
    ]
  ]

  -- What holds of the state that a call leaves and of the one before it holds after the dispatch.
  pub dispatch-either :
      (P : State T → Type 0) (x : Extrinsic T) (s : State T)
      → P s
      → P (call T E C blake2 x s).1
      → P (dispatch T E C blake2 x s)
  dispatch-either P x s before after = elim (dispatch-cases T E C blake2 x s) [
    | inl done ↦ subst P (ap (λ r. r.1) done) after
    | inr same ↦ rw same before
  ]

  call-isolated :
      (x : Extrinsic T) (s : State T) (j : T.CodeId)
      → Spares T j x
      → T.storages.get (call T E C blake2 x s).1.storages j ≡ T.storages.get s.storages j
  unfolding call
  call-isolated (origin, KontractsCall.upload_code code) s j h =
      ap (λ m. T.storages.get m j) (register_kept origin j code s).0.0
  call-isolated (origin, KontractsCall.execute_code code_id expected fuel r w) s j h =
      (execute_code_isolated T L E C blake2 origin code_id j expected fuel r w s h).1
  call-isolated (origin, KontractsCall.delete_code id) s j h =
      ap (λ m. T.storages.get m j) (register_kept origin id [] s).1.0
  call-isolated (origin, KontractsCall.update_code id code) s j h =
      ap (λ m. T.storages.get m j) (register_kept origin id code s).2.0

  abbrev SameBalances : T.AccountId → T.currency.Ledger → T.currency.Ledger → Type 0
  SameBalances a l l' =
      (T.currency.free l' a ≡ T.currency.free l a)
      × (T.currency.reserved l' a ≡ T.currency.reserved l a)

  SameBalances-congr : (a : T.AccountId) {l l' : T.currency.Ledger} → l' ≡ l → SameBalances a l l'
  SameBalances-congr a e = (ap (λ l. T.currency.free l a) e, ap (λ l. T.currency.reserved l a) e)

  call_others :
      (x : Extrinsic T) (s : State T) (a : T.AccountId)
      → T.ensure_signed x.0 ≢ some a
      → SameBalances a s.ledger (call T E C blake2 x s).1.ledger
  unfolding call
  call_others (origin, KontractsCall.upload_code code) s a h =
      SameBalances-congr a (register_kept origin (T.hashing code) code s).0.1
  call_others (origin, KontractsCall.execute_code code_id expected fuel r w) s a h =
      execute_code_charges_caller T L E C blake2 origin code_id expected fuel r w s a h
  call_others (origin, KontractsCall.delete_code id) s a h =
      SameBalances-congr a (register_kept origin id [] s).1.1
  call_others (origin, KontractsCall.update_code id code) s a h =
      SameBalances-congr a (register_kept origin id code s).2.1

  -- A sequence of extrinsics none of which executes a code id leaves the storage of that id,
  -- deletions and updates of its code included.
  pub dispatch_all-isolated :
      (xs : List (Extrinsic T)) (s : State T) (j : T.CodeId)
      → NeverExecutes T j xs
      → T.storages.get (dispatch_all T E C blake2 xs s).storages j ≡ T.storages.get s.storages j
  dispatch_all-isolated [] s j h = refl
  dispatch_all-isolated (x ∷ xs) s j (spares, h) =
      dispatch_all-isolated xs (dispatch T E C blake2 x s) j h
      ∙ dispatch-either (λ t. T.storages.get t.storages j ≡ T.storages.get s.storages j) x s refl
          (call-isolated x s j spares)

  -- A sequence of extrinsics none of which is signed by an account leaves that account's free
  -- and reserved balance.
  pub dispatch_all_others :
      (xs : List (Extrinsic T)) (s : State T) (a : T.AccountId)
      → NeverSigns T a xs
      → let t = dispatch_all T E C blake2 xs s in
        (T.currency.free t.ledger a ≡ T.currency.free s.ledger a)
        × (T.currency.reserved t.ledger a ≡ T.currency.reserved s.ledger a)
  dispatch_all_others [] s a h = (refl, refl)
  dispatch_all_others (x ∷ xs) s a (other, h) =
      let (free₁, reserved₁) = dispatch_all_others xs (dispatch T E C blake2 x s) a h in
      let (free₂, reserved₂) =
        dispatch-either (λ t. SameBalances a s.ledger t.ledger) x s (refl, refl)
          (call_others x s a other) in
      (free₁ ∙ free₂, reserved₁ ∙ reserved₂)
