-- ===== src/Pallet/Dispatch/Log/Indexer.antt =====
-- Each extrinsic, and each sequence of them, is told by its events.
use kontracts.Prelude.{
  ◌≤◌, ◌≡◌, refl, sym, ◌∙◌, ap, subst, inl, inr, true, false, ◌||◌, Bool-cases, Option, none, some,
  Option-cases, List, [], ◌∷◌, ◌++◌, length, length-append, arith,
}
use kontracts.Prelude.Outcome.{Outcome, ok, err}
use kontracts.Bytes.{Bytes}
use kontracts.Codec.{Codec, Storage}
use kontracts.Executor.Execute.{Engine}
use kontracts.Pallet.Config.{Config, IsConfig}
use kontracts.Pallet.State.{
  State, Event, DispatchError, new_code_uploaded, code_executed, code_deleted, code_upgraded,
  exceeded_storage,
}
use kontracts.Pallet.Calls.{keep_storage}
use kontracts.Pallet.Registry.{
  upload_code_lem, delete_code_lem, update_code_lem, upload_code_unsigned, delete_code_not_root,
  update_code_not_root,
}
use kontracts.Pallet.Effects.{Ends, settle-Ends, execute_code-settle}
use kontracts.Pallet.Dispatch.{KontractsCall, Extrinsic, call, dispatch, dispatch_all}
use kontracts.Pallet.Dispatch.Sequences.{dispatch-cases, dispatch_done, dispatch_refused}
use kontracts.Pallet.Dispatch.Register.{is_some, chosen, get-insert, get-remove}
use kontracts.Pallet.Dispatch.Log.{
  replaces, indexed, executed, is_registered, Tells, Tells-nothing, Tells-then,
}

is_some-chosen :
    {P : Type 0} (d : Dec P) (new old : Option Bytes)
    → is_some (chosen d new old) ≡ elim d [ yes _ ↦ is_some new | no _ ↦ is_some old ]
is_some-chosen (yes _) new old = refl
is_some-chosen (no _) new old = refl

spared : {P : Type 0} (d : Dec P) → (elim d [ yes _ ↦ true | no _ ↦ false ] || false) ≡ false → ¬ P
spared (yes p) h = cc
spared (no np) h = np

module _ (T : Config) (L : IsConfig T) (E : Engine) (C : Codec) (blake2 : Bytes → Bytes) where
  registered-insert :
      (m : T.codes.Map) (id j : T.CodeId) (code : Bytes)
      → is_some (T.codes.get (T.codes.insert m id code) j)
        ≡ replaces T id j true (is_some (T.codes.get m j))
  registered-insert m id j code =
      ap is_some (get-insert T L E C blake2 m id j code (T.code_id_eq id j))
      ∙ is_some-chosen (T.code_id_eq id j) (some code) (T.codes.get m j)

  registered-remove :
      (m : T.codes.Map) (id j : T.CodeId)
      → is_some (T.codes.get (T.codes.remove m id) j)
        ≡ replaces T id j false (is_some (T.codes.get m j))
  registered-remove m id j =
      ap is_some (get-remove T L E C blake2 m id j (T.code_id_eq id j))
      ∙ is_some-chosen (T.code_id_eq id j) none (T.codes.get m j)

  -- The event of a kept storage, and of one that grew too much.
  kept-Tells :
      (who : T.AccountId) (id : T.CodeId) (s t : State T) (m : Storage)
      → t ≡ record s {
        storages = T.storages.insert s.storages id m;
        ledger = t.ledger;
        events = code_executed id who ∷ s.events;
      }
      → Tells T s t (code_executed id who ∷ [])
  kept-Tells who id s t m e = record {
    logged = ap (λ u. u.events) e;
    registered = λ j. ap (λ u. is_registered T u j) e;
    stored = λ j h.
        ap (λ u. T.storages.get u.storages j) e
        ∙ L.storages.get-insert_ne s.storages id j m (spared (T.code_id_eq id j) h);
  }

  Ends-Tells :
      (who : T.AccountId) (id : T.CodeId) (raw : Bytes) (s : State T)
      {r : Outcome DispatchError (Unit {0}) × State T}
      → r.0 ≡ ok tt
      → Ends T C who id raw s r
      → (es : List (Event T)) × Tells T s r.1 es × (length es ≤ 1)
  unfolding keep_storage
  Ends-Tells who id raw s done (Ends.keeps l moved fair) =
      elim (Option-cases (C.decode_bounded T.bounds raw)) [
        | inl e ↦ absurd (ground arith)
        | inr (d, e) ↦ (
          code_executed id who ∷ [],
          kept-Tells who id s (keep_storage T C who id raw (record s { ledger = l })).1 d.0
              (rw (e, keep_storage) refl),
          omega arith,
        )
      ]
  Ends-Tells who id raw s done Ends.refuses = absurd (ground arith)
  Ends-Tells who id raw s done (Ends.fines n) = (
    exceeded_storage id who ∷ [],
    record { logged = refl; registered = λ j. refl; stored = λ j h. refl },
    omega arith,
  )

  Tells-register :
      (s : State T) (codes : T.codes.Map) (e : Event T)
      → ((j : T.CodeId)
          → is_some (T.codes.get codes j) ≡ indexed T j (e ∷ []) (is_registered T s j))
      → ((j : T.CodeId) → executed T j (e ∷ []) ≡ false)
      → Tells T s (record s { codes = codes; events = e ∷ s.events }) (e ∷ [])
  Tells-register s codes e tells never = record {
    logged = refl;
    registered = tells;
    stored = λ j h. refl;
  }

  abbrev Told : State T → State T → Type 0
  Told s t = (es : List (Event T)) × Tells T s t es × (length es ≤ 1)

  nothing-Told : (s : State T) → Told s s
  nothing-Told s = ([], Tells-nothing T s, omega arith)

  refused-Told :
      (x : Extrinsic T) (s : State T) {t : State T} {e : DispatchError}
      → call T E C blake2 x s ≡ (err e, t)
      → Told s (dispatch T E C blake2 x s)
  refused-Told x s h = subst (Told s) (sym (dispatch_refused T E C blake2 x s h)) (nothing-Told s)

  done-Told :
      (x : Extrinsic T) (s : State T) {t : State T} (e : Event T)
      → call T E C blake2 x s ≡ (ok tt, t)
      → Tells T s t (e ∷ [])
      → Told s (dispatch T E C blake2 x s)
  done-Told x s e h tells =
      subst (Told s) (sym (dispatch_done T E C blake2 x s h)) (e ∷ [], tells, omega arith)

  pub dispatch-Told : (x : Extrinsic T) (s : State T) → Told s (dispatch T E C blake2 x s)
  unfolding call
  dispatch-Told (origin, KontractsCall.upload_code code) s =
      let id = T.hashing code in
      elim (Option-cases (T.ensure_signed origin)) [
        | inl refused ↦ refused-Told _ s (upload_code_unsigned T origin code s refused)
        | inr (who, signed) ↦
            done-Told (origin, KontractsCall.upload_code code) s (new_code_uploaded id who)
              (upload_code_lem T origin code s signed)
              (Tells-register s (T.codes.insert s.codes id code) (new_code_uploaded id who)
                (λ j. registered-insert s.codes id j code) (λ j. refl))
      ]
  dispatch-Told (origin, KontractsCall.execute_code id expected fuel r w) s =
      let x : Extrinsic T = (origin, KontractsCall.execute_code id expected fuel r w) in
      elim (dispatch-cases T E C blake2 x s) [
        | inr same ↦ subst (Told s) (sym same) (nothing-Told s)
        | inl done ↦ elim (execute_code-settle T E C blake2 origin id expected fuel r w s) [
          | inl (_, failed) ↦ absurd (failed (ap (λ p. p.0) done))
          | inr (who, y, raw, signed, settled) ↦
              let result = sym settled ∙ done in
              subst (Told s) (ap (λ p. p.1) result) (
                Ends-Tells who id raw s (ap (λ p. p.0) result)
                  (settle-Ends T C who id y expected raw s))
        ]
      ]
  dispatch-Told (origin, KontractsCall.delete_code id) s =
      elim (Bool-cases (T.ensure_root origin)) [
        | inr refused ↦ refused-Told _ s (delete_code_not_root T origin id s refused)
        | inl root ↦
            done-Told (origin, KontractsCall.delete_code id) s (code_deleted id)
              (delete_code_lem T origin id s root)
              (Tells-register s (T.codes.remove s.codes id) (code_deleted id)
                (λ j. registered-remove s.codes id j) (λ j. refl))
      ]
  dispatch-Told (origin, KontractsCall.update_code id code) s =
      let new = T.hashing code in
      elim (Bool-cases (T.ensure_root origin)) [
        | inr refused ↦ refused-Told _ s (update_code_not_root T origin id code s refused)
        | inl root ↦
            done-Told (origin, KontractsCall.update_code id code) s (code_upgraded id new)
              (update_code_lem T origin id code s root)
              (Tells-register s (T.codes.insert (T.codes.remove s.codes id) new code)
                (code_upgraded id new)
                (λ j.
                  registered-insert (T.codes.remove s.codes id) new j code
                  ∙ ap (replaces T new j true) (registered-remove s.codes id j))
                (λ j. refl))
      ]

  -- The events that any sequence of extrinsics adds, at most one for each, tell what it did, the
  -- failing ones included: by the events alone, and by which code ids were registered before, it
  -- is known which are registered after, and the storage of an id that no CodeExecuted names has
  -- not changed.
  pub dispatch_all-Tells :
      (xs : List (Extrinsic T)) (s : State T)
      → (es : List (Event T)) × Tells T s (dispatch_all T E C blake2 xs s) es
        × (length es ≤ length xs)
  dispatch_all-Tells [] s = ([], Tells-nothing T s, omega arith)
  dispatch_all-Tells (x ∷ xs) s =
      let (es, tells, few) = dispatch-Told x s in
      let (es', tells', few') = dispatch_all-Tells xs (dispatch T E C blake2 x s) in
      (es' ++ es, Tells-then T es es' tells tells', omega (arith, length-append es' es))
