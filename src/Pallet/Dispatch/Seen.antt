-- ===== src/Pallet/Dispatch/Seen.antt =====
-- What an extrinsic makes of a state, as a function of what its call reads there.
use kontracts.Prelude.{ℕ, ◌≡◌, refl, sym, ◌∙◌, ap, subst, inl, inr, ◌∷◌, []}
use kontracts.Prelude.Int.{ℤ}
use kontracts.Prelude.Outcome.{Outcome, ok, err, panic}
use kontracts.Bytes.{Bytes}
use kontracts.Codec.{Codec}
use kontracts.Executor.Execute.{Engine}
use kontracts.Pallet.Config.{Config, IsConfig}
use kontracts.Pallet.State.{State, DispatchError}
use kontracts.Pallet.Calls.{execute_code}
use kontracts.Pallet.Local.{EqualBalances, IsLocal, Alike}
use kontracts.Pallet.Local.Execution.{execute_code-Alike}
use kontracts.Pallet.Dispatch.Apart.{
  Touches, Pays, Disjoint, never_executes, registered_by-untouched, Pays-or_not, SameState,
}
use kontracts.Pallet.Dispatch.{KontractsCall, Extrinsic, call, dispatch}
use kontracts.Pallet.Dispatch.Register.{registered_by, dispatch_all-registered}
use kontracts.Pallet.Dispatch.Sequences.{
  register_kept, dispatch-either, dispatch_all-isolated, dispatch_all_others,
}

module _ (T : Config) where
  -- The state that is left, once an error is rolled back.
  abbrev landed : State T → Outcome DispatchError (Unit {0}) → State T → State T
  landed s r t = elim r [ ok _ ↦ t | err _ ↦ s | panic ↦ s ]

  landed-Alike :
      (id : T.CodeId) (origin : T.Origin) (r : Outcome DispatchError (Unit {0}))
      (s s' t t' : State T)
      → Alike T id origin s t
      → Alike T id origin s' t'
      → Alike T id origin (landed s r s') (landed t r t')
  landed-Alike id origin (ok _) s s' t t' before ended = ended
  landed-Alike id origin (err _) s s' t t' before ended = before
  landed-Alike id origin panic s s' t t' before ended = before

  -- The states do not differ in what the call reads.
  abbrev pub Sees : Extrinsic T → State T → State T → Type 0
  Sees (_, KontractsCall.upload_code _) s t = Unit {0}
  Sees (origin, KontractsCall.execute_code id _ _ _ _) s t = Alike T id origin s t
  Sees (_, KontractsCall.delete_code _) s t = Unit {0}
  Sees (_, KontractsCall.update_code _ _) s t = Unit {0}

  pub SameState-Sees : (x : Extrinsic T) (s t : State T) → SameState T s t → Sees x s t
  SameState-Sees (_, KontractsCall.upload_code _) s t same = tt
  SameState-Sees (_, KontractsCall.execute_code id _ _ _ _) s t same = record {
    codes = same.codes id;
    storages = same.storages id;
    balances = λ a _. same.balances a;
  }
  SameState-Sees (_, KontractsCall.delete_code _) s t same = tt
  SameState-Sees (_, KontractsCall.update_code _ _) s t same = tt

module _ (T : Config) (L : IsConfig T) (local : IsLocal T.currency) (E : Engine) (C : Codec)
    (blake2 : Bytes → Bytes) where
  abbrev pub after : Extrinsic T → State T → State T
  after x s = dispatch T E C blake2 x s

  execution-Alike :
      (origin : T.Origin) (id : T.CodeId) (expected : ℤ) (fuel r w : ℕ) (s t : State T)
      → let x : Extrinsic T = (origin, KontractsCall.execute_code id expected fuel r w) in
        Alike T id origin s t → Alike T id origin (after x s) (after x t)
  unfolding dispatch call
  execution-Alike origin id expected fuel r w s t alike =
      let run = execute_code T E C blake2 origin id expected fuel r w in
      let after_t = after (origin, KontractsCall.execute_code id expected fuel r w) t in
      let (same, ended) =
        execute_code-Alike T L local E C blake2 origin id expected fuel r w s t alike in
      subst (λ o. Alike T id origin (landed T s o (run s).1) after_t) (sym same)
        (landed-Alike T id origin (run t).0 s (run s).1 t (run t).1 alike ended)

  -- The calls on the register leave the storages and the balances.
  pub register_after :
      (origin : T.Origin) (id : T.CodeId) (code : Bytes) (s : State T)
      → let uploaded = after (origin, KontractsCall.upload_code code) s in
        let deleted = after (origin, KontractsCall.delete_code id) s in
        let replaced = after (origin, KontractsCall.update_code id code) s in
        ((uploaded.storages ≡ s.storages) × (uploaded.ledger ≡ s.ledger))
        × ((deleted.storages ≡ s.storages) × (deleted.ledger ≡ s.ledger))
        × ((replaced.storages ≡ s.storages) × (replaced.ledger ≡ s.ledger))
  unfolding call
  register_after origin id code s =
      let kept = register_kept T L E C blake2 origin id code s in
      let Kept : State T → Type 0 = λ t. (t.storages ≡ s.storages) × (t.ledger ≡ s.ledger) in
      (
        dispatch-either T L E C blake2 Kept (origin, KontractsCall.upload_code code) s (refl, refl)
            kept.0,
        dispatch-either T L E C blake2 Kept (origin, KontractsCall.delete_code id) s (refl, refl)
            kept.1,
        dispatch-either T L E C blake2 Kept (origin, KontractsCall.update_code id code) s
            (refl, refl) kept.2,
      )

  pub after-codes :
      (x : Extrinsic T) (s : State T) (k : T.CodeId)
      → T.codes.get (after x s).codes k ≡ registered_by T k x (T.codes.get s.codes k)
  after-codes x s k = dispatch_all-registered T L E C blake2 (x ∷ []) s k

  pub after-codes_untouched :
      (x : Extrinsic T) (s : State T) (k : T.CodeId)
      → (¬ Touches T x k)
      → T.codes.get (after x s).codes k ≡ T.codes.get s.codes k
  after-codes_untouched x s k ne = after-codes x s k ∙ registered_by-untouched T x k _ ne

  pub after-storages_untouched :
      (x : Extrinsic T) (s : State T) (k : T.CodeId)
      → (¬ Touches T x k)
      → T.storages.get (after x s).storages k ≡ T.storages.get s.storages k
  after-storages_untouched x s k ne =
      dispatch_all-isolated T L E C blake2 (x ∷ []) s k (never_executes T x k ne)

  pub same_ledger :
      (a : T.AccountId) {l l' : T.currency.Ledger} → l' ≡ l → EqualBalances T.currency a l' l
  same_ledger a e = (ap (λ l. T.currency.free l a) e, ap (λ l. T.currency.reserved l a) e)

  pub after-balances_unpaid :
      (x : Extrinsic T) (s : State T) (a : T.AccountId)
      → (¬ Pays T x a)
      → EqualBalances T.currency a (after x s).ledger s.ledger
  after-balances_unpaid (origin, KontractsCall.upload_code code) s a ne =
      same_ledger a (register_after origin (T.hashing code) code s).0.1
  after-balances_unpaid (origin, KontractsCall.execute_code id expected fuel r w) s a ne =
      dispatch_all_others T L E C blake2
        ((origin, KontractsCall.execute_code id expected fuel r w) ∷ []) s a (ne, tt)
  after-balances_unpaid (origin, KontractsCall.delete_code id) s a ne =
      same_ledger a (register_after origin id [] s).1.1
  after-balances_unpaid (origin, KontractsCall.update_code id code) s a ne =
      same_ledger a (register_after origin id code s).2.1

  -- What it makes of a storage and of an account depends on what it reads, and on these.
  pub after-storages :
      (x : Extrinsic T) (s t : State T) (k : T.CodeId)
      → Sees T x s t
      → T.storages.get s.storages k ≡ T.storages.get t.storages k
      → T.storages.get (after x s).storages k ≡ T.storages.get (after x t).storages k
  after-storages (origin, KontractsCall.upload_code code) s t k sees same =
      rw ((register_after origin k code s).0.0, (register_after origin k code t).0.0) same
  after-storages (origin, KontractsCall.execute_code id expected fuel r w) s t k alike same =
      let x : Extrinsic T = (origin, KontractsCall.execute_code id expected fuel r w) in
      elim (T.code_id_eq id k) [
        | yes e ↦
            subst
              (λ i. T.storages.get (after x s).storages i ≡ T.storages.get (after x t).storages i) e
              (execution-Alike origin id expected fuel r w s t alike).storages
        | no ne ↦ after-storages_untouched x s k ne ∙ same ∙ sym (after-storages_untouched x t k ne)
      ]
  after-storages (origin, KontractsCall.delete_code id) s t k sees same =
      rw ((register_after origin id [] s).1.0, (register_after origin id [] t).1.0) same
  after-storages (origin, KontractsCall.update_code id code) s t k sees same =
      rw ((register_after origin id code s).2.0, (register_after origin id code t).2.0) same

  unpaid-balances :
      (x : Extrinsic T) (s t : State T) (a : T.AccountId)
      → (¬ Pays T x a)
      → EqualBalances T.currency a s.ledger t.ledger
      → EqualBalances T.currency a (after x s).ledger (after x t).ledger
  unpaid-balances x s t a other (free, reserved) =
      let (free₁, reserved₁) = after-balances_unpaid x s a other in
      let (free₂, reserved₂) = after-balances_unpaid x t a other in
      (free₁ ∙ free ∙ sym free₂, reserved₁ ∙ reserved ∙ sym reserved₂)

  paid-balances :
      (x : Extrinsic T) (s t : State T) (a : T.AccountId)
      → Pays T x a
      → Sees T x s t
      → EqualBalances T.currency a (after x s).ledger (after x t).ledger
  paid-balances (origin, KontractsCall.upload_code code) s t a pays sees = absurd pays
  paid-balances (origin, KontractsCall.execute_code id expected fuel r w) s t a pays alike =
      (execution-Alike origin id expected fuel r w s t alike).balances a pays
  paid-balances (origin, KontractsCall.delete_code id) s t a pays sees = absurd pays
  paid-balances (origin, KontractsCall.update_code id code) s t a pays sees = absurd pays

  pub after-balances :
      (x : Extrinsic T) (s t : State T) (a : T.AccountId)
      → Sees T x s t
      → EqualBalances T.currency a s.ledger t.ledger
      → EqualBalances T.currency a (after x s).ledger (after x t).ledger
  after-balances x s t a sees same = elim (Pays-or_not T x a) [
    | inl pays ↦ paid-balances x s t a pays sees
    | inr other ↦ unpaid-balances x s t a other same
  ]

  pub after-SameState :
      (x : Extrinsic T) (s t : State T) → SameState T s t → SameState T (after x s) (after x t)
  after-SameState x s t same = record {
    codes =
        λ k. after-codes x s k ∙ ap (registered_by T k x) (same.codes k) ∙ sym (after-codes x t k);
    storages = λ k. after-storages x s t k (SameState-Sees T x s t same) (same.storages k);
    balances = λ a. after-balances x s t a (SameState-Sees T x s t same) (same.balances a);
  }

  -- An extrinsic does not see another one that is apart from it.
  pub unseen :
      (x y : Extrinsic T) (s : State T)
      → Disjoint T x y
      → ((a : T.AccountId) → Pays T x a → ¬ Pays T y a)
      → Sees T x s (after y s)
  unseen (origin, KontractsCall.upload_code code) y s ids payers = tt
  unseen (origin, KontractsCall.execute_code id expected fuel r w) y s ids payers = record {
    codes = sym (after-codes_untouched y s id (ids id refl));
    storages = sym (after-storages_untouched y s id (ids id refl));
    balances = λ a signs.
        let (free, reserved) = after-balances_unpaid y s a (payers a signs) in
        (sym free, sym reserved);
  }
  unseen (origin, KontractsCall.delete_code id) y s ids payers = tt
  unseen (origin, KontractsCall.update_code id code) y s ids payers = tt
