-- ===== src/Pallet/Dispatch/Apart.antt =====
-- Extrinsics that have nothing to do with each other, and states with the same contents, the events
-- aside.
use kontracts.Prelude.{
  sym, ◌≡◌, ◌≢◌, ◌⊎◌, refl, ◌∙◌, ap, inl, inr, some, Option, Option-cases, [], ◌∷◌, Bool-cases,
  arith,
}
use kontracts.Bytes.{Bytes}
use kontracts.Pallet.Config.{Config}
use kontracts.Pallet.State.{State}
use kontracts.Pallet.Local.{EqualBalances}
use kontracts.Pallet.Dispatch.{KontractsCall, Extrinsic}
use kontracts.Pallet.Dispatch.Sequences.{NeverExecutes}
use kontracts.Pallet.Dispatch.Register.{registered_by, chosen, is_signed}

either : {P : Type 0} → Dec P → P ⊎ (¬ P)
either (yes p) = inl p
either (no n) = inr n

not_chosen : {P : Type 0} (d : Dec P) (new old : Option Bytes) → (¬ P) → chosen d new old ≡ old
not_chosen (yes p) new old n = absurd (n p)
not_chosen (no _) new old n = refl

module _ (T : Config) where
  -- The ids whose code or storage a call reads or changes.
  abbrev pub Touches : Extrinsic T → T.CodeId → Type 0
  Touches (_, KontractsCall.upload_code code) k = T.hashing code ≡ k
  Touches (_, KontractsCall.execute_code id _ _ _ _) k = id ≡ k
  Touches (_, KontractsCall.delete_code id) k = id ≡ k
  Touches (_, KontractsCall.update_code id code) k = (id ≡ k) ⊎ (T.hashing code ≡ k)

  -- The account whose balances a call reads or changes.
  abbrev pub Pays : Extrinsic T → T.AccountId → Type 0
  Pays (_, KontractsCall.upload_code _) a = ⊥
  Pays (origin, KontractsCall.execute_code _ _ _ _ _) a = T.ensure_signed origin ≡ some a
  Pays (_, KontractsCall.delete_code _) a = ⊥
  Pays (_, KontractsCall.update_code _ _) a = ⊥

  -- Two uploads of the same code.
  abbrev pub Agree : Extrinsic T → Extrinsic T → Type 0
  Agree (_, KontractsCall.upload_code code) (_, KontractsCall.upload_code code') = code ≡ code'
  Agree (_, KontractsCall.upload_code _) (_, KontractsCall.execute_code _ _ _ _ _) = ⊥
  Agree (_, KontractsCall.upload_code _) (_, KontractsCall.delete_code _) = ⊥
  Agree (_, KontractsCall.upload_code _) (_, KontractsCall.update_code _ _) = ⊥
  Agree (_, KontractsCall.execute_code _ _ _ _ _) y = ⊥
  Agree (_, KontractsCall.delete_code _) y = ⊥
  Agree (_, KontractsCall.update_code _ _) y = ⊥

  -- No id in common but that of one code that both upload, and no account that pays for both.
  abbrev pub Apart : Extrinsic T → Extrinsic T → Type 0
  Apart x y =
      ((k : T.CodeId) → Touches x k → Touches y k → Agree x y)
      × ((a : T.AccountId) → Pays x a → ¬ Pays y a)

  abbrev pub AreUploads : Extrinsic T → Extrinsic T → Type 0
  AreUploads x y =
      (o : T.Origin) × (code : Bytes) × (o' : T.Origin) × (code' : Bytes) × (x
        ≡ (o, KontractsCall.upload_code code))
      × (y ≡ (o', KontractsCall.upload_code code'))
      × (T.hashing code ≡ T.hashing code' → code ≡ code')

  abbrev pub Disjoint : Extrinsic T → Extrinsic T → Type 0
  Disjoint x y = (k : T.CodeId) → Touches x k → ¬ Touches y k

  pub Apart-cases : (x y : Extrinsic T) → Apart x y → AreUploads x y ⊎ Disjoint x y
  Apart-cases (o, KontractsCall.upload_code code) (o', KontractsCall.upload_code code') apart =
      inl (o, code, o', code', refl, refl, λ e. apart.0 (T.hashing code') e refl)
  Apart-cases (_, KontractsCall.upload_code _) (_, KontractsCall.execute_code _ _ _ _ _) apart =
      inr apart.0
  Apart-cases (_, KontractsCall.upload_code _) (_, KontractsCall.delete_code _) apart = inr apart.0
  Apart-cases (_, KontractsCall.upload_code _) (_, KontractsCall.update_code _ _) apart =
      inr apart.0
  Apart-cases (_, KontractsCall.execute_code _ _ _ _ _) y apart = inr apart.0
  Apart-cases (_, KontractsCall.delete_code _) y apart = inr apart.0
  Apart-cases (_, KontractsCall.update_code _ _) y apart = inr apart.0

  pub Agree-sym : (x y : Extrinsic T) → Agree x y → Agree y x
  Agree-sym (_, KontractsCall.upload_code code) (_, KontractsCall.upload_code code') same = sym same
  Agree-sym (_, KontractsCall.upload_code _) (_, KontractsCall.execute_code _ _ _ _ _) n = absurd n
  Agree-sym (_, KontractsCall.upload_code _) (_, KontractsCall.delete_code _) n = absurd n
  Agree-sym (_, KontractsCall.upload_code _) (_, KontractsCall.update_code _ _) n = absurd n
  Agree-sym (_, KontractsCall.execute_code _ _ _ _ _) y n = absurd n
  Agree-sym (_, KontractsCall.delete_code _) y n = absurd n
  Agree-sym (_, KontractsCall.update_code _ _) y n = absurd n

  Agree-prop : (x y : Extrinsic T) → IsProp (Agree x y)
  Agree-prop (_, KontractsCall.upload_code code) (_, KontractsCall.upload_code code') = hlevel
  Agree-prop (_, KontractsCall.upload_code _) (_, KontractsCall.execute_code _ _ _ _ _) = hlevel
  Agree-prop (_, KontractsCall.upload_code _) (_, KontractsCall.delete_code _) = hlevel
  Agree-prop (_, KontractsCall.upload_code _) (_, KontractsCall.update_code _ _) = hlevel
  Agree-prop (_, KontractsCall.execute_code _ _ _ _ _) y = hlevel
  Agree-prop (_, KontractsCall.delete_code _) y = hlevel
  Agree-prop (_, KontractsCall.update_code _ _) y = hlevel

  pub Apart-sym : (x y : Extrinsic T) → Apart x y → Apart y x
  Apart-sym x y (ids, payers) = (λ k t u. Agree-sym x y (ids k u t), λ a p q. payers a q p)

  pub Apart-prop : (x y : Extrinsic T) → IsProp (Apart x y)
  Apart-prop x y = hlevel (Agree-prop x y)

  pub Touches-or_not : (x : Extrinsic T) (k : T.CodeId) → Touches x k ⊎ (¬ Touches x k)
  Touches-or_not (_, KontractsCall.upload_code code) k = either (T.code_id_eq (T.hashing code) k)
  Touches-or_not (_, KontractsCall.execute_code id _ _ _ _) k = either (T.code_id_eq id k)
  Touches-or_not (_, KontractsCall.delete_code id) k = either (T.code_id_eq id k)
  Touches-or_not (_, KontractsCall.update_code id code) k = elim (T.code_id_eq id k) [
    | yes e ↦ inl (inl e)
    | no ne ↦ elim (T.code_id_eq (T.hashing code) k) [
      | yes e ↦ inl (inr e)
      | no ne' ↦ inr (λ t. elim t [ inl e ↦ ne e | inr e ↦ ne' e ])
    ]
  ]

  is_signer :
      (origin : T.Origin) (a : T.AccountId)
      → (T.ensure_signed origin ≡ some a) ⊎ (T.ensure_signed origin ≢ some a)
  is_signer origin a = elim (Option-cases (T.ensure_signed origin)) [
    | inl unsigned ↦ inr (λ e. ground arith)
    | inr (b, signed) ↦ elim (T.account_id_eq b a) [
      | yes e ↦ inl (signed ∙ ap some e)
      | no ne ↦ inr (λ e. ground arith)
    ]
  ]

  pub Pays-or_not : (x : Extrinsic T) (a : T.AccountId) → Pays x a ⊎ (¬ Pays x a)
  Pays-or_not (_, KontractsCall.upload_code _) a = inr (λ p. p)
  Pays-or_not (origin, KontractsCall.execute_code _ _ _ _ _) a = is_signer origin a
  Pays-or_not (_, KontractsCall.delete_code _) a = inr (λ p. p)
  Pays-or_not (_, KontractsCall.update_code _ _) a = inr (λ p. p)

  -- A call that does not touch an id does not execute it, nor change its code.
  pub never_executes :
      (x : Extrinsic T) (k : T.CodeId) → (¬ Touches x k) → NeverExecutes T k (x ∷ [])
  never_executes (_, KontractsCall.upload_code code) k ne = (tt, tt)
  never_executes (_, KontractsCall.execute_code id _ _ _ _) k ne = (ne, tt)
  never_executes (_, KontractsCall.delete_code id) k ne = (tt, tt)
  never_executes (_, KontractsCall.update_code id code) k ne = (tt, tt)

  pub registered_by-untouched :
      (x : Extrinsic T) (k : T.CodeId) (old : Option Bytes)
      → (¬ Touches x k)
      → registered_by T k x old ≡ old
  registered_by-untouched (origin, KontractsCall.upload_code code) k old ne =
      elim (Bool-cases (is_signed T origin)) [
        | inr unsigned ↦ rw unsigned refl
        | inl signed ↦ rw signed (not_chosen (T.code_id_eq (T.hashing code) k) _ _ ne)
      ]
  registered_by-untouched (_, KontractsCall.execute_code _ _ _ _ _) k old ne = refl
  registered_by-untouched (origin, KontractsCall.delete_code id) k old ne =
      elim (Bool-cases (T.ensure_root origin)) [
        | inr refused ↦ rw refused refl
        | inl root ↦ rw root (not_chosen (T.code_id_eq id k) _ _ ne)
      ]
  registered_by-untouched (origin, KontractsCall.update_code id code) k old ne =
      elim (Bool-cases (T.ensure_root origin)) [
        | inr refused ↦ rw refused refl
        | inl root ↦ rw root (
            not_chosen (T.code_id_eq (T.hashing code) k) _ _ (λ e. ne (inr e))
            ∙ not_chosen (T.code_id_eq id k) _ _ (λ e. ne (inl e)))
      ]

  -- The same code and storage under every id, and the same balances of every account.
  pub record SameState (s t : State T) : Type 0 where
    pub codes : (k : T.CodeId) → T.codes.get s.codes k ≡ T.codes.get t.codes k
    pub storages : (k : T.CodeId) → T.storages.get s.storages k ≡ T.storages.get t.storages k
    pub balances : (a : T.AccountId) → EqualBalances T.currency a s.ledger t.ledger

  pub SameState-refl : (s : State T) → SameState s s
  SameState-refl s = record {
    codes = λ k. refl;
    storages = λ k. refl;
    balances = λ a. (refl, refl);
  }

  pub SameState-trans : {s t u : State T} → SameState s t → SameState t u → SameState s u
  SameState-trans p q = record {
    codes = λ k. p.codes k ∙ q.codes k;
    storages = λ k. p.storages k ∙ q.storages k;
    balances = λ a. ((p.balances a).0 ∙ (q.balances a).0, (p.balances a).1 ∙ (q.balances a).1);
  }

  pub SameState-prop : (s t : State T) → IsProp (SameState s t)
  SameState-prop s t = hlevel
