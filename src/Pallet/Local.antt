-- ===== src/Pallet/Local.antt =====
-- What an execution reads of the state: its code, the storage of that code, and the balances of
-- its signer.
pub mod Execution
use kontracts.Prelude.{
  ℕ, ◌+◌, ◌-◌, ◌≡◌, ◌≢◌, ◌⊎◌, refl, sym, ◌∙◌, ap, inl, inr, true, false, Bool-cases, Option, none,
  some, Option-cases, arith, ◌∷◌, min,
}
use kontracts.Prelude.Int.{ℤ, pos, leb_ℤ, ltb_ℤ, as_u32, neg32, sub32}
use kontracts.Prelude.Outcome.{Outcome, ok, err, panic, ok_or, map_err, Outcome-cases}
use kontracts.Bytes.{Bytes}
use kontracts.Codec.{Codec, Storage}
use kontracts.Executor.Execute.{Engine}
use kontracts.Executor.Execute
use kontracts.Pallet.Config.{Currency, IsCurrency, Config, IsConfig}
use kontracts.Pallet.State.{
  State, DispatchError, Call, lift, ◌>>=◌, bad_origin, module_error, invalid_code_id,
  execution_code,
}
use kontracts.Pallet.Calls.{
  is_zero, or_default, get_storage_size, keep_storage, settle, execute_code,
}
use kontracts.Pallet.Effects.{reserve_refused, reserve_done}

-- The account has the same balances in both ledgers.
abbrev pub EqualBalances : {A : Type 0} (B : Currency A) → A → B.Ledger → B.Ledger → Type 0
EqualBalances B a l l' = (B.free l a ≡ B.free l' a) × (B.reserved l a ≡ B.reserved l' a)

-- Whether a reservation fails, and what a slash takes, is decided by the account's balances.
pub record IsLocal {A : Type 0} (B : Currency A) : Type 0 where
  pub reserve_fails :
      (l l' : B.Ledger) (a : A) (n : ℕ)
      → EqualBalances B a l l'
      → B.reserve l a n ≡ none
      → B.reserve l' a n ≡ none
  pub slash_takes :
      (l l' : B.Ledger) (a : A) (n : ℕ)
      → EqualBalances B a l l'
      → EqualBalances B a (B.slash l a n) (B.slash l' a n)

module _ {A : Type 0} {B : Currency A} (L : IsCurrency B) where
  EqualBalances-unreserve :
      (l l' : B.Ledger) (a : A) (n : ℕ)
      → EqualBalances B a l l'
      → EqualBalances B a (B.unreserve l a n) (B.unreserve l' a n)
  EqualBalances-unreserve l l' a n (free, reserved) = (
    grind (arith, L.free-unreserve l a n, L.free-unreserve l' a n),
    grind (arith, L.reserved-unreserve l a n, L.reserved-unreserve l' a n),
  )

  EqualBalances-reserve :
      (l l' m m' : B.Ledger) (a : A) (n : ℕ)
      → EqualBalances B a l l'
      → B.reserve l a n ≡ some m
      → B.reserve l' a n ≡ some m'
      → EqualBalances B a m m'
  EqualBalances-reserve l l' m m' a n (free, reserved) done done' = (
    omega (arith, L.free-reserve l m a n done, L.free-reserve l' m' a n done'),
    omega (arith, L.reserved-reserve l m a n done, L.reserved-reserve l' m' a n done'),
  )

module _ (T : Config) (id : T.CodeId) (origin : T.Origin) where
  -- Two states that an execution of `id` by the signer of `origin` does not tell apart.
  pub record Alike (s t : State T) : Type 0 where
    pub codes : T.codes.get s.codes id ≡ T.codes.get t.codes id
    pub storages : T.storages.get s.storages id ≡ T.storages.get t.storages id
    pub balances :
        (a : T.AccountId)
        → T.ensure_signed origin ≡ some a
        → EqualBalances T.currency a s.ledger t.ledger

  -- Two runs that end alike.
  abbrev pub EndAlike :
      Outcome DispatchError (Unit {0}) × State T
      → Outcome DispatchError (Unit {0}) × State T
      → Type 0
  EndAlike p q = (p.0 ≡ q.0) × Alike p.1 q.1

module _ (T : Config) (L : IsConfig T) (local : IsLocal T.currency) (C : Codec) (id : T.CodeId)
    (origin : T.Origin) (who : T.AccountId) (signed : T.ensure_signed origin ≡ some who) where
  with_ledger :
      (s t : State T) (l l' : T.currency.Ledger)
      → Alike T id origin s t
      → EqualBalances T.currency who l l'
      → Alike T id origin (record s { ledger = l }) (record t { ledger = l' })
  with_ledger s t l l' alike equal = record {
    codes = alike.codes;
    storages = alike.storages;
    balances = λ a signed'. let same : who ≡ a = ground arith in rw (← same) equal;
  }

  keep_storage-Alike :
      (raw : Bytes) (s t : State T)
      → Alike T id origin s t
      → EndAlike T id origin (keep_storage T C who id raw s) (keep_storage T C who id raw t)
  unfolding keep_storage
  keep_storage-Alike raw s t alike = elim (Option-cases (C.decode_bounded T.bounds raw)) [
    | inl e ↦ rw e (refl, alike)
    | inr (d, e) ↦ rw e (
      refl,
      record {
        codes = alike.codes;
        storages =
            L.storages.get-insert_self s.storages id d.0
            ∙ sym (L.storages.get-insert_self t.storages id d.0);
        balances = alike.balances;
      },
    )
  ]

  reserve-Alike :
      (x expected : ℤ) (raw : Bytes) (s t : State T)
      → Alike T id origin s t
      → is_zero x ≡ false
      → leb_ℤ x expected ≡ true
      → ltb_ℤ x (pos 0) ≡ false
      → EndAlike T id origin
          (settle T C who id x expected raw s)
          (settle T C who id x expected raw t)
  reserve-Alike x expected raw s t alike change declared positive =
      let n = as_u32 x in
      let equal = alike.balances who signed in
      elim (Option-cases (T.currency.reserve s.ledger who n)) [
        | inl refused ↦
            let refused' = local.reserve_fails s.ledger t.ledger who n equal refused in
            rw (reserve_refused T C who id x expected raw s change declared positive refused) (
              rw (reserve_refused T C who id x expected raw t change declared positive refused')
                (refl, alike))
        | inr (l, done) ↦ elim (Option-cases (T.currency.reserve t.ledger who n)) [
          | inl refused' ↦
              let refused =
                local.reserve_fails t.ledger s.ledger who n (sym equal.0, sym equal.1) refused' in
              absurd (ground arith)
          | inr (l', done') ↦
              rw (reserve_done T C who id x expected raw s l change declared positive done) (
                rw (reserve_done T C who id x expected raw t l' change declared positive done') (
                  keep_storage-Alike raw _ _ (
                    with_ledger s t l l' alike (
                      EqualBalances-reserve L.currency s.ledger t.ledger l l' who n equal done
                        done'))))
        ]
      ]

  pub settle-Alike :
      (x expected : ℤ) (raw : Bytes) (s t : State T)
      → Alike T id origin s t
      → EndAlike T id origin
          (settle T C who id x expected raw s)
          (settle T C who id x expected raw t)
  unfolding settle
  settle-Alike x expected raw s t alike =
      let equal = alike.balances who signed in
      elim (Bool-cases (is_zero x)) [
        | inl zero_change ↦ rw zero_change (keep_storage-Alike raw s t alike)
        | inr change ↦ elim (Bool-cases (leb_ℤ x expected)) [
          | inl declared ↦ elim (Bool-cases (ltb_ℤ x (pos 0))) [
            | inl negative ↦
                rw (change, declared, negative)
                  (keep_storage-Alike raw _ _ (
                    with_ledger s t _ _ alike (
                      EqualBalances-unreserve L.currency s.ledger t.ledger who (as_u32 (neg32 x))
                        equal)))
            | inr positive ↦ reserve-Alike x expected raw s t alike change declared positive
          ]
          | inr undeclared ↦
              let taken = local.slash_takes s.ledger t.ledger who (as_u32 x) equal in
              let left = with_ledger s t _ _ alike taken in
              rw (change, undeclared)
                (
                  refl,
                  record { codes = left.codes; storages = left.storages; balances = left.balances },
                )
        ]
      ]
