-- ===== src/Pallet/Effects.antt =====
-- All that an execution can do to the state, whatever the engine, the kontract and the numbers.
use kontracts.Prelude.{
  ℕ, ◌≡◌, ◌≢◌, ◌⊎◌, inl, inr, refl, true, false, Bool-cases, none, some, Option-cases, arith, ◌∷◌,
}
use kontracts.Prelude.Int.{ℤ, pos, leb_ℤ, ltb_ℤ, as_u32, neg32, sub32}
use kontracts.Prelude.Outcome.{Outcome, ok, err, Outcome-cases}
use kontracts.Bytes.{Bytes}
use kontracts.Codec.{Codec, Storage}
use kontracts.Executor.Execute.{Engine}
use kontracts.Executor.Execute
use kontracts.Pallet.Config.{Config}
use kontracts.Pallet.State.{State, DispatchError, module_error, deposit_error, exceeded_storage}
use kontracts.Pallet.Calls.{
  is_zero, or_default, get_storage_size, keep_storage, settle, execute_code,
}

-- What one use of the currency does to the ledger.
pub data Moved (T : Config) (who : T.AccountId) (l : T.currency.Ledger)
    : T.currency.Ledger → Type 0 where
  same : Moved T who l l
  reserved :
      (n : ℕ) {l' : T.currency.Ledger} → T.currency.reserve l who n ≡ some l' → Moved T who l l'
  released : (n : ℕ) → Moved T who l (T.currency.unreserve l who n)
  slashed : (n : ℕ) → Moved T who l (T.currency.slash l who n)

-- It takes nothing away.
abbrev pub IsFair :
    {T : Config} {who : T.AccountId} {l l' : T.currency.Ledger} → Moved T who l l' → Type 0
IsFair same = Unit {0}
IsFair (reserved n e) = Unit {0}
IsFair (released n) = Unit {0}
IsFair (slashed n) = ⊥

pub record Effects (T : Config) (C : Codec) (who : T.AccountId) (code_id : T.CodeId) (s t : State T)
    : Type 0 where
  pub codes : t.codes ≡ s.codes
  pub storages :
      (t.storages ≡ s.storages)
      ⊎ ((raw : Bytes) × (d : Storage × Bytes) × (C.decode_bounded T.bounds raw ≡ some d)
          × (t.storages ≡ T.storages.insert s.storages code_id d.0))
  pub ledger : Moved T who s.ledger t.ledger

module _ (T : Config) (C : Codec) (who : T.AccountId) (code_id : T.CodeId) where
  keep_storage-Effects :
      (raw : Bytes) (s : State T) (l : T.currency.Ledger)
      → Moved T who s.ledger l
      → Effects T C who code_id s (keep_storage T C who code_id raw (record s { ledger = l })).1
  unfolding keep_storage
  keep_storage-Effects raw s l moved = elim (Option-cases (C.decode_bounded T.bounds raw)) [
    | inl e ↦ rw (e, keep_storage) (record { codes = refl; storages = inl refl; ledger = moved })
    | inr (d, e) ↦
        rw (e, keep_storage)
          (record { codes = refl; storages = inr (raw, d, e, refl); ledger = moved })
  ]

  pub reserve_refused :
      (x expected : ℤ) (raw : Bytes) (s : State T)
      → is_zero x ≡ false
      → leb_ℤ x expected ≡ true
      → ltb_ℤ x (pos 0) ≡ false
      → T.currency.reserve s.ledger who (as_u32 x) ≡ none
      → settle T C who code_id x expected raw s ≡ (err (module_error deposit_error), s)
  unfolding settle
  reserve_refused x expected raw s change declared positive refused = ground arith

  pub reserve_done :
      (x expected : ℤ) (raw : Bytes) (s : State T) (l : T.currency.Ledger)
      → is_zero x ≡ false
      → leb_ℤ x expected ≡ true
      → ltb_ℤ x (pos 0) ≡ false
      → T.currency.reserve s.ledger who (as_u32 x) ≡ some l
      → settle T C who code_id x expected raw s
        ≡ keep_storage T C who code_id raw (record s { ledger = l })
  unfolding settle
  reserve_done x expected raw s l change declared positive done = ground arith

  -- The ways for a settlement to end.
  pub data Ends (raw : Bytes) (s : State T)
      : Outcome DispatchError (Unit {0}) × State T → Type 0 where
    keeps :
        (l : T.currency.Ledger)
        → (moved : Moved T who s.ledger l) → IsFair moved
        → Ends raw s (keep_storage T C who code_id raw (record s { ledger = l }))
    refuses : Ends raw s (err (module_error deposit_error), s)
    fines :
        (n : ℕ)
        → Ends raw s (
          ok tt,
          record s {
            ledger = T.currency.slash s.ledger who n;
            events = exceeded_storage code_id who ∷ s.events;
          },
        )

  pub settle-Ends :
      (x expected : ℤ) (raw : Bytes) (s : State T)
      → Ends raw s (settle T C who code_id x expected raw s)
  unfolding settle
  settle-Ends x expected raw s = elim (Bool-cases (is_zero x)) [
    | inl zero_change ↦ rw zero_change (keeps s.ledger same tt)
    | inr change ↦ elim (Bool-cases (leb_ℤ x expected)) [
      | inl declared ↦ elim (Bool-cases (ltb_ℤ x (pos 0))) [
        | inl negative ↦ rw (change, declared, negative) (keeps _ (released (as_u32 (neg32 x))) tt)
        | inr positive ↦ elim (Option-cases (T.currency.reserve s.ledger who (as_u32 x))) [
          | inl refused ↦
              rw (reserve_refused x expected raw s change declared positive refused) refuses
          | inr (l, done) ↦
              rw (reserve_done x expected raw s l change declared positive done)
                (keeps l (reserved (as_u32 x) done) tt)
        ]
      ]
      | inr undeclared ↦ rw (change, undeclared) (fines (as_u32 x))
    ]
  ]

  Ends-Effects :
      (raw : Bytes) (s : State T) {r : Outcome DispatchError (Unit {0}) × State T}
      → Ends raw s r
      → Effects T C who code_id s r.1
  Ends-Effects raw s (keeps l moved fair) = keep_storage-Effects raw s l moved
  Ends-Effects raw s refuses = record { codes = refl; storages = inl refl; ledger = same }
  Ends-Effects raw s (fines n) = record { codes = refl; storages = inl refl; ledger = slashed n }

  pub settle-Effects :
      (x expected : ℤ) (raw : Bytes) (s : State T)
      → Effects T C who code_id s (settle T C who code_id x expected raw s).1
  settle-Effects x expected raw s = Ends-Effects raw s (settle-Ends x expected raw s)

module _ (T : Config) (E : Engine) (C : Codec) (blake2 : Bytes → Bytes) where
  -- The call returns before the settlement and has changed nothing, or it ends as the settlement
  -- of a signed caller and of what the executor returned does.
  pub execute_code-source :
      (origin : T.Origin) (code_id : T.CodeId) (expected : ℤ) (fuel max_read max_write : ℕ)
      (s : State T)
      → let result = execute_code T E C blake2 origin code_id expected fuel max_read max_write s in
        let input = C.encode_map (or_default (T.storages.get s.storages code_id)) in
        ((result.1 ≡ s) × (result.0 ≢ ok tt))
        ⊎ ((who : T.AccountId) × (x : ℤ) × (raw : Bytes) × (code : Bytes) × (T.ensure_signed origin
              ≡ some who)
            × (Execute.execute_code E C blake2 code input fuel max_read max_write ≡ ok raw)
            × (result ≡ settle T C who code_id x expected raw s))
  unfolding execute_code
  execute_code-source origin code_id expected fuel max_read max_write s =
      elim (Option-cases (T.ensure_signed origin)) [
        | inl e ↦ inl (ground arith, ground arith)
        | inr (who, signed) ↦ elim (Option-cases (T.codes.get s.codes code_id)) [
          | inl e ↦ inl (ground arith, ground arith)
          | inr (code, known) ↦
              let m = or_default (T.storages.get s.storages code_id) in
              let raw = C.encode_map m in
              elim (Outcome-cases (get_storage_size C raw)) [
                | inl (old, e₁) ↦
                    elim (Outcome-cases
                      (Execute.execute_code E C blake2 code raw fuel max_read max_write)) [
                        | inl (raw', e₂) ↦ elim (Outcome-cases (get_storage_size C raw')) [
                          | inl (new, e₃) ↦
                              inr (who, sub32 new old, raw', code, signed, e₂, ground arith)
                          | inr e₃ ↦ inl (ground arith, ground arith)
                        ]
                        | inr e₂ ↦ inl (ground arith, ground arith)
                      ]
                | inr e₁ ↦ inl (ground arith, ground arith)
              ]
        ]
      ]

  -- The call returns before the settlement and has changed nothing, or it ends as the settlement
  -- of a signed caller does.
  pub execute_code-settle :
      (origin : T.Origin) (code_id : T.CodeId) (expected : ℤ) (fuel max_read max_write : ℕ)
      (s : State T)
      → let result = execute_code T E C blake2 origin code_id expected fuel max_read max_write s in
        ((result.1 ≡ s) × (result.0 ≢ ok tt))
        ⊎ ((who : T.AccountId) × (x : ℤ) × (raw : Bytes) × (T.ensure_signed origin ≡ some who)
            × (result ≡ settle T C who code_id x expected raw s))
  execute_code-settle origin code_id expected fuel max_read max_write s =
      elim (execute_code-source origin code_id expected fuel max_read max_write s) [
        | inl early ↦ inl early
        | inr (who, x, raw, _, signed, _, settled) ↦ inr (who, x, raw, signed, settled)
      ]

  -- What a successful call has found and run.
  pub execute_code-ran :
      (origin : T.Origin) (code_id : T.CodeId) (expected : ℤ) (fuel max_read max_write : ℕ)
      (s : State T)
      → (execute_code T E C blake2 origin code_id expected fuel max_read max_write s).0 ≡ ok tt
      → (who : T.AccountId) × (code : Bytes) × (raw : Bytes) × (T.ensure_signed origin ≡ some who)
        × (T.codes.get s.codes code_id ≡ some code)
        × (Execute.execute_code E C blake2 code
              (C.encode_map (or_default (T.storages.get s.storages code_id)))
              fuel
              max_read
              max_write
            ≡ ok raw)
  unfolding execute_code
  execute_code-ran origin code_id expected fuel max_read max_write s h =
      elim (Option-cases (T.ensure_signed origin)) [
        | inl e ↦ absurd (ground arith)
        | inr (who, signed) ↦ elim (Option-cases (T.codes.get s.codes code_id)) [
          | inl e ↦ absurd (ground arith)
          | inr (code, known) ↦
              let raw = C.encode_map (or_default (T.storages.get s.storages code_id)) in
              elim (Outcome-cases (get_storage_size C raw)) [
                | inl (old, e₁) ↦
                    elim (Outcome-cases
                      (Execute.execute_code E C blake2 code raw fuel max_read max_write)) [
                        | inl (raw', ran) ↦ (who, code, raw', signed, known, ran)
                        | inr failed ↦ absurd (ground arith)
                      ]
                | inr failed ↦ absurd (ground arith)
              ]
        ]
      ]
