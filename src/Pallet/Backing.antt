-- ===== src/Pallet/Backing.antt =====
-- Whether the deposits on a chain cover its storages.
use kontracts.Prelude.{
  ℕ, ◌+◌, ◌-◌, ◌≤◌, ◌≡◌, ◌≢◌, ap, inl, inr, Bool-cases, some, Option-cases, List, ◌∷◌, arith,
}
use kontracts.Prelude.Int.{ℤ}
use kontracts.Prelude.Outcome.{ok}
use kontracts.Prelude.Sums.{Has, Distinct, sum, sum-change}
use kontracts.Bytes.{bytes_ord}
use kontracts.Codec.{Codec, Storage, size, within}
use kontracts.Pallet.Config.{Config, IsConfig}
use kontracts.Pallet.State.{State, code_executed}
use kontracts.Pallet.Calls.{or_default}
use kontracts.Pallet.Settlement.{settlement, settled, Settlement, nothing, refund, deposit, fine}

-- The deposits of the accounts are at least the sizes of the storages.
abbrev pub Backed : (T : Config) → Codec → List T.CodeId → List T.AccountId → State T → Type 0
Backed T C ids accounts s =
    sum (λ j. size C (or_default (T.storages.get s.storages j))) ids
    ≤ sum (λ a. T.currency.reserved s.ledger a) accounts

module _ (T : Config) (who : T.AccountId) (code_id : T.CodeId) (m : Storage) (s : State T) where
  -- The ledger after a settlement that keeps the storage.
  abbrev pub LedgerOf : Settlement → T.currency.Ledger → Type 0
  LedgerOf nothing l = l ≡ s.ledger
  LedgerOf (refund n) l = l ≡ T.currency.unreserve s.ledger who n
  LedgerOf (deposit n) l = T.currency.reserve s.ledger who n ≡ some l
  LedgerOf (fine n) l = ⊥

  -- A settlement that succeeds with `CodeExecuted` has kept the storage.
  pub settled-keeps :
      {t : State T} (x : Settlement)
      → settled T who code_id m s x ≡ (ok tt, t)
      → t.events ≡ code_executed code_id who ∷ s.events
      → (t.storages ≡ T.storages.insert s.storages code_id m) × LedgerOf x t.ledger
  settled-keeps nothing h e = elim (Bool-cases (within T.bounds m)) [
    | inl keeps ↦ ground arith
    | inr breaks ↦ absurd (ground arith)
  ]
  settled-keeps (refund n) h e = elim (Bool-cases (within T.bounds m)) [
    | inl keeps ↦ ground arith
    | inr breaks ↦ absurd (ground arith)
  ]
  settled-keeps (deposit n) h e = elim (Option-cases (T.currency.reserve s.ledger who n)) [
    | inl refused ↦ absurd (ground arith)
    | inr (l, done) ↦ elim (Bool-cases (within T.bounds m)) [
      | inl keeps ↦ ground arith
      | inr breaks ↦ absurd (ground arith)
    ]
  ]
  settled-keeps (fine n) h e = absurd (ground arith)

module _ (T : Config) (L : IsConfig T) (who : T.AccountId) (s : State T) where
  -- It moves the caller's deposit by at least the change of the size.
  pub ledger-covers :
      (code_id : T.CodeId) (m : Storage) (old new : ℕ) (expected : ℤ) (l : T.currency.Ledger)
      → LedgerOf T who code_id m s (settlement old new expected) l
      → new + T.currency.reserved s.ledger who ≤ T.currency.reserved l who + old
  ledger-covers code_id m old new expected l h = ground (
    arith,
    L.currency.reserved-unreserve s.ledger who (old - new),
    L.currency.reserved-reserve s.ledger l who (new - old),
  )

  -- And no other's.
  pub ledger_others :
      (code_id : T.CodeId) (m : Storage) (x : Settlement) (l : T.currency.Ledger)
      → LedgerOf T who code_id m s x l
      → (a : T.AccountId) → who ≢ a
      → T.currency.reserved l a ≡ T.currency.reserved s.ledger a
  ledger_others code_id m nothing l h a ne = ap (λ k. T.currency.reserved k a) h
  ledger_others code_id m (refund n) l h a ne =
      rw h (L.currency.unreserve_others s.ledger who a n ne).1
  ledger_others code_id m (deposit n) l h a ne =
      (L.currency.reserve_others s.ledger l who a n ne h).1
  ledger_others code_id m (fine n) l h a ne = absurd h

module _ (T : Config) (L : IsConfig T) (C : Codec) (ids : List T.CodeId)
    (accounts : List T.AccountId) (distinct_ids : Distinct ids)
    (distinct_accounts : Distinct accounts) where
  -- One id's storage is replaced, and one account's deposit follows.
  pub Backed-replace :
      (s t : State T) (who : T.AccountId) (code_id : T.CodeId) (m : Storage)
      → Has code_id ids
      → Has who accounts
      → t.storages ≡ T.storages.insert s.storages code_id m
      → size C m + T.currency.reserved s.ledger who
        ≤ T.currency.reserved t.ledger who + size C (or_default (T.storages.get s.storages code_id))
      → ((a : T.AccountId)
          → who ≢ a
          → T.currency.reserved t.ledger a ≡ T.currency.reserved s.ledger a)
      → Backed T C ids accounts s
      → Backed T C ids accounts t
  Backed-replace s t who code_id m has_id has_who stored covers others backed =
      let size_at =
        λ (u : State T) (j : T.CodeId). size C (or_default (T.storages.get u.storages j)) in
      let reserved_by = λ (u : State T) (a : T.AccountId). T.currency.reserved u.ledger a in
      let here : size_at t code_id ≡ size C m =
        rw stored
          (ap (λ o. size C (or_default o)) (L.storages.get-insert_self s.storages code_id m)) in
      let elsewhere : (j : T.CodeId) → code_id ≢ j → size_at t j ≡ size_at s j = λ j ne.
        rw stored
          (ap (λ o. size C (or_default o)) (L.storages.get-insert_ne s.storages code_id j m ne)) in
      let sizes = sum-change (size_at s) (size_at t) code_id elsewhere ids distinct_ids has_id in
      let deposits =
        sum-change (reserved_by s) (reserved_by t) who others accounts distinct_accounts has_who in
      omega (arith, here, sizes, deposits)
