-- ===== src/Tests/Chain.antt =====
-- A small chain: numbers for accounts and codes, functions for the maps and the balances.
use native.Mathlib.Decide.{ℕ_discrete}
use kontracts.Prelude.{
  ℕ, ◌+◌, ◌-◌, ◌*◌, ◌%◌, Bool, true, false, Option, none, some, [], ◌∷◌, arith, min, leb, ◌==◌,
  if◌then◌else◌,
}
use kontracts.Bytes.{Bytes}
use kontracts.Codec.{Storage}
use kontracts.Runtime.{runtime_bounds}
use kontracts.Pallet.Local.{IsLocal}
use kontracts.Pallet.Config.{StorageMap, IsStorageMap, Currency, IsCurrency, Config, IsConfig}

abbrev updated {ℓ} : {A : Type ℓ} → (ℕ → A) → ℕ → A → ℕ → A
updated f k a j = if j == k then a else f j

abbrev map_by_function : (V : Type 0) → StorageMap ℕ V
map_by_function V = record {
  Map = ℕ → Option V;
  get = λ m k. m k;
  insert = λ m k v. updated m k (some v);
  remove = λ m k. updated m k none;
}

map_by_function-IsStorageMap : (V : Type 0) → IsStorageMap (map_by_function V)
map_by_function-IsStorageMap V = record {
  get-insert_self = λ m k v. ground arith;
  get-insert_ne = λ m k j v ne. ground arith;
  get-remove_self = λ m k. ground arith;
  get-remove_ne = λ m k j ne. ground arith;
}

-- The free and the reserved balance of each account. A slash takes the free balance first.
abbrev pub Ledger : Type 0
Ledger = ℕ → ℕ × ℕ

abbrev try_reserve : Ledger → ℕ → ℕ → Option Ledger
try_reserve l a n = if leb n (l a).0 then some (updated l a ((l a).0 - n, (l a).1 + n)) else none

abbrev release : Ledger → ℕ → ℕ → Ledger
release l a n = updated l a ((l a).0 + min n (l a).1, (l a).1 - min n (l a).1)

abbrev take_away : Ledger → ℕ → ℕ → Ledger
take_away l a n = updated l a ((l a).0 - n, (l a).1 - (n - (l a).0))

abbrev balances : Currency ℕ
balances = record {
  Ledger = Ledger;
  free = λ l a. (l a).0;
  reserved = λ l a. (l a).1;
  reserve = try_reserve;
  unreserve = release;
  slash = take_away;
}

balances-IsCurrency : IsCurrency balances
balances-IsCurrency = record {
  free-reserve = λ l l' a n h. ground arith;
  reserved-reserve = λ l l' a n h. ground arith;
  free-unreserve = λ l a n. ground arith;
  reserved-unreserve = λ l a n. ground arith;
  total-slash_le = λ l a n. ground arith;
  le-total-slash = λ l a n. ground arith;
  reserve_others = λ l l' a b n ne h. ground arith;
  unreserve_others = λ l a b n ne. ground arith;
  slash_others = λ l a b n ne. ground arith;
}

pub balances-IsLocal : IsLocal balances
balances-IsLocal = record {
  reserve_fails = λ l l' a n equal h. ground arith;
  slash_takes = λ l l' a n equal. ground arith;
}

pub data Origin : Type 0 where
  signed_by : ℕ → Origin
  root unsigned : Origin

abbrev ensure_signed : Origin → Option ℕ
ensure_signed (signed_by a) = some a
ensure_signed root = none
ensure_signed unsigned = none

abbrev ensure_root : Origin → Bool
ensure_root (signed_by a) = false
ensure_root root = true
ensure_root unsigned = false

abbrev pub digest : Bytes → ℕ
digest [] = 0
digest (b ∷ bs) = (b + 1 + 257 * digest bs) % 1000003

abbrev pub chain : Config
chain = record {
  AccountId = ℕ;
  CodeId = ℕ;
  Origin = Origin;
  code_id_eq = ℕ_discrete;
  account_id_eq = ℕ_discrete;
  ensure_signed = ensure_signed;
  ensure_root = ensure_root;
  currency = balances;
  codes = map_by_function Bytes;
  storages = map_by_function Storage;
  hashing = digest;
  bounds = runtime_bounds;
}

pub chain-IsConfig : IsConfig chain
chain-IsConfig = record {
  currency = balances-IsCurrency;
  codes = map_by_function-IsStorageMap Bytes;
  storages = map_by_function-IsStorageMap Storage;
}
