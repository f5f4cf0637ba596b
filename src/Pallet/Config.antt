-- ===== src/Pallet/Config.antt =====
-- `trait Config`, and what the pallet takes from FRAME: the repository holds none of that code, so
-- it is a parameter, with the documented behaviour that the pallet relies on as laws.
use kontracts.Prelude.{ℕ, ◌+◌, ◌-◌, ◌≤◌, ◌≡◌, ◌≢◌, Bool, Option, none, some, min}
use kontracts.Bytes.{Bytes}
use kontracts.Codec.{Bounds, Storage}

-- `StorageMap`
pub record StorageMap (K V : Type 0) : Type 1 where
  pub Map : Type 0
  pub get : Map → K → Option V
  pub insert : Map → K → V → Map
  pub remove : Map → K → Map

pub record IsStorageMap {K V : Type 0} (M : StorageMap K V) : Type 0 where
  pub get-insert_self : (m : M.Map) (k : K) (v : V) → M.get (M.insert m k v) k ≡ some v
  pub get-insert_ne : (m : M.Map) (k j : K) (v : V) → k ≢ j → M.get (M.insert m k v) j ≡ M.get m j
  pub get-remove_self : (m : M.Map) (k : K) → M.get (M.remove m k) k ≡ none
  pub get-remove_ne : (m : M.Map) (k j : K) → k ≢ j → M.get (M.remove m k) j ≡ M.get m j

-- `Currency + ReservableCurrency`: the balances, and the three operations that the pallet calls.
-- `reserve` is `none` on an error; what `unreserve` and `slash` return is dropped.
pub record Currency (AccountId : Type 0) : Type 1 where
  pub Ledger : Type 0
  pub free : Ledger → AccountId → ℕ
  pub reserved : Ledger → AccountId → ℕ
  pub reserve : Ledger → AccountId → ℕ → Option Ledger
  pub unreserve : Ledger → AccountId → ℕ → Ledger
  pub slash : Ledger → AccountId → ℕ → Ledger

abbrev pub total : {A : Type 0} (B : Currency A) → B.Ledger → A → ℕ
total B l a = B.free l a + B.reserved l a

pub record IsCurrency {A : Type 0} (B : Currency A) : Type 0 where
  -- a reservation moves its amount from the free to the reserved balance, or fails
  pub free-reserve :
      (l l' : B.Ledger) (a : A) (n : ℕ) → B.reserve l a n ≡ some l' → B.free l' a + n ≡ B.free l a
  pub reserved-reserve :
      (l l' : B.Ledger) (a : A) (n : ℕ)
      → B.reserve l a n ≡ some l'
      → B.reserved l' a ≡ B.reserved l a + n
  -- what is released is moved back, up to what is reserved
  pub free-unreserve :
      (l : B.Ledger) (a : A) (n : ℕ)
      → B.free (B.unreserve l a n) a ≡ B.free l a + min n (B.reserved l a)
  pub reserved-unreserve :
      (l : B.Ledger) (a : A) (n : ℕ)
      → B.reserved (B.unreserve l a n) a ≡ B.reserved l a - min n (B.reserved l a)
  -- a slash takes at most its amount, and adds nothing
  pub total-slash_le : (l : B.Ledger) (a : A) (n : ℕ) → total B (B.slash l a n) a ≤ total B l a
  pub le-total-slash : (l : B.Ledger) (a : A) (n : ℕ) → total B l a ≤ total B (B.slash l a n) a + n
  -- each of them leaves the other accounts alone
  pub reserve_others :
      (l l' : B.Ledger) (a b : A) (n : ℕ)
      → a ≢ b
      → B.reserve l a n ≡ some l'
      → (B.free l' b ≡ B.free l b) × (B.reserved l' b ≡ B.reserved l b)
  pub unreserve_others :
      (l : B.Ledger) (a b : A) (n : ℕ)
      → a ≢ b
      → (B.free (B.unreserve l a n) b ≡ B.free l b)
        × (B.reserved (B.unreserve l a n) b ≡ B.reserved l b)
  pub slash_others :
      (l : B.Ledger) (a b : A) (n : ℕ)
      → a ≢ b
      → (B.free (B.slash l a n) b ≡ B.free l b) × (B.reserved (B.slash l a n) b ≡ B.reserved l b)

-- The items of the trait that the calls use. `bounds` are `MaxKontracStorageKeySize`,
-- `MaxKontracStorageValueSize` and `MaxKontracStorageSize`; the bound on the size of a code is kept
-- by the type of the argument, and `MaxNumberContracts` is used nowhere.
pub record Config : Type 1 where
  pub AccountId : Type 0
  pub CodeId : Type 0
  pub Origin : Type 0
  pub code_id_eq : Discrete CodeId
  pub account_id_eq : Discrete AccountId
  pub ensure_signed : Origin → Option AccountId
  pub ensure_root : Origin → Bool
  pub currency : Currency AccountId
  pub codes : StorageMap CodeId Bytes
  pub storages : StorageMap CodeId Storage
  pub hashing : Bytes → CodeId
  pub bounds : Bounds

pub record IsConfig (T : Config) : Type 0 where
  pub currency : IsCurrency T.currency
  pub codes : IsStorageMap T.codes
  pub storages : IsStorageMap T.storages
