-- ===== src/Executor/Store.antt =====
-- `KontractStore` and the three operations on it of `mod kontracts_host_function`.
use kontracts.Prelude.{
  ℕ, ◌≡◌, refl, ◌⊎◌, inl, inr, ◌+◌, ◌%◌, ◌^◌, String, Bool, true, false, Option, leb, if◌then◌else◌,
}
use kontracts.Prelude.Outcome.{Outcome, ok, err, panic}
use kontracts.Bytes.{Bytes, bytes_ord}
use kontracts.BTreeMap
use kontracts.Codec.{Storage}

pub record KontractStore : Type 0 where
  pub max_n_read : ℕ
  pub max_n_write : ℕ
  pub curr_n_read : ℕ
  pub curr_n_write : ℕ
  pub storage : Storage

-- A `wasmtime::Trap` by what it displays.
abbrev pub Trap : Type 0
Trap = String

-- What a host function reaches through `Caller`: the store's data, and the linear memory that
-- the module exports as "memory", if it does.
pub record Caller : Type 0 where
  pub data_mut : KontractStore
  pub memory : Option Bytes

-- A host function changes what it reaches until it traps or panics.
abbrev pub Host : Type 0 → Type 0
Host A = Caller → Outcome Trap A × Caller

infixl 5 ◌>>=◌ ◌>>◌
abbrev pub ◌>>=◌ : {A B : Type 0} → Host A → (A → Host B) → Host B
◌>>=◌ m f c =
    let (r, c') = m c in elim r [ ok a ↦ f a c' | err t ↦ (err t, c') | panic ↦ (panic, c') ]

abbrev pub ◌>>◌ : {A B : Type 0} → Host A → Host B → Host B
m >> k = m >>= λ _. k

-- The three ways in which a host function ends, with where it leaves the store.
pub Host-cases :
    {A : Type 0} (x : Outcome Trap A × Caller)
    → ((a : A) × (c : Caller) × (x ≡ (ok a, c)))
      ⊎ ((t : Trap) × (c : Caller) × (x ≡ (err t, c)))
      ⊎ ((c : Caller) × (x ≡ (panic, c)))
Host-cases (ok a, c) = inl (a, c, refl)
Host-cases (err t, c) = inr (inl (t, c, refl))
Host-cases (panic, c) = inr (inr (c, refl))

-- `x` is a `u32`, whose sum wraps where overflow is not checked.
unfoldable pub update_with_check : ℕ → ℕ → Bool → Outcome Trap ℕ
update_with_check val max r_or_w =
    let x = (val + 1) % 2 ^ 32 in
    if leb x max then ok x else err (if r_or_w then "ExceededWrites" else "ExceededReads")

unfoldable pub count_write : Host (Unit {0})
unfolding update_with_check
count_write c = elim (update_with_check c.data_mut.curr_n_write c.data_mut.max_n_write true) [
  | ok x ↦ (ok tt, record c { data_mut = record c.data_mut { curr_n_write = x } })
  | err t ↦ (err t, c)
  | panic ↦ (panic, c)
]

unfoldable pub count_read : Host (Unit {0})
unfolding update_with_check
count_read c = elim (update_with_check c.data_mut.curr_n_read c.data_mut.max_n_read false) [
  | ok x ↦ (ok tt, record c { data_mut = record c.data_mut { curr_n_read = x } })
  | err t ↦ (err t, c)
  | panic ↦ (panic, c)
]

abbrev pub update_storage : (Storage → Storage) → Host (Unit {0})
update_storage f c =
    (ok tt, record c { data_mut = record c.data_mut { storage = f c.data_mut.storage } })

-- `hash` stands for `Blake2Hasher::hash`.
module _ (hash : Bytes → Bytes) where
  unfoldable pub kontracts_set : Bytes → Bytes → Host (Unit {0})
  unfolding count_write
  kontracts_set key value = do count_write; update_storage (BTreeMap.insert (hash key) value)

  unfoldable pub kontracts_get : Bytes → Host (Option Bytes)
  unfolding count_read
  kontracts_get key = do count_read; λ c. (ok (BTreeMap.get (hash key) c.data_mut.storage), c)

  unfoldable pub kontracts_remove : Bytes → Host (Unit {0})
  unfolding count_write
  kontracts_remove key = do count_write; update_storage (BTreeMap.remove (hash key))
