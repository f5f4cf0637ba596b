-- ===== src/Pallet/Dispatch/Funds.antt =====
-- What an account can lose, and what the events say of it.
use kontracts.Prelude.{ℕ, ◌≤◌, ◌≡◌, ◌⊎◌, Bool, true, false, ◌||◌, List, [], ◌∷◌, ◌++◌}
use kontracts.Prelude.Outcome.{Outcome}
use kontracts.Bytes.{Bytes}
use kontracts.Codec.{Codec}
use kontracts.Executor.Execute.{Engine}
use kontracts.Pallet.Config.{Config, IsConfig, total}
use kontracts.Pallet.State.{
  State, Event, new_code_uploaded, code_executed, code_deleted, code_upgraded, exceeded_storage,
}

abbrev is_it : {P : Type 0} → Dec P → Bool
is_it (yes _) = true
is_it (no _) = false

module _ (T : Config) (a : T.AccountId) where
  abbrev is_account : T.AccountId → Bool
  is_account who = is_it (T.account_id_eq who a)

  -- Whether the events report that the account exceeded its declared storage.
  abbrev fined_by : Event T → Bool
  fined_by (new_code_uploaded _ _) = false
  fined_by (code_executed _ _) = false
  fined_by (code_deleted _) = false
  fined_by (code_upgraded _ _) = false
  fined_by (exceeded_storage _ who) = is_account who

  abbrev pub fined : List (Event T) → Bool
  fined [] = false
  fined (e ∷ es) = fined_by e || fined es

  abbrev balance : State T → ℕ
  balance s = total T.currency s.ledger a

  -- The balances stand as before, or are less and an event of `es` reports why.
  abbrev Spared : State T → State T → List (Event T) → Type 0
  Spared s t es = (balance t ≡ balance s) ⊎ ((balance t ≤ balance s) × (fined es ≡ true))

module _ (T : Config) (L : IsConfig T) (E : Engine) (C : Codec) (blake2 : Bytes → Bytes)
    (a : T.AccountId) where
  abbrev Told : State T → State T → Type 0
  Told s t = (es : List (Event T)) × (t.events ≡ es ++ s.events) × Spared T a s t es
