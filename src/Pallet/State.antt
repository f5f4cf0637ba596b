-- ===== src/Pallet/State.antt =====
-- `Codes`, `Storages`, `Event`, `Error`, and how a call runs on them.
use kontracts.Prelude.{none, some, List, ◌∷◌, if◌then◌else◌}
use kontracts.Prelude.Outcome.{Outcome, ok, err, panic}
use kontracts.Executor.Execute.{ExecutionErrors}
use kontracts.Pallet.Config.{Config}

pub data Event (T : Config) : Type 0 where
  new_code_uploaded : T.CodeId → T.AccountId → Event T
  code_executed : T.CodeId → T.AccountId → Event T
  code_deleted : T.CodeId → Event T
  code_upgraded : T.CodeId → T.CodeId → Event T
  exceeded_storage : T.CodeId → T.AccountId → Event T

pub data Error : Type 0 where
  invalid_code_id : Error
  execution_code : ExecutionErrors → Error
  exceeded_fuel wrong_storage_encoding deposit_error : Error

pub data DispatchError : Type 0 where
  bad_origin : DispatchError
  module_error : Error → DispatchError

-- What the calls read and write, the balances among it; `events` has the last event first.
pub record State (T : Config) : Type 0 where
  pub codes : T.codes.Map
  pub storages : T.storages.Map
  pub ledger : T.currency.Ledger
  pub events : List (Event T)

-- The body of a call. What it wrote before an error is still in the state that it returns.
abbrev pub Call : Config → Type 0 → Type 0
Call T A = State T → Outcome DispatchError A × State T

module _ {T : Config} where
  infixl 5 ◌>>=◌ ◌>>◌
  abbrev pub ◌>>=◌ : {A B : Type 0} → Call T A → (A → Call T B) → Call T B
  ◌>>=◌ m f s =
      let (r, s') = m s in elim r [ ok a ↦ f a s' | err e ↦ (err e, s') | panic ↦ (panic, s') ]

  abbrev pub ◌>>◌ : {A B : Type 0} → Call T A → Call T B → Call T B
  m >> k = m >>= λ _. k

  abbrev pub lift : {A : Type 0} → Outcome DispatchError A → Call T A
  lift r s = (r, s)

  abbrev pub modify : (State T → State T) → Call T (Unit {0})
  modify f s = (ok tt, f s)

  abbrev pub deposit_event : Event T → Call T (Unit {0})
  deposit_event e s = (ok tt, record s { events = e ∷ s.events })

module _ (T : Config) where
  -- `ensure_signed(origin)?` and `ensure_root(origin)?`
  abbrev pub signed : T.Origin → Outcome DispatchError T.AccountId
  signed origin = elim (T.ensure_signed origin) [ none ↦ err bad_origin | some who ↦ ok who ]

  abbrev pub root : T.Origin → Outcome DispatchError (Unit {0})
  root origin = if T.ensure_root origin then ok tt else err bad_origin
