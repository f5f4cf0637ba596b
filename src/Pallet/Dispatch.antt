-- ===== src/Pallet/Dispatch.antt =====
-- The calls as data, as `#[pallet::call]` numbers them, and sequences of extrinsics. FRAME runs a
-- call in a storage layer that an error discards.
pub mod Sequences
pub mod Raised
pub mod Register
pub mod Unordered
pub mod Log
pub mod Apart
pub mod Seen
pub mod Commute
pub mod Interleaved
pub mod Funds
use kontracts.Prelude.{ℕ, List, [], ◌∷◌}
use kontracts.Prelude.Int.{ℤ}
use kontracts.Prelude.Outcome.{Outcome, ok, err, panic}
use kontracts.Bytes.{Bytes}
use kontracts.Codec.{Codec}
use kontracts.Executor.Execute.{Engine}
use kontracts.Pallet.Config.{Config}
use kontracts.Pallet.State.{State, Call, DispatchError}
use kontracts.Pallet.Calls

-- By call index, with the arguments behind the origin.
pub data KontractsCall (T : Config) : Type 0 where
  upload_code : Bytes → KontractsCall T
  execute_code : T.CodeId → ℤ → ℕ → ℕ → ℕ → KontractsCall T
  delete_code : T.CodeId → KontractsCall T
  update_code : T.CodeId → Bytes → KontractsCall T

-- An extrinsic: who calls, and what.
abbrev pub Extrinsic : Config → Type 0
Extrinsic T = T.Origin × KontractsCall T

module _ (T : Config) (E : Engine) (C : Codec) (blake2 : Bytes → Bytes) where
  unfoldable pub call : Extrinsic T → Call T (Unit {0})
  call (origin, KontractsCall.upload_code code) = Calls.upload_code T origin code
  call (origin, KontractsCall.execute_code code_id expected fuel reads writes) =
      Calls.execute_code T E C blake2 origin code_id expected fuel reads writes
  call (origin, KontractsCall.delete_code code_id) = Calls.delete_code T origin code_id
  call (origin, KontractsCall.update_code old code) = Calls.update_code T origin old code

  -- The state after an extrinsic.
  unfoldable pub dispatch : Extrinsic T → State T → State T
  unfolding call
  dispatch x s = let (r, t) = call x s in elim r [ ok _ ↦ t | err _ ↦ s | panic ↦ s ]

  abbrev pub dispatch_all : List (Extrinsic T) → State T → State T
  dispatch_all [] s = s
  dispatch_all (x ∷ xs) s = dispatch_all xs (dispatch x s)
