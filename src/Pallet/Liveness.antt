-- ===== src/Pallet/Liveness.antt =====
-- When an execution succeeds: the pallet, the executor and the kontract's run together.
use kontracts.Prelude.{ℕ, ◌-◌, ◌^◌, ◌≤◌, ◌<◌, ◌≡◌, ap, subst, true, some, ◌∷◌, arith, inl, inr}
use native.Mathlib.Decide.{dec_lt}
use kontracts.Prelude.Int.{ℤ, sub_ℕ, ◌≤ℤ◌}
use kontracts.Prelude.Outcome.{Outcome, ok, Outcome-cases}
use kontracts.Bytes.{Bytes, bytes_ord}
use kontracts.BTreeMap.{IsSorted}
use kontracts.Codec.{Codec, IsScale, Storage, size, within}
use kontracts.Codec.Size.{size-Fits}
use kontracts.Executor.Store.{KontractStore}
use kontracts.Executor.Guest.{Guest, run}
use kontracts.Executor.Execute.{Engine, fresh_store}
use kontracts.Executor.Execute
use kontracts.Executor.Fuel.{Program, Meters, execute_code_more_fuel}
use kontracts.Executor.Execute.Completes.{Runs, execute_code_completes}
use kontracts.Executor.Trace.Replay.{run_replays}
use kontracts.Pallet.Config.{Config}
use kontracts.Pallet.State.{State, DispatchError, code_executed}
use kontracts.Pallet.Calls.{or_default, execute_code}
use kontracts.Pallet.Settlement.{settlement, settled}
use kontracts.Pallet.Money.Deposits.{declared_settlement}
use kontracts.Pallet.Settlement.Correct.{execute_code_settles}

module _ (T : Config) (who : T.AccountId) (code_id : T.CodeId) (m : Storage) (s : State T) where
  -- A call that keeps a storage: Ok, the storage stored, and the event of an execution.
  abbrev Kept : Outcome DispatchError (Unit {0}) × State T → Type 0
  Kept r =
      (r.0 ≡ ok tt)
      × (r.1.storages ≡ T.storages.insert s.storages code_id m)
      × (r.1.events ≡ code_executed code_id who ∷ s.events)

  settled-Kept :
      (old new : ℕ) (expected : ℤ)
      → sub_ℕ new old ≤ℤ expected
      → within T.bounds m ≡ true
      → (old < new
          → (l : T.currency.Ledger) × (T.currency.reserve s.ledger who (new - old) ≡ some l))
      → Kept (settled T who code_id m s (settlement old new expected))
  settled-Kept old new expected declared bounded pays = elim (dec_lt old new) [
    | yes grows ↦
        let (l, paid) = pays grows in
        rw (declared_settlement old new expected declared) (ground arith)
    | no stays ↦ rw (declared_settlement old new expected declared) (ground arith)
  ]

module _ (T : Config) (E : Engine) (C : Codec) (S : IsScale C) (blake2 : Bytes → Bytes)
    (origin : T.Origin) (code_id : T.CodeId) (expected : ℤ) (fuel max_read max_write : ℕ)
    (s : State T) {who : T.AccountId} {code : Bytes} {body : Guest (Unit {0})} {k : KontractStore}
    (signed : T.ensure_signed origin ≡ some who) (known : T.codes.get s.codes code_id ≡ some code)
    (R : Runs E code fuel body) where
  -- Where a signed caller executes a registered code whose main function, as the engine runs it,
  -- returns and leaves a storage within the bounds, both storages having less than 2^31 bytes
  -- and the old one being sorted, the growth is at most the declared one, and the caller can
  -- reserve it if there is any, the call returns Ok, stores the new storage, and deposits
  -- CodeExecuted.
  pub execute_code_succeeds :
      let m = or_default (T.storages.get s.storages code_id) in
      let old = size C m in
      let new = size C k.storage in
      IsSorted m
      → old < 2 ^ 31
      → new < 2 ^ 31
      → run C blake2 body (fresh_store max_read max_write m) ≡ (ok tt, k)
      → within T.bounds k.storage ≡ true
      → sub_ℕ new old ≤ℤ expected
      → (old < new
          → (l : T.currency.Ledger) × (T.currency.reserve s.ledger who (new - old) ≡ some l))
      → Kept T who code_id k.storage s
          (execute_code T E C blake2 origin code_id expected fuel max_read max_write s)
  execute_code_succeeds sorted small small' ran bounded declared pays =
      let m = or_default (T.storages.get s.storages code_id) in
      let fits : size C m < 2 ^ 32 = omega arith in
      let (sorted', _) = run_replays C blake2 body (fresh_store max_read max_write m) sorted in
      let k-IsSorted : IsSorted k.storage =
        subst (λ (x : KontractStore). IsSorted x.storage) (ap (λ x. x.1) ran) sorted' in
      let executed =
        execute_code_completes E C S blake2 R m sorted (size-Fits C S m fits) max_read max_write
          ran in
      let settles =
        execute_code_settles T E C S blake2 origin code_id expected fuel max_read max_write s
          k.storage signed known executed k-IsSorted small small' in
      rw settles (
        settled-Kept T who code_id k.storage s (size C m) (size C k.storage) expected declared
          bounded pays)

module _ (T : Config) (E : Engine) (C : Codec) (blake2 : Bytes → Bytes) (P : Program)
    (origin : T.Origin) (code_id : T.CodeId) (expected : ℤ) (max_read max_write : ℕ) (s : State T)
    {code : Bytes} where
  -- For a registered code that the engine runs as a metered program, an execution that succeeds
  -- under some fuel succeeds under every larger amount, with the same state after it.
  pub execute_code_fuel_enough :
      (fuel fuel' : ℕ) {t : State T}
      → Meters E code P
      → T.codes.get s.codes code_id ≡ some code
      → fuel ≤ fuel'
      → execute_code T E C blake2 origin code_id expected fuel max_read max_write s ≡ (ok tt, t)
      → execute_code T E C blake2 origin code_id expected fuel' max_read max_write s ≡ (ok tt, t)
  unfolding execute_code
  execute_code_fuel_enough fuel fuel' {t} M known le h =
      let input = C.encode_map (or_default (T.storages.get s.storages code_id)) in
      elim (Outcome-cases (Execute.execute_code E C blake2 code input fuel max_read max_write)) [
        | inl (raw, ran) ↦
            let ran' =
              execute_code_more_fuel P E C blake2 M input fuel fuel' max_read max_write le ran in
            ground arith
        | inr failed ↦ absurd (ground arith)
      ]
