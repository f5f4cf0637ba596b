-- ===== src/Pallet/Settlement.antt =====
-- The specification of `execute_code` once the kontract has run: what is owed for the change of
-- the storage's size, in numbers that do not wrap, and what the call leaves behind.
pub mod Sizes
pub mod Correct
use kontracts.Prelude.{
  ℕ, zero, suc, ◌≡◌, arith, ◌+◌, ◌-◌, ◌^◌, Bool, true, false, Option, none, some, List, [], ◌∷◌,
  ◌==◌, ltb, if◌then◌else◌,
}
use kontracts.Prelude.Int.{ℤ, pos, negsuc, sub_ℕ, leb_ℤ}
use kontracts.Prelude.Outcome.{Outcome, ok, err, panic}
use kontracts.Codec.{Storage, within}
use kontracts.Executor.Execute.{unexpected_behavoiur}
use kontracts.Pallet.Config.{Config}
use kontracts.Pallet.State.{
  State, DispatchError, module_error, execution_code, deposit_error, code_executed,
  exceeded_storage,
}

pub data Settlement : Type 0 where
  nothing : Settlement
  refund deposit fine : ℕ → Settlement

-- From the old and the new size and the declared growth. A release of less space than the
-- caller declared is fined as its `u32` bit pattern.
abbrev pub settlement : ℕ → ℕ → ℤ → Settlement
settlement old new expected =
    if old == new
    then nothing
    else if ltb new old
    then (let freed = old - new in
        if leb_ℤ (negsuc (freed - 1)) expected then refund freed else fine (2 ^ 32 - freed))
    else let used = new - old in if leb_ℤ (pos used) expected then deposit used else fine used

-- The same by the signed difference of the sizes.
abbrev pub settlement_by : ℤ → ℤ → Settlement
settlement_by (pos zero) expected = nothing
settlement_by (pos (suc n)) expected =
    if leb_ℤ (pos (suc n)) expected then deposit (suc n) else fine (suc n)
settlement_by (negsuc n) expected =
    if leb_ℤ (negsuc n) expected then refund (n + 1) else fine (2 ^ 32 - (n + 1))

pub settlement-eq :
    (old new : ℕ) (expected : ℤ)
    → settlement old new expected ≡ settlement_by (sub_ℕ new old) expected
settlement-eq old new expected = ground arith

module _ (T : Config) (who : T.AccountId) (code_id : T.CodeId) (m : Storage) (s : State T) where
  abbrev kept : T.currency.Ledger → Outcome DispatchError (Unit {0}) × State T
  kept l =
      if within T.bounds m
      then (
        ok tt,
        record s {
          ledger = l;
          storages = T.storages.insert s.storages code_id m;
          events = code_executed code_id who ∷ s.events;
        },
      )
      else (err (module_error (execution_code unexpected_behavoiur)), record s { ledger = l })

  abbrev pub settled : Settlement → Outcome DispatchError (Unit {0}) × State T
  settled nothing = kept s.ledger
  settled (refund n) = kept (T.currency.unreserve s.ledger who n)
  settled (deposit n) = elim (T.currency.reserve s.ledger who n) [
    | none ↦ (err (module_error deposit_error), s)
    | some l ↦ kept l
  ]
  settled (fine n) = (
    ok tt,
    record s {
      ledger = T.currency.slash s.ledger who n;
      events = exceeded_storage code_id who ∷ s.events;
    },
  )
