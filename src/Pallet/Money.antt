-- ===== src/Pallet/Money.antt =====
-- What an execution does to the balances.
pub mod Deposits
pub mod Release
use kontracts.Prelude.{
  ℕ, ◌+◌, ◌-◌, ◌^◌, ◌≤◌, ◌<◌, ◌≡◌, ◌≢◌, refl, sym, ◌∙◌, ap, inl, inr, Bool, true, false, Option,
  none, some, Option-cases, List, [], ◌∷◌, arith, min, ◌==◌, ltb, leb, if◌then◌else◌,
}
use kontracts.Prelude.Int.{ℤ, pos, negsuc, leb_ℤ, ◌≤ℤ◌, ◌<ℤ◌}
use kontracts.Prelude.Outcome.{Outcome, ok, err, panic}
use kontracts.Bytes.{Bytes, bytes_ord}
use kontracts.BTreeMap.{IsSorted}
use kontracts.Codec.{Codec, IsScale, Storage, size, within}
use kontracts.Executor.Execute.{Engine}
use kontracts.Executor.Execute
use kontracts.Pallet.Config.{Config, IsConfig, IsCurrency, total}
use kontracts.Pallet.State.{State, exceeded_storage}
use kontracts.Pallet.Calls.{or_default, execute_code, settle}
use kontracts.Pallet.Effects.{
  Moved, same, reserved, released, slashed, Effects, settle-Effects, execute_code-settle,
}
use kontracts.Pallet.Settlement.{settlement, settled, Settlement, nothing, refund, deposit, fine}
use kontracts.Pallet.Settlement.Correct.{execute_code_settles}

module _ (T : Config) (L : IsConfig T) where
  -- Free and reserved balance of the caller together do not grow.
  Moved-total :
      {who : T.AccountId} {l l' : T.currency.Ledger}
      → Moved T who l l'
      → total T.currency l' who ≤ total T.currency l who
  Moved-total same = omega arith
  Moved-total {who} {l} (reserved n {l'} e) =
      omega (arith, L.currency.free-reserve l l' who n e, L.currency.reserved-reserve l l' who n e)
  Moved-total {who} {l} (released n) =
      omega (arith, L.currency.free-unreserve l who n, L.currency.reserved-unreserve l who n)
  Moved-total {who} {l} (slashed n) = L.currency.total-slash_le l who n

  -- The other accounts keep both balances.
  pub Moved_others :
      {who a : T.AccountId} {l l' : T.currency.Ledger}
      → Moved T who l l'
      → who ≢ a
      → (T.currency.free l' a ≡ T.currency.free l a)
        × (T.currency.reserved l' a ≡ T.currency.reserved l a)
  Moved_others same ne = (refl, refl)
  Moved_others {who} {a} {l} (reserved n {l'} e) ne = L.currency.reserve_others l l' who a n ne e
  Moved_others {who} {a} {l} (released n) ne = L.currency.unreserve_others l who a n ne
  Moved_others {who} {a} {l} (slashed n) ne = L.currency.slash_others l who a n ne

  pub Moved-total_any :
      {who : T.AccountId} {l l' : T.currency.Ledger} (a : T.AccountId)
      → Moved T who l l'
      → total T.currency l' a ≤ total T.currency l a
  Moved-total_any {who} a moved = elim (T.account_id_eq who a) [
    | yes e ↦ rw (← e) (Moved-total moved)
    | no ne ↦ let (f, r) = Moved_others moved ne in omega arith
  ]

  -- However an execution ends, no account's free and reserved balance together are more than
  -- before.
  pub execute_code_no_gain :
      (E : Engine) (C : Codec) (blake2 : Bytes → Bytes) (origin : T.Origin) (code_id : T.CodeId)
      (expected : ℤ) (fuel max_read max_write : ℕ) (s : State T) (a : T.AccountId)
      → let t = (execute_code T E C blake2 origin code_id expected fuel max_read max_write s).1 in
        total T.currency t.ledger a ≤ total T.currency s.ledger a
  execute_code_no_gain E C blake2 origin code_id expected fuel max_read max_write s a =
      elim (execute_code-settle T E C blake2 origin code_id expected fuel max_read max_write s) [
        | inl (unchanged, _) ↦ rw unchanged (omega arith)
        | inr (who, x, raw, signed, settled_as) ↦
            rw settled_as
              (Moved-total_any a (settle-Effects T C who code_id x expected raw s).ledger)
      ]

  -- However an execution ends, an account that did not sign it keeps its free and its reserved
  -- balance.
  pub execute_code_charges_caller :
      (E : Engine) (C : Codec) (blake2 : Bytes → Bytes) (origin : T.Origin) (code_id : T.CodeId)
      (expected : ℤ) (fuel max_read max_write : ℕ) (s : State T) (a : T.AccountId)
      → T.ensure_signed origin ≢ some a
      → let t = (execute_code T E C blake2 origin code_id expected fuel max_read max_write s).1 in
        (T.currency.free t.ledger a ≡ T.currency.free s.ledger a)
        × (T.currency.reserved t.ledger a ≡ T.currency.reserved s.ledger a)
  execute_code_charges_caller E C blake2 origin code_id expected fuel max_read max_write s a other =
      elim (execute_code-settle T E C blake2 origin code_id expected fuel max_read max_write s) [
        | inl (unchanged, _) ↦ rw unchanged (refl, refl)
        | inr (who, x, raw, signed, settled_as) ↦ rw settled_as (
            Moved_others (settle-Effects T C who code_id x expected raw s).ledger
              (λ e. other (signed ∙ ap some e)))
      ]
