-- ===== src/Pallet/Dispatch/Commute.antt =====
-- Two extrinsics that are apart from each other, in either order.
use kontracts.Prelude.{◌≡◌, sym, ◌∙◌, ap, inl, inr}
use kontracts.Bytes.{Bytes}
use kontracts.Codec.{Codec}
use kontracts.Executor.Execute.{Engine}
use kontracts.Pallet.Config.{Config, IsConfig}
use kontracts.Pallet.State.{State}
use kontracts.Pallet.Local.{EqualBalances, IsLocal}
use kontracts.Pallet.Dispatch.{KontractsCall, Extrinsic}
use kontracts.Pallet.Dispatch.Unordered.{registered_by-swap}
use kontracts.Pallet.Dispatch.Register.{registered_by}
use kontracts.Pallet.Dispatch.Apart.{
  Touches, Pays, Apart, Disjoint, Apart-cases, Touches-or_not, Pays-or_not, SameState,
}
use kontracts.Pallet.Dispatch.Seen.{
  after, after-codes, after-codes_untouched, after-storages, after-storages_untouched,
  after-balances, after-balances_unpaid, unseen, register_after, same_ledger,
}

module _ (T : Config) (L : IsConfig T) (local : IsLocal T.currency) (E : Engine) (C : Codec)
    (blake2 : Bytes → Bytes) where
  abbrev IsFree : Extrinsic T → Extrinsic T → Type 0
  IsFree x y = Disjoint T x y × ((a : T.AccountId) → Pays T x a → ¬ Pays T y a)

  abbrev run : Extrinsic T → State T → State T
  run = after T L local E C blake2

  -- Under an id that the second one does not touch.
  codes_commute :
      (x y : Extrinsic T) (s : State T) (k : T.CodeId)
      → (¬ Touches T y k)
      → T.codes.get (run y (run x s)).codes k ≡ T.codes.get (run x (run y s)).codes k
  codes_commute x y s k ne =
      after-codes_untouched T L local E C blake2 y (run x s) k ne
      ∙ after-codes T L local E C blake2 x s k
      ∙ ap (registered_by T k x) (sym (after-codes_untouched T L local E C blake2 y s k ne))
      ∙ sym (after-codes T L local E C blake2 x (run y s) k)

  storages_commute :
      (x y : Extrinsic T) (s : State T) (k : T.CodeId)
      → IsFree x y
      → (¬ Touches T y k)
      → T.storages.get (run y (run x s)).storages k ≡ T.storages.get (run x (run y s)).storages k
  storages_commute x y s k apart ne =
      after-storages_untouched T L local E C blake2 y (run x s) k ne
      ∙ after-storages T L local E C blake2 x s (run y s) k
          (unseen T L local E C blake2 x y s apart.0 apart.1)
          (sym (after-storages_untouched T L local E C blake2 y s k ne))

  -- Of an account that does not pay for the second one.
  balances_commute :
      (x y : Extrinsic T) (s : State T) (a : T.AccountId)
      → IsFree x y
      → (¬ Pays T y a)
      → EqualBalances T.currency a (run y (run x s)).ledger (run x (run y s)).ledger
  balances_commute x y s a apart other =
      let (free, reserved) = after-balances_unpaid T L local E C blake2 y (run x s) a other in
      let (free₁, reserved₁) = after-balances_unpaid T L local E C blake2 y s a other in
      let (free₂, reserved₂) =
        after-balances T L local E C blake2 x s (run y s) a
          (unseen T L local E C blake2 x y s apart.0 apart.1) (sym free₁, sym reserved₁) in
      (free ∙ free₂, reserved ∙ reserved₂)

  disjoint_commute :
      (x y : Extrinsic T) (s : State T)
      → IsFree x y
      → SameState T (run y (run x s)) (run x (run y s))
  disjoint_commute x y s apart =
      let turned : IsFree y x = (λ k t u. apart.0 k u t, λ a p q. apart.1 a q p) in
      record {
        codes = λ k. elim (Touches-or_not T y k) [
          | inr ne ↦ codes_commute x y s k ne
          | inl t ↦ sym (codes_commute y x s k (turned.0 k t))
        ];
        storages = λ k. elim (Touches-or_not T y k) [
          | inr ne ↦ storages_commute x y s k apart ne
          | inl t ↦ sym (storages_commute y x s k turned (turned.0 k t))
        ];
        balances = λ a. elim (Pays-or_not T y a) [
          | inr other ↦ balances_commute x y s a apart other
          | inl pays ↦
              let (free, reserved) = balances_commute y x s a turned (turned.1 a pays) in
              (sym free, sym reserved)
        ];
      }

  -- Two uploads, which leave the storages and the balances.
  uploads_commute :
      (o o' : T.Origin) (code code' : Bytes) (s : State T)
      → (T.hashing code ≡ T.hashing code' → code ≡ code')
      → let x : Extrinsic T = (o, KontractsCall.upload_code code) in
        let y : Extrinsic T = (o', KontractsCall.upload_code code') in
        SameState T (run y (run x s)) (run x (run y s))
  uploads_commute o o' code code' s agree =
      let x : Extrinsic T = (o, KontractsCall.upload_code code) in
      let y : Extrinsic T = (o', KontractsCall.upload_code code') in
      let id = T.hashing code in
      let kept = register_after T L local E C blake2 in
      record {
        codes = λ k.
            after-codes T L local E C blake2 y (run x s) k
            ∙ ap (registered_by T k y) (after-codes T L local E C blake2 x s k)
            ∙ registered_by-swap T k (o, code) (o', code') (T.codes.get s.codes k) agree
            ∙ ap (registered_by T k x) (sym (after-codes T L local E C blake2 y s k))
            ∙ sym (after-codes T L local E C blake2 x (run y s) k);
        storages = λ k.
            ap (λ m. T.storages.get m k)
              ((kept o' id code' (run x s)).0.0
                ∙ (kept o id code s).0.0
                ∙ sym (kept o' id code' s).0.0
                ∙ sym (kept o id code (run y s)).0.0);
        balances = λ a. same_ledger T L local E C blake2 a (
            (kept o' id code' (run x s)).0.1
            ∙ (kept o id code s).0.1
            ∙ sym (kept o' id code' s).0.1
            ∙ sym (kept o id code (run y s)).0.1);
      }

  pub extrinsics_commute :
      (x y : Extrinsic T) (s : State T)
      → Apart T x y
      → SameState T (run y (run x s)) (run x (run y s))
  extrinsics_commute x y s apart = elim (Apart-cases T x y apart) [
    | inr ids ↦ disjoint_commute x y s (ids, apart.1)
    | inl (o, code, o', code', e, e', agree) ↦ rw (e, e') (uploads_commute o o' code code' s agree)
  ]
