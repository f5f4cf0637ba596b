-- ===== src/Runtime/Deposits.antt =====
-- The deposits of the accounts cover the storages, over every sequence of calls without a slash.
use kontracts.Prelude.{
  ℕ, ◌^◌, ◌<◌, ◌≡◌, sym, ◌∙◌, ap, inl, inr, Bool-cases, some, Option-cases, List, ◌∷◌, arith,
  length,
}
use kontracts.Prelude.Int.{ℤ}
use kontracts.Prelude.Outcome.{ok}
use kontracts.Prelude.Sums.{Has, Distinct}
use kontracts.Bytes.{Bytes, bytes_ord}
use kontracts.Codec.{Codec, IsScale, size}
use kontracts.Codec.Size.{size-le-length}
use kontracts.Executor.Execute.{Engine}
use kontracts.Executor.Execute
use kontracts.Executor.Execute.Encodes.{execute_code-encodes}
use kontracts.Pallet.Config.{Config, IsConfig}
use kontracts.Pallet.State.{State, code_executed}
use kontracts.Pallet.Calls.{or_default, upload_code, delete_code, update_code, execute_code}
use kontracts.Pallet.Settlement.{settlement}
use kontracts.Pallet.Settlement.Correct.{execute_code_settles}
use kontracts.Pallet.Registry.{
  upload_code_lem, delete_code_lem, update_code_lem, upload_code_unsigned, delete_code_not_root,
  update_code_not_root,
}
use kontracts.Pallet.Reach.{Step, Reach, IsValid, Reach-IsValid, here, next}
use kontracts.Pallet.Reach
use kontracts.Pallet.Backing.{Backed, Backed-replace, settled-keeps, ledger-covers, ledger_others}
use kontracts.Runtime.Sizes.{AreSmall, Reach-size_small}

module _ (T : Config) (E : Engine) (C : Codec) (blake2 : Bytes → Bytes) (ids : List T.CodeId)
    (accounts : List T.AccountId) where
  -- A successful call of the listed accounts on the listed codes. An execution has deposited
  -- `CodeExecuted`, so it was not slashed, and its kontract left less than 2 ^ 31 bytes.
  pub data Paid (s : State T) : State T → Type 0 where
    uploaded :
        (origin : T.Origin) (code : Bytes) {t : State T}
        → upload_code T origin code s ≡ (ok tt, t)
        → Paid s t
    executed :
        (origin : T.Origin) (code_id : T.CodeId) (expected : ℤ) (fuel max_read max_write : ℕ)
        (who : T.AccountId) (code raw : Bytes) {t : State T}
        → T.ensure_signed origin ≡ some who
        → Has who accounts
        → Has code_id ids
        → T.codes.get s.codes code_id ≡ some code
        → Execute.execute_code E C blake2 code
            (C.encode_map (or_default (T.storages.get s.storages code_id)))
            fuel
            max_read
            max_write
          ≡ ok raw
        → length raw < 2 ^ 31
        → execute_code T E C blake2 origin code_id expected fuel max_read max_write s ≡ (ok tt, t)
        → t.events ≡ code_executed code_id who ∷ s.events
        → Paid s t
    deleted :
        (origin : T.Origin) (code_id : T.CodeId) {t : State T}
        → delete_code T origin code_id s ≡ (ok tt, t)
        → Paid s t
    updated :
        (origin : T.Origin) (old : T.CodeId) (code : Bytes) {t : State T}
        → update_code T origin old code s ≡ (ok tt, t)
        → Paid s t

  pub data PaidReach (s : State T) : State T → Type 0 where
    paid_here : PaidReach s s
    paid_next : {t u : State T} → PaidReach s t → Paid t u → PaidReach s u

  Paid-Step : {s t : State T} → Paid s t → Step T E C blake2 s t
  Paid-Step (uploaded origin code h) = Reach.uploaded origin code h
  Paid-Step
        (executed origin code_id expected fuel r w who code raw signed has_who has_id known ran
          short h e) =
      Reach.executed origin code_id expected fuel r w h
  Paid-Step (deleted origin code_id h) = Reach.deleted origin code_id h
  Paid-Step (updated origin old code h) = Reach.updated origin old code h

  pub PaidReach-Reach : {s t : State T} → PaidReach s t → Reach T E C blake2 s t
  PaidReach-Reach paid_here = here
  PaidReach-Reach (paid_next r p) = next (PaidReach-Reach r) (Paid-Step p)

module _ (T : Config) (L : IsConfig T) (E : Engine) (C : Codec) (S : IsScale C)
    (blake2 : Bytes → Bytes) (ids : List T.CodeId) (accounts : List T.AccountId)
    (distinct_ids : Distinct ids) (distinct_accounts : Distinct accounts) where
  -- The calls on the register touch neither storages nor balances.
  Backed-same :
      (s t : State T)
      → t.storages ≡ s.storages
      → t.ledger ≡ s.ledger
      → Backed T C ids accounts s
      → Backed T C ids accounts t
  Backed-same s t same_storages same_ledger backed = rw (same_storages, same_ledger) backed

  Paid-Backed :
      {s t : State T}
      → ((j : T.CodeId) → size C (or_default (T.storages.get s.storages j)) < 2 ^ 31)
      → Paid T E C blake2 ids accounts s t
      → Backed T C ids accounts s
      → Backed T C ids accounts t
  Paid-Backed {s} {t} small (uploaded origin code h) backed =
      elim (Option-cases (T.ensure_signed origin)) [
        | inl refused ↦ cc (sym (upload_code_unsigned T origin code s refused) ∙ h)
        | inr (who, signed) ↦
            let e = sym (ap (λ x. x.1) (sym (upload_code_lem T origin code s signed) ∙ h)) in
            Backed-same s t (ap (λ u. u.storages) e) (ap (λ u. u.ledger) e) backed
      ]
  Paid-Backed {s} {t} small
        (executed origin code_id expected fuel r w who code raw signed has_who has_id known ran
          short h e)
        backed =
      let m = or_default (T.storages.get s.storages code_id) in
      let (m', encoded, sorted) =
        execute_code-encodes E C S blake2 code (C.encode_map m) fuel r w ran in
      let short' : length (C.encode_map m') < 2 ^ 31 = rw (← encoded) short in
      let settles =
        execute_code_settles T E C S blake2 origin code_id expected fuel r w s m' signed known
          (ran ∙ ap ok encoded) sorted (small code_id) (omega (arith, size-le-length C S m')) in
      let x = settlement (size C m) (size C m') expected in
      let (stored, charged) = settled-keeps T who code_id m' s x (sym settles ∙ h) e in
      Backed-replace T L C ids accounts distinct_ids distinct_accounts s t who code_id m' has_id
        has_who stored
        (ledger-covers T L who s code_id m' (size C m) (size C m') expected t.ledger charged)
        (ledger_others T L who s code_id m' x t.ledger charged) backed
  Paid-Backed {s} {t} small (deleted origin code_id h) backed =
      elim (Bool-cases (T.ensure_root origin)) [
        | inl root ↦
            let e = sym (ap (λ x. x.1) (sym (delete_code_lem T origin code_id s root) ∙ h)) in
            Backed-same s t (ap (λ u. u.storages) e) (ap (λ u. u.ledger) e) backed
        | inr refused ↦ cc (sym (delete_code_not_root T origin code_id s refused) ∙ h)
      ]
  Paid-Backed {s} {t} small (updated origin old code h) backed =
      elim (Bool-cases (T.ensure_root origin)) [
        | inl root ↦
            let e = sym (ap (λ x. x.1) (sym (update_code_lem T origin old code s root) ∙ h)) in
            Backed-same s t (ap (λ u. u.storages) e) (ap (λ u. u.ledger) e) backed
        | inr refused ↦ cc (sym (update_code_not_root T origin old code s refused) ∙ h)
      ]

  -- Over distinct code ids and accounts, with bounds that are at most the runtime's, from a
  -- valid state whose accounts have reserved at least the total size of the storages, every
  -- sequence of successful calls in which the listed accounts execute the listed codes, each
  -- execution depositing CodeExecuted and returning less than 2^31 bytes, leads to a state whose
  -- accounts have reserved at least that total.
  pub PaidReach-Backed :
      {s t : State T}
      → AreSmall T.bounds
      → IsValid T s
      → PaidReach T E C blake2 ids accounts s t
      → Backed T C ids accounts s
      → Backed T C ids accounts t
  PaidReach-Backed small v paid_here backed = backed
  PaidReach-Backed small v (paid_next {t} r p) backed =
      Paid-Backed
        (λ j.
          Reach-size_small T L E C S blake2 j small v (PaidReach-Reach T E C blake2 ids accounts r))
        p (PaidReach-Backed small v r backed)
