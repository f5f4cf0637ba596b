-- ===== src/Pallet/Money/Deposits.antt =====
-- Deposits, refunds and fines, for an execution whose storage goes from `m` to `m'`.
use kontracts.Prelude.{
  ℕ, ◌+◌, ◌-◌, ◌^◌, ◌≤◌, ◌<◌, ◌≡◌, refl, sym, ◌∙◌, ap, inl, inr, Bool-cases, some, Option-cases,
  ◌∷◌, arith, ◌==◌, ltb, if◌then◌else◌,
}
use kontracts.Prelude.Int.{ℤ, sub_ℕ, ◌≤ℤ◌, ◌<ℤ◌}
use kontracts.Prelude.Outcome.{Outcome, ok}
use kontracts.Bytes.{Bytes, bytes_ord}
use kontracts.BTreeMap.{IsSorted}
use kontracts.Codec.{Codec, IsScale, Storage, size, within}
use kontracts.Executor.Execute.{Engine}
use kontracts.Executor.Execute
use kontracts.Pallet.Config.{Config, IsConfig, total}
use kontracts.Pallet.State.{State, DispatchError, exceeded_storage}
use kontracts.Pallet.Calls.{or_default, execute_code}
use kontracts.Pallet.Settlement.{settlement, settled, nothing, refund, deposit, fine}
use kontracts.Pallet.Settlement.Correct.{execute_code_settles}

-- The settlement of a change that is at most the declared one.
pub declared_settlement :
    (old new : ℕ) (expected : ℤ)
    → sub_ℕ new old ≤ℤ expected
    → settlement old new expected ≡ (
        if old == new
        then nothing
        else if ltb new old
        then refund (old - new)
        else deposit (new - old))
declared_settlement old new expected h = ground arith

over_use_settlement :
    (old new : ℕ) (expected : ℤ)
    → old < new
    → expected <ℤ sub_ℕ new old
    → settlement old new expected ≡ fine (new - old)
over_use_settlement old new expected grows h = ground arith

release_settlement :
    (old new : ℕ) (expected : ℤ)
    → new < old
    → expected <ℤ sub_ℕ new old
    → settlement old new expected ≡ fine (2 ^ 32 - (old - new))
release_settlement old new expected shrinks h = ground arith

module _ (T : Config) (L : IsConfig T) (who : T.AccountId) (code_id : T.CodeId) (m : Storage)
    (s : State T) (old new : ℕ) where
  -- Where the settlement succeeds, the caller's reserved balance follows the size.
  tracks :
      {t : State T} (expected : ℤ)
      → sub_ℕ new old ≤ℤ expected
      → old ≤ T.currency.reserved s.ledger who + new
      → settled T who code_id m s (settlement old new expected) ≡ (ok tt, t)
      → (T.currency.reserved t.ledger who + old ≡ T.currency.reserved s.ledger who + new)
        × (T.currency.free t.ledger who + new ≡ T.currency.free s.ledger who + old)
  tracks expected declared enough h = elim (Bool-cases (within T.bounds m)) [
    | inl keeps ↦ elim (Option-cases (T.currency.reserve s.ledger who (new - old))) [
      | inl refused ↦ ground (
        arith,
        declared_settlement old new expected declared,
        L.currency.free-unreserve s.ledger who (old - new),
        L.currency.reserved-unreserve s.ledger who (old - new),
      )
      | inr (l, done) ↦ ground (
        arith,
        declared_settlement old new expected declared,
        L.currency.free-unreserve s.ledger who (old - new),
        L.currency.reserved-unreserve s.ledger who (old - new),
        L.currency.free-reserve s.ledger l who (new - old) done,
        L.currency.reserved-reserve s.ledger l who (new - old) done,
      )
    ]
    | inr breaks ↦ elim (Option-cases (T.currency.reserve s.ledger who (new - old))) [
      | inl refused ↦ absurd (ground (arith, declared_settlement old new expected declared))
      | inr (l, done) ↦ absurd (ground (arith, declared_settlement old new expected declared))
    ]
  ]

module _ (T : Config) (L : IsConfig T) (E : Engine) (C : Codec) (S : IsScale C)
    (blake2 : Bytes → Bytes) (origin : T.Origin) (code_id : T.CodeId) (expected : ℤ)
    (fuel max_read max_write : ℕ) (s : State T) {who : T.AccountId} {code : Bytes} (m' : Storage)
    (signed : T.ensure_signed origin ≡ some who) (known : T.codes.get s.codes code_id ≡ some code)
    (ran : Execute.execute_code E C blake2 code
        (C.encode_map (or_default (T.storages.get s.storages code_id)))
        fuel
        max_read
        max_write
      ≡ ok (C.encode_map m'))
    (sorted : IsSorted m')
    (small : size C (or_default (T.storages.get s.storages code_id)) < 2 ^ 31)
    (small' : size C m' < 2 ^ 31) where
  abbrev m : Storage
  m = or_default (T.storages.get s.storages code_id)

  abbrev result : Outcome DispatchError (Unit {0}) × State T
  result = execute_code T E C blake2 origin code_id expected fuel max_read max_write s

  settles : result ≡ settled T who code_id m' s (settlement (size C m) (size C m') expected)
  settles =
      execute_code_settles T E C S blake2 origin code_id expected fuel max_read max_write s m'
        signed known ran sorted small small'

  -- Where the executor turns the stored storage into a sorted one, both of less than 2^31 bytes,
  -- the growth is at most the declared one, the caller has reserved at least what is released,
  -- and the call succeeds, the caller's reserved balance moves by exactly the change of the
  -- storage's size, and the free balance by the opposite.
  pub execute_code_deposit_tracks_size :
      {t : State T}
      → sub_ℕ (size C m') (size C m) ≤ℤ expected
      → size C m ≤ T.currency.reserved s.ledger who + size C m'
      → result ≡ (ok tt, t)
      → (T.currency.reserved t.ledger who + size C m ≡ T.currency.reserved s.ledger who + size C m')
        × (T.currency.free t.ledger who + size C m' ≡ T.currency.free s.ledger who + size C m)
  execute_code_deposit_tracks_size declared enough h =
      tracks T L who code_id m' s (size C m) (size C m') expected declared enough (sym settles ∙ h)

  -- Where the executor turns the stored storage into a larger one, both of less than 2^31 bytes,
  -- and the growth is more than was declared, the call returns Ok, keeps the old storage,
  -- deposits ExceededStorage as its only event, and costs the caller at most the growth.
  pub execute_code_over_use :
      size C m < size C m'
      → expected <ℤ sub_ℕ (size C m') (size C m)
      → (result.0 ≡ ok tt)
        × (result.1.storages ≡ s.storages)
        × (result.1.events ≡ exceeded_storage code_id who ∷ s.events)
        × (total T.currency s.ledger who
            ≤ total T.currency result.1.ledger who + (size C m' - size C m))
  execute_code_over_use grows undeclared =
      let fined =
        settles
        ∙ ap (settled T who code_id m' s)
            (over_use_settlement (size C m) (size C m') expected grows undeclared) in
      rw fined (refl, refl, refl, L.currency.le-total-slash s.ledger who (size C m' - size C m))

  -- Where the executor turns the stored storage into a smaller one, both of less than 2^31
  -- bytes, and fewer bytes are released than the declared number asks for, which is below the
  -- negative change of the size, the call returns Ok, keeps the old storage, and slashes the
  -- caller by 2^32 less the bytes released, which is more than 2^31.
  pub execute_code_short_release :
      size C m' < size C m
      → expected <ℤ sub_ℕ (size C m') (size C m)
      → (result.0 ≡ ok tt)
        × (result.1.storages ≡ s.storages)
        × (result.1.ledger ≡ T.currency.slash s.ledger who (2 ^ 32 - (size C m - size C m')))
        × (2 ^ 31 < 2 ^ 32 - (size C m - size C m'))
  execute_code_short_release shrinks undeclared =
      let fined =
        settles
        ∙ ap (settled T who code_id m' s)
            (release_settlement (size C m) (size C m') expected shrinks undeclared) in
      rw fined (refl, refl, refl, omega arith)
