-- ===== src/Pallet/Money/Release.antt =====
-- What a release of storage returns, and to whom.
use kontracts.Prelude.{ℕ, ◌+◌, ◌-◌, ◌^◌, ◌<◌, ◌≡◌, ◌≢◌, ◌∙◌, refl, true, some, arith, min}
use kontracts.Prelude.Int.{ℤ, sub_ℕ, ◌≤ℤ◌}
use kontracts.Prelude.Outcome.{ok}
use kontracts.Bytes.{Bytes, bytes_ord}
use kontracts.BTreeMap.{IsSorted}
use kontracts.Codec.{Codec, IsScale, Storage, size, within}
use kontracts.Executor.Execute.{Engine}
use kontracts.Executor.Execute
use kontracts.Pallet.Config.{Config, IsConfig}
use kontracts.Pallet.State.{State}
use kontracts.Pallet.Calls.{or_default, execute_code}
use kontracts.Pallet.Settlement.{settlement, refund}
use kontracts.Pallet.Settlement.Correct.{execute_code_settles}
use kontracts.Pallet.Money.Deposits.{declared_settlement}

module _ (T : Config) (L : IsConfig T) (E : Engine) (C : Codec) (S : IsScale C)
    (blake2 : Bytes → Bytes) (origin : T.Origin) (code_id : T.CodeId) (expected : ℤ)
    (fuel max_read max_write : ℕ) (s : State T) {who : T.AccountId} {code : Bytes}
    (m' : Storage) where
  -- Where the executor turns a stored storage of less than 2^31 bytes into a smaller sorted one
  -- within the bounds, and the change of the size, which is negative, is at most the declared
  -- one, the call returns Ok, keeps the new storage, moves to the caller's free balance the
  -- bytes freed or all that the caller has reserved if that is less, and leaves what any other
  -- account has reserved for the storage.
  pub execute_code_release :
      let m = or_default (T.storages.get s.storages code_id) in
      let freed = size C m - size C m' in
      let result = execute_code T E C blake2 origin code_id expected fuel max_read max_write s in
      T.ensure_signed origin ≡ some who
      → T.codes.get s.codes code_id ≡ some code
      → Execute.execute_code E C blake2 code (C.encode_map m) fuel max_read max_write
        ≡ ok (C.encode_map m')
      → IsSorted m'
      → size C m < 2 ^ 31
      → size C m' < size C m
      → sub_ℕ (size C m') (size C m) ≤ℤ expected
      → within T.bounds m' ≡ true
      → (result.0 ≡ ok tt)
        × (result.1.storages ≡ T.storages.insert s.storages code_id m')
        × (T.currency.free result.1.ledger who
            ≡ T.currency.free s.ledger who + min freed (T.currency.reserved s.ledger who))
        × ((a : T.AccountId)
            → who ≢ a
            → T.currency.reserved result.1.ledger a ≡ T.currency.reserved s.ledger a)
  execute_code_release signed known ran sorted small shrinks declared bounded =
      let m = or_default (T.storages.get s.storages code_id) in
      let freed = size C m - size C m' in
      let refunds : settlement (size C m) (size C m') expected ≡ refund freed =
        declared_settlement (size C m) (size C m') expected declared ∙ ground arith in
      let settles =
        execute_code_settles T E C S blake2 origin code_id expected fuel max_read max_write s m'
          signed known ran sorted small (omega arith) in
      rw (settles, refunds, bounded)
        (
          refl,
          refl,
          L.currency.free-unreserve s.ledger who freed,
          λ a ne. (L.currency.unreserve_others s.ledger who a freed ne).1,
        )
