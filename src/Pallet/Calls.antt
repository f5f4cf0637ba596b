-- ===== src/Pallet/Calls.antt =====
-- `impl<T: Config> Pallet<T>`: `upload_code`, `execute_code`, `delete_code` and `update_code`.
use kontracts.Prelude.{ℕ, Bool, false, ◌&&◌, Option, none, some, [], length, ◌==◌, if◌then◌else◌}
use kontracts.Prelude.Int.{ℤ, pos, negsuc, leb_ℤ, ltb_ℤ, as_i32, as_u32, sub32, neg32}
use kontracts.Prelude.Outcome.{Outcome, ok, err, panic, ok_or, map_err}
use kontracts.Bytes.{Bytes}
use kontracts.Codec.{Codec, Storage}
use kontracts.Executor.Execute.{Engine, ExecutionErrors, unexpected_behavoiur}
use kontracts.Executor.Execute
use kontracts.Pallet.Config.{Config}
use kontracts.Pallet.State.{
  Call, DispatchError, new_code_uploaded, code_executed, code_deleted, code_upgraded,
  exceeded_storage, invalid_code_id, execution_code, deposit_error, module_error, ◌>>=◌, ◌>>◌, lift,
  modify, deposit_event, signed, root,
}

abbrev pub is_zero : ℤ → Bool
is_zero (pos n) = n == 0
is_zero (negsuc n) = false

-- `StorageMap<…, ValueQuery>`: a missing key has the default, the empty map.
abbrev pub or_default : Option Storage → Storage
or_default none = []
or_default (some m) = m

-- The closure `get_storage_size`: the bytes behind the compact length, as an `i32`.
unfoldable pub get_storage_size : Codec → Bytes → Outcome DispatchError ℤ
get_storage_size C storage_encoded = elim (C.decode_compact storage_encoded) [
  | none ↦ panic
  | some (_, rest) ↦ ok (as_i32 (length rest))
]

module _ (T : Config) where
  unfoldable pub upload_code : T.Origin → Bytes → Call T (Unit {0})
  upload_code origin code = do
    who ← lift (signed T origin)
    let code_id = T.hashing code
    modify (λ s. record s { codes = T.codes.insert s.codes code_id code })
    deposit_event (new_code_uploaded code_id who)

  unfoldable pub delete_code : T.Origin → T.CodeId → Call T (Unit {0})
  delete_code origin code_id = do
    lift (root T origin)
    modify (λ s. record s { codes = T.codes.remove s.codes code_id })
    deposit_event (code_deleted code_id)

  unfoldable pub update_code : T.Origin → T.CodeId → Bytes → Call T (Unit {0})
  update_code origin old_code_id code = do
    lift (root T origin)
    modify (λ s. record s { codes = T.codes.remove s.codes old_code_id })
    let new_code_id = T.hashing code
    modify (λ s. record s { codes = T.codes.insert s.codes new_code_id code })
    deposit_event (code_upgraded old_code_id new_code_id)

  -- `Currency::reserve(&who, amount).map_err(|_| DepositError)?`
  abbrev reserve : T.AccountId → ℕ → Call T (Unit {0})
  reserve who amount s = elim (T.currency.reserve s.ledger who amount) [
    | none ↦ (err (module_error deposit_error), s)
    | some l ↦ (ok tt, record s { ledger = l })
  ]

  abbrev unreserve : T.AccountId → ℕ → Call T (Unit {0})
  unreserve who amount =
      modify (λ s. record s { ledger = T.currency.unreserve s.ledger who amount })

  abbrev slash : T.AccountId → ℕ → Call T (Unit {0})
  slash who amount = modify (λ s. record s { ledger = T.currency.slash s.ledger who amount })

  -- What follows the `match`: the new storage is decoded under its bounds and kept.
  unfoldable pub keep_storage : Codec → T.AccountId → T.CodeId → Bytes → Call T (Unit {0})
  keep_storage C who code_id new_storage_raw = do
    decoded ← lift (
        ok_or (C.decode_bounded T.bounds new_storage_raw)
          (module_error (execution_code unexpected_behavoiur)))
    modify (λ s. record s { storages = T.storages.insert s.storages code_id decoded.0 })
    deposit_event (code_executed code_id who)

  -- The `match` on the difference `x` of the sizes, and what follows it.
  unfoldable pub settle : Codec → T.AccountId → T.CodeId → ℤ → ℤ → Bytes → Call T (Unit {0})
  settle C who code_id x expected_modified_storage new_storage_raw =
      let keep = keep_storage C who code_id new_storage_raw in
      if is_zero x
      then keep
      else if leb_ℤ x expected_modified_storage && ltb_ℤ x (pos 0)
      then (do unreserve who (as_u32 (neg32 x)); keep)
      else if leb_ℤ x expected_modified_storage
      then (do reserve who (as_u32 x); keep)
      else do slash who (as_u32 x); deposit_event (exceeded_storage code_id who)

  -- `blake2` is the executor's hash of the keys.
  unfoldable pub execute_code :
      Engine → Codec → (Bytes → Bytes) → T.Origin → T.CodeId → ℤ → ℕ → ℕ → ℕ → Call T (Unit {0})
  execute_code E C blake2 origin code_id expected_modified_storage fuel expected_read
        expected_write =
      do
        who ← lift (signed T origin)
        code ← λ s. (ok_or (T.codes.get s.codes code_id) (module_error invalid_code_id), s)
        old_storage_raw ←
            λ s. (ok (C.encode_map (or_default (T.storages.get s.storages code_id))), s)
        old_storage_size ← lift (get_storage_size C old_storage_raw)
        new_storage_raw ← lift (
            map_err (λ e. module_error (execution_code e))
              (Execute.execute_code E C blake2 code old_storage_raw fuel expected_read
                expected_write))
        new_storage_size ← lift (get_storage_size C new_storage_raw)
        settle C who code_id (sub32 new_storage_size old_storage_size) expected_modified_storage
            new_storage_raw
