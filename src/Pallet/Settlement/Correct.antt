-- ===== src/Pallet/Settlement/Correct.antt =====
-- `execute_code` settles as the specification says.
use kontracts.Prelude.{
  ℕ, zero, suc, ◌+◌, ◌^◌, ◌<◌, ◌≡◌, refl, sym, ◌∙◌, ap, Option-cases, inl, inr, Bool-cases, some,
  arith,
}
use kontracts.Prelude.Int.{ℤ, pos, negsuc, sub_ℕ, sub32, as_i32, leb_ℤ}
use kontracts.Prelude.Outcome.{Outcome, ok}
use kontracts.Bytes.{Bytes, bytes_ord}
use kontracts.BTreeMap.{IsSorted}
use kontracts.Codec.{Codec, IsScale, Storage, size}
use kontracts.Codec.Size.{decode_bounded-encode_map}
use kontracts.Executor.Execute.{Engine}
use kontracts.Executor.Execute
use kontracts.Pallet.Config.{Config}
use kontracts.Pallet.State.{State, DispatchError}
use kontracts.Pallet.Calls.{or_default, keep_storage, settle, execute_code}
use kontracts.Pallet.Settlement.{settlement, settlement_by, settlement-eq, kept, settled}
use kontracts.Pallet.Settlement.Sizes.{
  InRange, is_zero-suc, sub_ℕ-InRange, sub32_exact, as_u32-neg32, as_u32-negsuc, negsuc_negative,
  pos_not_negative, as_u32-pos, get_storage_size-encode_map,
}

module _ (T : Config) (C : Codec) (S : IsScale C) (who : T.AccountId) (code_id : T.CodeId) where
  keep_storage_lem :
      (m : Storage) (s : State T) (l : T.currency.Ledger)
      → IsSorted m
      → size C m < 2 ^ 31
      → keep_storage T C who code_id (C.encode_map m) (record s { ledger = l })
        ≡ kept T who code_id m s l
  unfolding keep_storage
  keep_storage_lem m s l sorted h = ground (arith, decode_bounded-encode_map C S T.bounds m sorted)

  module _ (m : Storage) (s : State T) (expected : ℤ) (sorted : IsSorted m)
      (h : size C m < 2 ^ 31) where
    abbrev settle_by : ℤ → Outcome DispatchError (Unit {0}) × State T
    settle_by x = settle T C who code_id x expected (C.encode_map m) s

    settle_lem :
        (x : ℤ) → InRange x → settle_by x ≡ settled T who code_id m s (settlement_by x expected)
    unfolding settle
    settle_lem (pos zero) hx = keep_storage_lem m s s.ledger sorted h
    settle_lem (pos (suc n)) hx = elim (Bool-cases (leb_ℤ (pos (suc n)) expected)) [
      | inl declared ↦ elim (Option-cases (T.currency.reserve s.ledger who (suc n))) [
        | inl refused ↦
            rw (is_zero-suc n, declared, pos_not_negative (suc n), as_u32-pos (suc n) hx)
              (ground arith)
        | inr (l, done) ↦
            rw (is_zero-suc n, declared, pos_not_negative (suc n), as_u32-pos (suc n) hx)
              (ground (arith, keep_storage_lem m s l sorted h))
      ]
      | inr undeclared ↦ rw (is_zero-suc n, undeclared, as_u32-pos (suc n) hx) refl
    ]
    settle_lem (negsuc n) hx = elim (Bool-cases (leb_ℤ (negsuc n) expected)) [
      | inl declared ↦
          rw (declared, negsuc_negative n, as_u32-neg32 n hx)
            (keep_storage_lem m s (T.currency.unreserve s.ledger who (n + 1)) sorted h)
      | inr undeclared ↦ rw (undeclared, as_u32-negsuc n hx) refl
    ]

module _ (T : Config) (E : Engine) (C : Codec) (S : IsScale C) (blake2 : Bytes → Bytes) where
  -- Where a signed caller executes a registered code, and the executor turns the stored storage
  -- into the encoding of a sorted one, both of less than 2^31 bytes, execute_code, with its
  -- casts to i32 and u32, ends as the settlement specifies in numbers that do not wrap, on every
  -- branch.
  pub execute_code_settles :
      (origin : T.Origin) (code_id : T.CodeId) (expected : ℤ) (fuel max_read max_write : ℕ)
      (s : State T) {who : T.AccountId} {code : Bytes} (m' : Storage)
      → let m = or_default (T.storages.get s.storages code_id) in
        T.ensure_signed origin ≡ some who
        → T.codes.get s.codes code_id ≡ some code
        → Execute.execute_code E C blake2 code (C.encode_map m) fuel max_read max_write
          ≡ ok (C.encode_map m')
        → IsSorted m'
        → size C m < 2 ^ 31
        → size C m' < 2 ^ 31
        → execute_code T E C blake2 origin code_id expected fuel max_read max_write s
          ≡ settled T who code_id m' s (settlement (size C m) (size C m') expected)
  unfolding execute_code
  execute_code_settles origin code_id expected fuel max_read max_write s {who} m' signed known ran
        sorted h h' =
      let m = or_default (T.storages.get s.storages code_id) in
      let run_to_settle : execute_code T E C blake2 origin code_id expected fuel max_read max_write
            s
          ≡ settle T C who code_id (sub32 (as_i32 (size C m')) (as_i32 (size C m))) expected
              (C.encode_map m') s =
        ground
          (arith, get_storage_size-encode_map C S m h, get_storage_size-encode_map C S m' h') in
      run_to_settle
      ∙ rw (sub32_exact (size C m') (size C m) h' h) (
          settle_lem T C S who code_id m' s expected sorted h' (sub_ℕ (size C m') (size C m))
            (sub_ℕ-InRange (size C m') (size C m) h' h))
      ∙ ap (settled T who code_id m' s) (sym (settlement-eq (size C m) (size C m') expected))
