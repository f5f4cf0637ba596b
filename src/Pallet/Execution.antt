-- ===== src/Pallet/Execution.antt =====
-- The pallet and the executor together: a kontract that runs to its end.
use kontracts.Prelude.{ℕ, ◌+◌, ◌^◌, ◌<◌, ◌≡◌, ◌∙◌, ap, true, some, ◌∷◌, arith, length}
use kontracts.Prelude.Int.{ℤ}
use kontracts.Prelude.Outcome.{ok}
use kontracts.Bytes.{Bytes, bytes_ord}
use kontracts.BTreeMap.{IsSorted}
use kontracts.Codec.{Codec, IsScale, Storage, size, within}
use kontracts.Codec.Size.{size-Fits, size-le-length}
use kontracts.Executor.Execute.{Engine}
use kontracts.Executor.Execute
use kontracts.Executor.Execute.Refines.{
  Executed, performed, execute_code_refines, execute_code_read_only,
}
use kontracts.Pallet.Config.{Config}
use kontracts.Pallet.State.{State, code_executed}
use kontracts.Pallet.Calls.{or_default, execute_code}
use kontracts.Pallet.Settlement.{settlement, settled}
use kontracts.Pallet.Settlement.Correct.{execute_code_settles}

module _ (T : Config) (E : Engine) (C : Codec) (S : IsScale C) (blake2 : Bytes → Bytes)
    (origin : T.Origin) (code_id : T.CodeId) (expected : ℤ) (fuel max_read : ℕ) (s : State T)
    {who : T.AccountId} {code : Bytes} (signed : T.ensure_signed origin ≡ some who)
    (known : T.codes.get s.codes code_id ≡ some code)
    (sorted : IsSorted (or_default (T.storages.get s.storages code_id)))
    (small : size C (or_default (T.storages.get s.storages code_id)) < 2 ^ 31)
    (read_limit : max_read + 1 < 2 ^ 32) where
  abbrev m : Storage
  m = or_default (T.storages.get s.storages code_id)

  fits : size C m < 2 ^ 32
  fits = omega arith

  -- Where a signed caller executes a registered code on a sorted storage of less than 2^31
  -- bytes, with limits below 2^32 - 1, and the executor returns less than 2^31 bytes, the call
  -- ends, on every branch, as the settlement specifies for a new storage that is, as a function
  -- from hashed keys, the replay on the old one of the operations that the host performed in
  -- that execution: as many gets as the limit on reads at most, and as many sets and removes as
  -- the limit on writes.
  pub execute_code_run :
      (max_write : ℕ) {raw : Bytes}
      → max_write + 1 < 2 ^ 32
      → length raw < 2 ^ 31
      → Execute.execute_code E C blake2 code (C.encode_map m) fuel max_read max_write ≡ ok raw
      → (m' : Storage) × Executed blake2
          (performed E C blake2 code m fuel max_read max_write)
          m
          m'
          max_read
          max_write
        × (execute_code T E C blake2 origin code_id expected fuel max_read max_write s
            ≡ settled T who code_id m' s (settlement (size C m) (size C m') expected))
  execute_code_run max_write write_limit small' ran =
      let (m', encoded, done) =
        execute_code_refines E C blake2 S code m fuel max_read max_write sorted
          (size-Fits C S m fits) read_limit write_limit ran in
      let short = size-le-length C S m' in
      let short' : length (C.encode_map m') < 2 ^ 31 = rw (← encoded) small' in
      (
        m',
        done,
        execute_code_settles T E C S blake2 origin code_id expected fuel max_read max_write s m'
            signed known (ran ∙ ap ok encoded) done.sorted small (omega arith),
      )

  -- Where a signed caller executes a registered code on a sorted storage within the bounds, of
  -- less than 2^31 bytes, with no writes allowed and a limit on reads below 2^32 - 1, and the
  -- executor returns, the call succeeds whatever growth was declared, costs no balance, keeps
  -- the storage, and deposits CodeExecuted.
  pub execute_code_without_writes :
      {raw : Bytes}
      → within T.bounds m ≡ true
      → Execute.execute_code E C blake2 code (C.encode_map m) fuel max_read 0 ≡ ok raw
      → execute_code T E C blake2 origin code_id expected fuel max_read 0 s ≡ (
        ok tt,
        record s {
          storages = T.storages.insert s.storages code_id m;
          events = code_executed code_id who ∷ s.events;
        },
      )
  execute_code_without_writes bounded ran =
      let same =
        execute_code_read_only E C blake2 S code m fuel max_read sorted (size-Fits C S m fits)
          read_limit ran in
      execute_code_settles T E C S blake2 origin code_id expected fuel max_read 0 s m signed known
        (ran ∙ ap ok same) sorted small small
      ∙ ground arith
