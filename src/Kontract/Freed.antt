-- ===== src/Kontract/Freed.antt =====
-- From the macro to the balances: the test's deleting kontract, executed by the pallet on what the
-- writing kontract leaves.
use kontracts.Prelude.{ℕ, ◌+◌, ◌-◌, ◌^◌, ◌<◌, ◌≡◌, ◌≢◌, ◌∙◌, ap, some, [], ◌∷◌, arith, min}
use kontracts.Prelude.Int.{ℤ, sub_ℕ, ◌≤ℤ◌}
use kontracts.Prelude.Outcome.{ok}
use kontracts.Bytes.{Bytes, bytes_ord}
use kontracts.BTreeMap
use kontracts.Codec.{Codec, IsScale, size}
use kontracts.Codec.Size.{size-Fits}
use kontracts.Executor.Execute.{Engine}
use kontracts.Executor.Execute
use kontracts.Executor.Execute.Completes.{Runs, execute_code_completes}
use kontracts.Pallet.Config.{Config, IsConfig}
use kontracts.Pallet.State.{State}
use kontracts.Pallet.Calls.{or_default, execute_code}
use kontracts.Pallet.Money.Release.{execute_code_release}
use kontracts.Kontract.{Allocator, IsAllocator}
use kontracts.Kontract.Programs.{Words, IsWords, main, delete_test}
use kontracts.Kontract.Programs.Runs.{delete_test_lem}
use kontracts.Kontract.Deployed.{written, written-pos}

remove-single : (k v : Bytes) → BTreeMap.remove k ((k, v) ∷ []) ≡ []
unfolding BTreeMap.remove
remove-single k v = ground (arith, bytes_ord.less_irrefl k)

module _ (A : Allocator) (L : IsAllocator A) (C : Codec) (S : IsScale C) (blake2 : Bytes → Bytes)
    (W : Words) (K : IsWords W) (h : A.Heap) (E : Engine) {code : Bytes} {fuel : ℕ}
    (R : Runs E code fuel (main A C W (delete_test A C W) h)) where
  executor_deletes :
      size C (written blake2 W) < 2 ^ 32
      → Execute.execute_code E C blake2 code (C.encode_map (written blake2 W)) fuel 0 1
        ≡ ok (C.encode_map [])
  executor_deletes small =
      execute_code_completes E C S blake2 R (written blake2 W) (tt, tt)
        (size-Fits C S (written blake2 W) small) 0 1
        (delete_test_lem A L C S blake2 W K h (written blake2 W))
      ∙ ap (λ m. ok (C.encode_map m)) (remove-single _ _)

  -- Where a signed caller executes the test's deleting kontract, registered and run by the
  -- engine, with one write, on the storage that the writing kontract leaves, of less than 2^31
  -- bytes, the negative change of the size being at most the declared one, the call returns Ok,
  -- leaves an empty storage, moves that size to the caller's free balance, or all that he has
  -- reserved if that is less, and leaves what other accounts have reserved.
  pub execute_code-delete_test :
      (T : Config) (D : IsConfig T) (origin : T.Origin) (code_id : T.CodeId) (expected : ℤ)
      (s : State T) {who : T.AccountId}
      → let n = size C (written blake2 W) in
        let result = execute_code T E C blake2 origin code_id expected fuel 0 1 s in
        T.ensure_signed origin ≡ some who
        → T.codes.get s.codes code_id ≡ some code
        → or_default (T.storages.get s.storages code_id) ≡ written blake2 W
        → n < 2 ^ 31
        → sub_ℕ 0 n ≤ℤ expected
        → (result.0 ≡ ok tt)
          × (result.1.storages ≡ T.storages.insert s.storages code_id [])
          × (T.currency.free result.1.ledger who
              ≡ T.currency.free s.ledger who + min n (T.currency.reserved s.ledger who))
          × ((a : T.AccountId)
              → who ≢ a
              → T.currency.reserved result.1.ledger a ≡ T.currency.reserved s.ledger a)
  execute_code-delete_test T D origin code_id expected s {who} signed known found small declared =
      let m = or_default (T.storages.get s.storages code_id) in
      let fits : size C (written blake2 W) < 2 ^ 32 = omega arith in
      let ran : Execute.execute_code E C blake2 code (C.encode_map m) fuel 0 1
          ≡ ok (C.encode_map []) =
        rw found (executor_deletes fits) in
      let done =
        execute_code_release T D E C S blake2 origin code_id expected fuel 0 1 s [] signed known ran
          tt (rw found small) (rw found (written-pos A L C S blake2 W K h)) (rw found declared)
          (ground arith) in
      let freed : size C m - size C [] ≡ size C (written blake2 W) = rw found (omega arith) in
      (
        done.0,
        done.1,
        done.2
            ∙ ap (λ k. T.currency.free s.ledger who + min k (T.currency.reserved s.ledger who))
                freed,
        done.3,
      )
