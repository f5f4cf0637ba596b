-- ===== src/Kontract/Deployed.antt =====
-- From the macro to the balances: the test's writing kontract, executed by the pallet.
use kontracts.Prelude.{ℕ, ◌^◌, ◌<◌, ◌≡◌, ◌∙◌, ap, true, some, [], ◌∷◌, arith}
use kontracts.Prelude.Int.{ℤ, pos, ◌≤ℤ◌}
use kontracts.Prelude.Outcome.{ok}
use kontracts.Bytes.{Bytes, bytes_ord}
use kontracts.BTreeMap
use kontracts.BTreeMap.{IsSorted}
use kontracts.Codec.{Codec, IsScale, Storage, size, within}
use kontracts.Codec.Size.{size-cons}
use kontracts.Executor.Execute.{Engine}
use kontracts.Executor.Execute
use kontracts.Executor.Execute.Completes.{Runs, execute_code_completes}
use kontracts.Pallet.Config.{Config}
use kontracts.Pallet.State.{State, code_executed}
use kontracts.Pallet.Calls.{or_default, execute_code}
use kontracts.Pallet.Settlement.{settlement, settled, deposit}
use kontracts.Pallet.Settlement.Correct.{execute_code_settles}
use kontracts.Kontract.{Allocator, IsAllocator}
use kontracts.Kontract.Programs.{Words, IsWords, main, write_8b}
use kontracts.Kontract.Programs.Runs.{write_8b_lem}

-- The first entry of a storage is a deposit of its size.
first_entry_settlement :
    (n : ℕ) (expected : ℤ) → 0 < n → pos n ≤ℤ expected → settlement 0 n expected ≡ deposit n
first_entry_settlement n expected some_bytes declared = ground arith

module _ (T : Config) (E : Engine) (C : Codec) (S : IsScale C) (blake2 : Bytes → Bytes) where
  -- An execution that leaves a storage from an empty one.
  pub first_execution :
      (origin : T.Origin) (code_id : T.CodeId) (expected : ℤ) (fuel r w : ℕ) (s : State T)
      (m : Storage) {who : T.AccountId} {l : T.currency.Ledger} {code : Bytes}
      → T.ensure_signed origin ≡ some who
      → T.codes.get s.codes code_id ≡ some code
      → or_default (T.storages.get s.storages code_id) ≡ []
      → Execute.execute_code E C blake2 code (C.encode_map []) fuel r w ≡ ok (C.encode_map m)
      → IsSorted m
      → 0 < size C m
      → size C m < 2 ^ 31
      → within T.bounds m ≡ true
      → pos (size C m) ≤ℤ expected
      → T.currency.reserve s.ledger who (size C m) ≡ some l
      → execute_code T E C blake2 origin code_id expected fuel r w s ≡ (
        ok tt,
        record s {
          ledger = l;
          storages = T.storages.insert s.storages code_id m;
          events = code_executed code_id who ∷ s.events;
        },
      )
  first_execution origin code_id expected fuel r w s m {who} {l} {code} signed known empty ran
        sorted some_bytes small bounded declared paid =
      let ran' =
        ap (λ m. Execute.execute_code E C blake2 code (C.encode_map m) fuel r w) empty ∙ ran in
      execute_code_settles T E C S blake2 origin code_id expected fuel r w s m signed known ran'
        sorted (rw empty (omega arith)) small
      ∙ ap (λ old. settled T who code_id m s (settlement (size C old) (size C m) expected)) empty
      ∙ ap (settled T who code_id m s)
          (first_entry_settlement (size C m) expected some_bytes declared)
      ∙ ground (arith, paid, bounded)

module _ (blake2 : Bytes → Bytes) (W : Words) where
  -- The storage that the kontract leaves from an empty one.
  abbrev pub written : Storage
  written = (blake2 (W.encode_vec (1 ∷ 2 ∷ 3 ∷ [])), W.encode_vec (4 ∷ 5 ∷ 6 ∷ [])) ∷ []

module _ (A : Allocator) (L : IsAllocator A) (C : Codec) (S : IsScale C) (blake2 : Bytes → Bytes)
    (W : Words) (K : IsWords W) (h : A.Heap) where
  pub written-pos : 0 < size C (written blake2 W)
  written-pos = omega (
    arith,
    size-cons C S (blake2 (W.encode_vec (1 ∷ 2 ∷ 3 ∷ []))) (W.encode_vec (4 ∷ 5 ∷ 6 ∷ [])) [],
  )

  module _ (E : Engine) {code : Bytes} {fuel : ℕ}
      (R : Runs E code fuel (main A C W (write_8b A C W) h)) where
    executor_writes :
        Execute.execute_code E C blake2 code (C.encode_map []) fuel 0 1
        ≡ ok (C.encode_map (written blake2 W))
    unfolding BTreeMap.insert
    executor_writes =
        execute_code_completes E C S blake2 R [] tt (omega arith, tt) 0 1
          (write_8b_lem A L C S blake2 W K h [])

    -- Where a signed caller executes the test's writing kontract, registered and run by the
    -- engine, on an empty storage with one write, declares at least the size of what it writes,
    -- which is within the bounds and below 2^31 bytes, and can pay for it, the call succeeds,
    -- reserves exactly that size, keeps the entry, and deposits CodeExecuted.
    pub execute_code-write_8b :
        (T : Config) (origin : T.Origin) (code_id : T.CodeId) (expected : ℤ) (s : State T)
        {who : T.AccountId} {l : T.currency.Ledger}
        → T.ensure_signed origin ≡ some who
        → T.codes.get s.codes code_id ≡ some code
        → or_default (T.storages.get s.storages code_id) ≡ []
        → size C (written blake2 W) < 2 ^ 31
        → within T.bounds (written blake2 W) ≡ true
        → pos (size C (written blake2 W)) ≤ℤ expected
        → T.currency.reserve s.ledger who (size C (written blake2 W)) ≡ some l
        → execute_code T E C blake2 origin code_id expected fuel 0 1 s ≡ (
          ok tt,
          record s {
            ledger = l;
            storages = T.storages.insert s.storages code_id (written blake2 W);
            events = code_executed code_id who ∷ s.events;
          },
        )
    execute_code-write_8b T origin code_id expected s {who} {l} signed known empty small bounded
          declared paid =
        first_execution T E C S blake2 origin code_id expected fuel 0 1 s (written blake2 W) signed
          known empty executor_writes (tt, tt) written-pos small bounded declared paid
