-- ===== src/Kontract/Copied.antt =====
-- From the macro to the balances: the template's kontract, which writes a value, reads it and writes
-- it again, executed by the pallet.
use kontracts.Prelude.{Bool-cases, inl, inr, ℕ, ◌^◌, ◌<◌, ◌≡◌, true, some, [], ◌∷◌, arith}
use kontracts.Prelude.Int.{ℤ, pos, ◌≤ℤ◌}
use kontracts.Prelude.Outcome.{ok}
use kontracts.Bytes.{Bytes, bytes_ord}
use kontracts.BTreeMap
use kontracts.BTreeMap.{IsSorted}
use kontracts.Codec.{Codec, IsScale, Storage, size, within}
use kontracts.Codec.Size.{size-cons}
use kontracts.Executor.Execute.{Engine}
use kontracts.Executor.Execute
use kontracts.Executor.Execute.Completes.{Runs, execute_code_completes}
use kontracts.Pallet.Config.{Config}
use kontracts.Pallet.State.{State, code_executed}
use kontracts.Pallet.Calls.{or_default, execute_code}
use kontracts.Kontract.{Allocator, IsAllocator}
use kontracts.Kontract.Programs.{Words, IsWords, main, write_and_read_16b}
use kontracts.Kontract.Programs.Runs.{write_and_read_16b_lem}
use kontracts.Kontract.Deployed.{first_execution}
use kontracts.BTreeMap.Laws.{insert-IsSorted}

insert-pos :
    (C : Codec) (S : IsScale C) (k v : Bytes) (m : Storage) → 0 < size C (BTreeMap.insert k v m)
unfolding BTreeMap.insert
insert-pos C S k v [] = omega (arith, size-cons C S k v [])
insert-pos C S k v ((j, w) ∷ m) = elim (Bool-cases (bytes_ord.less k j)) [
  | inl before ↦ rw before (omega (arith, size-cons C S k v ((j, w) ∷ m)))
  | inr not_before ↦ elim (Bool-cases (bytes_ord.less j k)) [
    | inl after ↦ rw (not_before, after) (omega (arith, size-cons C S j w (BTreeMap.insert k v m)))
    | inr not_after ↦ rw (not_before, not_after) (omega (arith, size-cons C S k v m))
  ]
]

module _ (blake2 : Bytes → Bytes) (W : Words) where
  -- The storage that the kontract leaves from an empty one: the value under its key, and under
  -- the value itself as a key.
  abbrev pub copied : Storage
  copied =
      let value = W.encode_vec (4 ∷ 5 ∷ 6 ∷ []) in
      BTreeMap.insert (blake2 value) value
        (BTreeMap.insert (blake2 (W.encode_vec (1 ∷ 2 ∷ 3 ∷ []))) value [])

  copied-IsSorted : IsSorted copied
  copied-IsSorted =
      insert-IsSorted (blake2 (W.encode_vec (4 ∷ 5 ∷ 6 ∷ []))) _ _
        (insert-IsSorted (blake2 (W.encode_vec (1 ∷ 2 ∷ 3 ∷ []))) _ [] tt)

module _ (A : Allocator) (L : IsAllocator A) (C : Codec) (S : IsScale C) (blake2 : Bytes → Bytes)
    (W : Words) (K : IsWords W) (h : A.Heap) (E : Engine) {code : Bytes} {fuel : ℕ}
    (R : Runs E code fuel (main A C W (write_and_read_16b A C W) h)) where
  executor_copies :
      Execute.execute_code E C blake2 code (C.encode_map []) fuel 1 2
      ≡ ok (C.encode_map (copied blake2 W))
  executor_copies =
      execute_code_completes E C S blake2 R [] tt (omega arith, tt) 1 2
        (write_and_read_16b_lem A L C S blake2 W K h [])

  -- Where a signed caller executes the template's kontract, registered and run by the engine, on
  -- an empty storage with one read and two writes, declares at least the size of what it leaves,
  -- which is within the bounds and below 2^31 bytes, and can pay for it, the call succeeds,
  -- reserves exactly that size, and keeps the value under the key and, as it was read back,
  -- under the value itself as a key, and deposits CodeExecuted.
  pub execute_code-write_and_read_16b :
      (T : Config) (origin : T.Origin) (code_id : T.CodeId) (expected : ℤ) (s : State T)
      {who : T.AccountId} {l : T.currency.Ledger}
      → T.ensure_signed origin ≡ some who
      → T.codes.get s.codes code_id ≡ some code
      → or_default (T.storages.get s.storages code_id) ≡ []
      → size C (copied blake2 W) < 2 ^ 31
      → within T.bounds (copied blake2 W) ≡ true
      → pos (size C (copied blake2 W)) ≤ℤ expected
      → T.currency.reserve s.ledger who (size C (copied blake2 W)) ≡ some l
      → execute_code T E C blake2 origin code_id expected fuel 1 2 s ≡ (
        ok tt,
        record s {
          ledger = l;
          storages = T.storages.insert s.storages code_id (copied blake2 W);
          events = code_executed code_id who ∷ s.events;
        },
      )
  execute_code-write_and_read_16b T origin code_id expected s signed known empty small bounded
        declared paid =
      first_execution T E C S blake2 origin code_id expected fuel 1 2 s (copied blake2 W) signed
        known empty executor_copies (copied-IsSorted blake2 W) (insert-pos C S _ _ _) small bounded
        declared paid
