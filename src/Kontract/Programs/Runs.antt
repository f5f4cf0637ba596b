-- ===== src/Kontract/Programs/Runs.antt =====
-- Whole runs of the kontracts of the tests.
use kontracts.Prelude.{◌<◌, ◌≡◌, refl, ◌∙◌, ap, none, some, [], ◌∷◌, arith, length, if◌then◌else◌}
use kontracts.Prelude.Outcome.{ok, err}
use kontracts.Bytes.{Bytes, bytes_ord}
use kontracts.BTreeMap
use kontracts.Codec.{Codec, IsScale, Storage}
use kontracts.Executor.Store.{KontractStore, Trap}
use kontracts.Executor.Host.{unwrap_or_empty}
use kontracts.Executor.Guest.{Guest, returned, run}
use kontracts.Executor.Execute.{fresh_store, error_of_trap, wasm_panic}
use kontracts.Kontract
use kontracts.Kontract.{Allocator, IsAllocator, expect, pure, ◌>>=◌, write, read}
use kontracts.Kontract.Reads.{run-write, run-delete, run-read, read-write}
use kontracts.Kontract.Programs.{
  Words, IsWords, same_words, main, write_8b, read_test, delete_test, write_and_read_16b,
}

module _ (A : Allocator) (L : IsAllocator A) (C : Codec) (S : IsScale C) (hash : Bytes → Bytes)
    (W : Words) (K : IsWords W) (h : A.Heap) (m : Storage) where
  abbrev key_123 : Bytes
  key_123 = W.encode_vec (1 ∷ 2 ∷ 3 ∷ [])

  abbrev value_456 : Bytes
  value_456 = W.encode_vec (4 ∷ 5 ∷ 6 ∷ [])

  short_456 : length value_456 < 64
  short_456 = omega (arith, K.length-encode_vec (4 ∷ 5 ∷ 6 ∷ []) (omega arith))

  decoded_456 : W.decode_vec value_456 ≡ some (4 ∷ 5 ∷ 6 ∷ [])
  decoded_456 =
      K.decode_vec-encode_vec (4 ∷ 5 ∷ 6 ∷ []) (omega arith, (omega arith, (omega arith, tt)))
        (omega arith)

  -- The writing kontract, given one write, returns and leaves its value under its hashed key.
  pub write_8b_lem : run C hash (main A C W (write_8b A C W) h) (fresh_store 0 1 m) ≡ (
    ok tt,
    record (fresh_store 0 1 m) {
      curr_n_write = 1;
      storage = BTreeMap.insert (hash key_123) value_456 m;
    },
  )
  unfolding write_8b run
  write_8b_lem =
      (run-write A L C S hash key_123 h (fresh_store 0 1 m) value_456 (λ _ _. returned tt)
        (omega arith) (omega arith)).1

  pub delete_test_lem : run C hash (main A C W (delete_test A C W) h) (fresh_store 0 1 m) ≡ (
    ok tt,
    record (fresh_store 0 1 m) { curr_n_write = 1; storage = BTreeMap.remove (hash key_123) m },
  )
  unfolding delete_test run
  delete_test_lem =
      (run-delete A L C S hash key_123 h (fresh_store 0 1 m) (λ _ _. returned tt) (omega arith)
        (omega arith)).1

  -- The template's kontract, given one read and two writes, returns; it leaves its value under
  -- its first hashed key, and the same value, as it was read back, under the second.
  pub write_and_read_16b_lem :
      run C hash (main A C W (write_and_read_16b A C W) h) (fresh_store 1 2 m) ≡ (
        ok tt,
        record (fresh_store 1 2 m) {
          curr_n_read = 1;
          curr_n_write = 2;
          storage =
              BTreeMap.insert
                (hash value_456)
                value_456
                (BTreeMap.insert (hash key_123) value_456 m);
        },
      )
  unfolding write_and_read_16b run
  write_and_read_16b_lem =
      let copy : Bytes → A.Heap → Guest (Unit {0}) = λ encoded h'.
        (expect (W.decode_vec encoded) >>= λ value. write A C value_456 (W.encode_vec value)) h'
          (λ _ _. returned tt) in
      let (h₁, was_read) =
        read-write A L C S hash key_123 value_456 h (fresh_store 1 2 m) copy short_456 (omega arith)
          (omega arith) (omega arith) (omega arith) in
      let s₁ : KontractStore = record (fresh_store 1 2 m) {
        curr_n_read = 1;
        curr_n_write = 1;
        storage = BTreeMap.insert (hash key_123) value_456 m;
      } in
      let (_, written) =
        run-write A L C S hash value_456 h₁ s₁ value_456 (λ _ _. returned tt) (omega arith)
          (omega arith) in
      was_read ∙ rw decoded_456 written

  abbrev check : Bytes → A.Heap → Guest (Unit {0})
  check encoded h' =
      (expect (W.decode_vec encoded) >>= λ value.
      if same_words (4 ∷ 5 ∷ 6 ∷ []) value then pure tt else Kontract.panic)
        h' (λ _ _. returned tt)

  -- The reading kontract, given one read, returns where its expected value is stored under its
  -- hashed key, and leaves the storage as it was.
  pub read_test_present :
      BTreeMap.get (hash key_123) m ≡ some value_456
      → run C hash (main A C W (read_test A C W) h) (fresh_store 1 0 m)
        ≡ (ok tt, record (fresh_store 1 0 m) { curr_n_read = 1 })
  unfolding read_test run
  read_test_present present =
      let found : unwrap_or_empty (BTreeMap.get (hash key_123) m) ≡ value_456 =
        ap unwrap_or_empty present in
      let (_, was_read) =
        run-read A L C S hash key_123 h (fresh_store 1 0 m) check (omega arith) (omega arith)
          (rw found short_456) in
      was_read ∙ rw (found, decoded_456) refl

  -- The reading kontract, given one read, panics where nothing is stored under its hashed key,
  -- which the executor reports as WasmPanic, and leaves the storage as it was.
  pub read_test_absent :
      BTreeMap.get (hash key_123) m ≡ none
      → (t : Trap) × (run C hash (main A C W (read_test A C W) h) (fresh_store 1 0 m)
          ≡ (err t, record (fresh_store 1 0 m) { curr_n_read = 1 }))
        × (error_of_trap t ≡ wasm_panic)
  unfolding read_test run error_of_trap
  read_test_absent absent =
      let found : unwrap_or_empty (BTreeMap.get (hash key_123) m) ≡ [] =
        ap unwrap_or_empty absent in
      let (_, was_read) =
        run-read A L C S hash key_123 h (fresh_store 1 0 m) check (omega arith) (omega arith)
          (rw found (omega arith)) in
      (
        "wasm `unreachable` instruction executed",
        was_read ∙ rw (found, K.decode_vec_nil) refl,
        refl,
      )
