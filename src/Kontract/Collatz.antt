-- ===== src/Kontract/Collatz.antt =====
-- The Collatz kontract: one run of it, and the sequence from 5.
pub mod Executions
use kontracts.Prelude.{
  ◌+◌, ◌++◌, length-append, refl, ◌∷◌, ℕ, zero, suc, ◌^◌, ◌<◌, ◌≡◌, ◌∙◌, ap, some, [], arith,
  length,
}
use kontracts.Prelude.Outcome.{Outcome, ok}
use kontracts.Bytes.{Bytes, bytes_ord}
use kontracts.BTreeMap
use kontracts.BTreeMap.Laws.{insert-singleton, get-singleton}
use kontracts.BTreeMap.{IsSorted}
use kontracts.Codec.{Codec, IsScale, Storage, Bounds, size, within}
use kontracts.Executor.Store.{KontractStore, Trap}
use kontracts.Executor.Host.{unwrap_or_empty}
use kontracts.Executor.Guest.{Guest, returned, run}
use kontracts.Executor.Execute.{fresh_store}
use kontracts.Kontract.{Allocator, IsAllocator, write}
use kontracts.Kontract.Reads.{run-write, run-read}
use kontracts.Kontract.Programs.{Words, IsWords, unwrap_or, collatz_next, main, collatz_conjecture}

-- The sequence from 5, without the program: 16, 8, and then 4, 2 and 1 again and again.
abbrev cycle : ℕ → ℕ
cycle zero = 4
cycle (suc zero) = 2
cycle (suc (suc zero)) = 1
cycle (suc (suc (suc k))) = cycle k

abbrev pub member : ℕ → ℕ
member zero = 16
member (suc zero) = 8
member (suc (suc k)) = cycle k

cycle-next : (k : ℕ) → collatz_next (cycle k) ≡ cycle (suc k)
cycle-next zero = refl
cycle-next (suc zero) = refl
cycle-next (suc (suc zero)) = refl
cycle-next (suc (suc (suc k))) = cycle-next k

pub member-next : (k : ℕ) → collatz_next (member k) ≡ member (suc k)
member-next zero = refl
member-next (suc zero) = refl
member-next (suc (suc k)) = cycle-next k

cycle-fits : (k : ℕ) → cycle k < 2 ^ 32
cycle-fits zero = omega arith
cycle-fits (suc zero) = omega arith
cycle-fits (suc (suc zero)) = omega arith
cycle-fits (suc (suc (suc k))) = cycle-fits k

pub member-fits : (k : ℕ) → member k < 2 ^ 32
member-fits zero = omega arith
member-fits (suc zero) = omega arith
member-fits (suc (suc k)) = cycle-fits k

module _ (A : Allocator) (L : IsAllocator A) (C : Codec) (S : IsScale C) (hash : Bytes → Bytes)
    (W : Words) (K : IsWords W) (h : A.Heap) where
  abbrev key : Bytes
  key = W.encode_u32 1

  -- The value that the kontract finds: the stored one, or 5.
  abbrev current : Storage → ℕ
  current m = unwrap_or (W.decode_u32 (unwrap_or_empty (BTreeMap.get (hash key) m))) 5

  run-collatz_conjecture :
      (m : Storage)
      → length (unwrap_or_empty (BTreeMap.get (hash key) m)) < 64
      → run C hash (main A C W (collatz_conjecture A C W) h) (fresh_store 1 1 m) ≡ (
        ok tt,
        record (fresh_store 1 1 m) {
          curr_n_read = 1;
          curr_n_write = 1;
          storage = BTreeMap.insert (hash key) (W.encode_u32 (collatz_next (current m))) m;
        },
      )
  unfolding collatz_conjecture run
  run-collatz_conjecture m short =
      let store_next : Bytes → A.Heap → Guest (Unit {0}) = λ encoded h'.
        write A C key (W.encode_u32 (collatz_next (unwrap_or (W.decode_u32 encoded) 5))) h'
          (λ _ _. returned tt) in
      let (h₁, was_read) =
        run-read A L C S hash key h (fresh_store 1 1 m) store_next (omega arith) (omega arith)
          short in
      let (_, written) =
        run-write A L C S hash key h₁ (record (fresh_store 1 1 m) { curr_n_read = 1 })
          (W.encode_u32 (collatz_next (current m))) (λ _ _. returned tt) (omega arith)
          (omega arith) in
      was_read ∙ written

  stored-current :
      (m : Storage) (n : ℕ)
      → n < 2 ^ 32
      → BTreeMap.get (hash key) m ≡ some (W.encode_u32 n)
      → (length (unwrap_or_empty (BTreeMap.get (hash key) m)) < 64) × (current m ≡ n)
  stored-current m n fits h = rw h (
    omega (arith, K.length-encode_u32 n),
    ap (λ o. unwrap_or o 5) (K.decode_u32-encode_u32 n fits),
  )

  -- The kontract's storage, with a number in it.
  abbrev pub holding_number : ℕ → Storage
  holding_number n = (hash key, W.encode_u32 n) ∷ []

  insert-holding_number :
      (m n : ℕ) → BTreeMap.insert (hash key) (W.encode_u32 n) (holding_number m) ≡ holding_number n
  insert-holding_number m n = insert-singleton (hash key) (W.encode_u32 m) (W.encode_u32 n)

  length-encode_value :
      (n : ℕ) → length (C.encode_bytes (W.encode_u32 n)) ≡ length (C.compact 4) + 4
  length-encode_value n =
      ap length (S.encode_bytes_eq (W.encode_u32 n))
      ∙ length-append (C.compact (length (W.encode_u32 n))) (W.encode_u32 n)
      ∙ rw (K.length-encode_u32 n) refl

  -- Every number takes as many bytes.
  pub size-holding_number : (m n : ℕ) → size C (holding_number m) ≡ size C (holding_number n)
  size-holding_number m n = omega (
    arith,
    length-append (C.encode_bytes (hash key)) (C.encode_bytes (W.encode_u32 m) ++ []),
    length-append (C.encode_bytes (hash key)) (C.encode_bytes (W.encode_u32 n) ++ []),
    length-append (C.encode_bytes (W.encode_u32 m)) [],
    length-append (C.encode_bytes (W.encode_u32 n)) [],
    length-encode_value m,
    length-encode_value n,
  )

  pub within-holding_number :
      (b : Bounds) (m n : ℕ) → within b (holding_number m) ≡ within b (holding_number n)
  within-holding_number b m n = rw (K.length-encode_u32 m, K.length-encode_u32 n) refl

  pub run-first : run C hash (main A C W (collatz_conjecture A C W) h) (fresh_store 1 1 []) ≡ (
    ok tt,
    record (fresh_store 1 1 []) { curr_n_read = 1; curr_n_write = 1; storage = holding_number 16 },
  )
  unfolding BTreeMap.get BTreeMap.insert
  run-first =
      let found : current [] ≡ 5 = ap (λ o. unwrap_or o 5) K.decode_u32_nil in
      run-collatz_conjecture [] (omega arith) ∙ rw found refl

  pub run-next :
      (n : ℕ)
      → n < 2 ^ 32
      → run C hash (main A C W (collatz_conjecture A C W) h) (fresh_store 1 1 (holding_number n))
        ≡ (
          ok tt,
          record (fresh_store 1 1 (holding_number n)) {
            curr_n_read = 1;
            curr_n_write = 1;
            storage = holding_number (collatz_next n);
          },
        )
  run-next n fits =
      let (short, found) =
        stored-current (holding_number n) n fits (get-singleton (hash key) (W.encode_u32 n)) in
      run-collatz_conjecture (holding_number n) short
      ∙ rw (found, insert-holding_number n (collatz_next n)) refl
