-- ===== src/Kontract/Programs.antt =====
-- The kontracts of the pallet's tests and of the template, as their main functions are written.
pub mod Runs
use kontracts.Prelude.{
  ℕ, ◌+◌, ◌*◌, ◌/◌, ◌%◌, ◌<◌, ◌^◌, ◌≡◌, Bool, true, false, ◌&&◌, Option, none, some, List, [], ◌∷◌,
  length, ◌==◌, if◌then◌else◌,
}
use kontracts.Bytes.{Bytes}
use kontracts.Codec.{Codec}
use kontracts.Executor.Guest.{Guest, returned}
use kontracts.Kontract.{Allocator, Kontract, ◌>>=◌, ◌>>◌, expect, panic, pure, write, read, delete}

-- The codec's functions on `u32` and `Vec<u32>`, which the kontracts call.
pub record Words : Type 0 where
  pub encode_u32 : ℕ → Bytes
  pub decode_u32 : Bytes → Option ℕ
  pub encode_vec : List ℕ → Bytes
  pub decode_vec : Bytes → Option (List ℕ)

abbrev pub AreU32 : List ℕ → Type 0
AreU32 [] = Unit {0}
AreU32 (n ∷ ns) = (n < 2 ^ 32) × AreU32 ns

pub record IsWords (W : Words) : Type 0 where
  pub decode_u32-encode_u32 : (n : ℕ) → n < 2 ^ 32 → W.decode_u32 (W.encode_u32 n) ≡ some n
  pub decode_u32_nil : W.decode_u32 [] ≡ none
  pub length-encode_u32 : (n : ℕ) → length (W.encode_u32 n) ≡ 4
  pub decode_vec-encode_vec :
      (ns : List ℕ) → AreU32 ns → length ns < 64 → W.decode_vec (W.encode_vec ns) ≡ some ns
  pub decode_vec_nil : W.decode_vec [] ≡ none
  pub length-encode_vec :
      (ns : List ℕ) → length ns < 64 → length (W.encode_vec ns) ≡ 4 * length ns + 1

abbrev pub unwrap_or : Option ℕ → ℕ → ℕ
unwrap_or none n = n
unwrap_or (some m) n = m

abbrev pub same_words : List ℕ → List ℕ → Bool
same_words [] [] = true
same_words [] (n ∷ ns) = false
same_words (m ∷ ms) [] = false
same_words (m ∷ ms) (n ∷ ns) = (m == n) && same_words ms ns

-- `res` of the Collatz kontract, on `u32`.
abbrev pub collatz_next : ℕ → ℕ
collatz_next val = if val % 2 == 0 then val / 2 else (val * 3 % 2 ^ 32 + 1) % 2 ^ 32

module _ (A : Allocator) (C : Codec) (W : Words) where
  -- The export "main": the kontract's function, which then returns to the host.
  abbrev pub main : Kontract A.Heap (Unit {0}) → A.Heap → Guest (Unit {0})
  main body h = body h (λ _ _. returned tt)

  unfoldable pub collatz_conjecture : Kontract A.Heap (Unit {0})
  collatz_conjecture = do
    encoded ← read A C (W.encode_u32 1)
    let val = unwrap_or (W.decode_u32 encoded) 5
    write A C (W.encode_u32 1) (W.encode_u32 (collatz_next val))

  unfoldable pub write_8b : Kontract A.Heap (Unit {0})
  write_8b = write A C (W.encode_vec (1 ∷ 2 ∷ 3 ∷ [])) (W.encode_vec (4 ∷ 5 ∷ 6 ∷ []))

  unfoldable pub read_test : Kontract A.Heap (Unit {0})
  read_test = do
    encoded ← read A C (W.encode_vec (1 ∷ 2 ∷ 3 ∷ []))
    value ← expect (W.decode_vec encoded)
    if same_words (4 ∷ 5 ∷ 6 ∷ []) value then pure tt else panic

  unfoldable pub delete_test : Kontract A.Heap (Unit {0})
  delete_test = delete A C (W.encode_vec (1 ∷ 2 ∷ 3 ∷ []))

  unfoldable pub write_and_read_16b : Kontract A.Heap (Unit {0})
  write_and_read_16b = do
    write A C (W.encode_vec (1 ∷ 2 ∷ 3 ∷ [])) (W.encode_vec (4 ∷ 5 ∷ 6 ∷ []))
    encoded ← read A C (W.encode_vec (1 ∷ 2 ∷ 3 ∷ []))
    read_value ← expect (W.decode_vec encoded)
    write A C (W.encode_vec (4 ∷ 5 ∷ 6 ∷ [])) (W.encode_vec read_value)

  -- The template's, which is the same.
  abbrev pub template_main : Kontract A.Heap (Unit {0})
  template_main = write_and_read_16b

  unfoldable pub empty_execution : Kontract A.Heap (Unit {0})
  empty_execution = pure tt

  unfoldable pub panic_test : Kontract A.Heap (Unit {0})
  panic_test = panic
