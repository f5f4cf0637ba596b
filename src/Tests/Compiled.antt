-- ===== src/Tests/Compiled.antt =====
-- An allocator that grows the memory at its end, and the format of `u32` and of `Vec<u32>`.
use mathlib.Core.List.{append-nil, append_assoc}
use kontracts.Prelude.{
  ℕ, zero, suc, ◌*◌, ◌≡◌, refl, ◌∙◌, ap, subst, Option, none, some, List, [], ◌∷◌, ◌++◌, arith,
  length, length-append, take-append, drop-append,
}
use kontracts.Bytes.{Bytes}
use kontracts.Executor.Memory.{slice}
use kontracts.Kontract.{Allocator, IsAllocator}
use kontracts.Kontract.Programs.{Words, IsWords, AreU32}
use kontracts.Tests.Scale.{
  scale-IsScale, to_le, of_le, of_le-to_le, compact, decode_compact, decode_compact-compact,
}

abbrev pub growing : Allocator
growing = record {
  Heap = Bytes;
  memory = λ h. h;
  set_memory = λ h mem. mem;
  alloc = λ h v. (length h, h ++ v);
}

slice-append : (h v w : Bytes) → slice (length h) (length v) (h ++ (v ++ w)) ≡ some v
unfolding slice
slice-append h v w =
    rw (drop-append (length h) h (v ++ w) refl, take-append (length v) v w refl)
      (ground (arith, length-append h (v ++ w), length-append v w))

pub growing-IsAllocator : IsAllocator growing
growing-IsAllocator = record {
  memory-set_memory = λ h mem. refl;
  placed = λ h v.
      subst (λ m. slice (length h) (length v) (h ++ m) ≡ some v) (append-nil v)
        (slice-append h v []);
  kept = λ h v w. ap (slice (length h) (length v)) (append_assoc h v w) ∙ slice-append h v w;
}

abbrev value_of : Option (ℕ × Bytes) → Option ℕ
value_of none = none
value_of (some (n, _)) = some n

abbrev words_of : Option (List ℕ × Bytes) → Option (List ℕ)
words_of none = none
words_of (some (ns, _)) = some ns

abbrev encode_words : List ℕ → Bytes
encode_words [] = []
encode_words (n ∷ ns) = to_le 4 n ++ encode_words ns

abbrev then_words :
    Option (ℕ × Bytes) → (ℕ → Bytes → Option (List ℕ × Bytes)) → Option (List ℕ × Bytes)
then_words none f = none
then_words (some (n, rest)) f = f n rest

abbrev add_word : ℕ → Option (List ℕ × Bytes) → Option (List ℕ × Bytes)
add_word n none = none
add_word n (some (ns, rest)) = some (n ∷ ns, rest)

abbrev decode_words : ℕ → Bytes → Option (List ℕ × Bytes)
decode_words zero input = some ([], input)
decode_words (suc k) input = then_words (of_le 4 input) (λ n rest. add_word n (decode_words k rest))

abbrev pub words : Words
words = record {
  encode_u32 = to_le 4;
  decode_u32 = λ input. value_of (of_le 4 input);
  encode_vec = λ ns. compact (length ns) ++ encode_words ns;
  decode_vec = λ input. words_of (then_words (decode_compact input) decode_words);
}

decode_words-encode_words :
    (ns : List ℕ) → AreU32 ns → decode_words (length ns) (encode_words ns) ≡ some (ns, [])
decode_words-encode_words [] h = refl
decode_words-encode_words (n ∷ ns) (fits, h) =
    ap (λ o. then_words o (λ k rest. add_word k (decode_words (length ns) rest)))
      (of_le-to_le 4 n (encode_words ns) (omega arith))
    ∙ ap (add_word n) (decode_words-encode_words ns h)

length-encode_words : (ns : List ℕ) → length (encode_words ns) ≡ 4 * length ns
length-encode_words [] = omega arith
length-encode_words (n ∷ ns) = omega (arith, length-encode_words ns)

pub words-IsWords : IsWords words
words-IsWords = record {
  decode_u32-encode_u32 = λ n h. ap value_of (
      subst (λ b. of_le 4 b ≡ some (n, [])) (append-nil (to_le 4 n))
        (of_le-to_le 4 n [] (omega arith)));
  decode_u32_nil = refl;
  length-encode_u32 = λ n. refl;
  decode_vec-encode_vec = λ ns h short. ap words_of (
      ap (λ o. then_words o decode_words)
        (decode_compact-compact (length ns) (encode_words ns) (omega arith))
      ∙ decode_words-encode_words ns h);
  decode_vec_nil = refl;
  length-encode_vec = λ ns short. omega (
    arith,
    length-append (compact (length ns)) (encode_words ns),
    length-encode_words ns,
    scale-IsScale.compact_small (length ns) short,
  );
}
