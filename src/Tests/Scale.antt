-- ===== src/Tests/Scale.antt =====
-- The SCALE format itself, as a codec for which the laws hold.
use mathlib.Core.List.{append_assoc}
use kontracts.Prelude.{
  ℕ, zero, suc, ◌+◌, ◌*◌, ◌/◌, ◌%◌, ◌^◌, ◌≤◌, ◌<◌, ◌≡◌, refl, ap, ◌∙◌, inl, inr, true, Bool-cases,
  Option, none, some, Option-cases, [], ◌∷◌, ◌++◌, arith, leb, ltb, ◌==◌, length, take, drop,
  length-append, take-append, drop-append, if◌then◌else◌,
}
use kontracts.Bytes.{Bytes, bytes_ord}
use kontracts.BTreeMap.{IsSorted, Above, insert}
use kontracts.BTreeMap.Laws.{insert-IsSorted}
use kontracts.Codec.{Codec, IsScale, Storage, Fits, EntriesFit, encode_entries, keep_within}

-- k bytes, the low one first.
abbrev pub to_le : ℕ → ℕ → Bytes
to_le zero n = []
to_le (suc k) n = n % 256 ∷ to_le k (n / 256)

abbrev pub and_byte : ℕ → Option (ℕ × Bytes) → Option (ℕ × Bytes)
and_byte b none = none
and_byte b (some (n, rest)) = some (b + 256 * n, rest)

abbrev pub of_le : ℕ → Bytes → Option (ℕ × Bytes)
of_le zero rest = some (0, rest)
of_le (suc k) [] = none
of_le (suc k) (b ∷ rest) = and_byte b (of_le k rest)

pub of_le-to_le :
    (k n : ℕ) (rest : Bytes) → n < 256 ^ k → of_le k (to_le k n ++ rest) ≡ some (n, rest)
of_le-to_le zero n rest h = ap (λ r. some (r, rest)) (omega arith)
of_le-to_le (suc k) n rest h =
    ap (and_byte (n % 256)) (of_le-to_le k (n / 256) rest (omega arith))
    ∙ ap (λ r. some (r, rest)) (omega arith)

abbrev pub compact : ℕ → Bytes
compact n =
    if ltb n 64
    then to_le 1 (n * 4)
    else if ltb n (2 ^ 14)
    then to_le 2 (n * 4 + 1)
    else if ltb n (2 ^ 30)
    then to_le 4 (n * 4 + 2)
    else 3 ∷ to_le 4 n

abbrev pub quarter : Option (ℕ × Bytes) → Option (ℕ × Bytes)
quarter none = none
quarter (some (n, rest)) = some (n / 4, rest)

abbrev pub decode_compact : Bytes → Option (ℕ × Bytes)
decode_compact [] = none
decode_compact (b ∷ rest) =
    if b % 4 == 0
    then some (b / 4, rest)
    else if b % 4 == 1
    then quarter (of_le 2 (b ∷ rest))
    else if b % 4 == 2
    then quarter (of_le 4 (b ∷ rest))
    else of_le 4 rest

compact_small : (n : ℕ) → n < 64 → length (compact n) ≡ 1
compact_small n h = ground arith

compact_medium : (n : ℕ) → n < 2 ^ 14 → length (compact n) ≤ 2
compact_medium n h = ground arith

compact_large : (n : ℕ) → 64 ≤ n → 2 ≤ length (compact n)
compact_large n h = ground arith

pub decode_compact-compact :
    (n : ℕ) (rest : Bytes) → n < 2 ^ 32 → decode_compact (compact n ++ rest) ≡ some (n, rest)
decode_compact-compact n rest h = elim (Bool-cases (ltb n 64)) [
  | inl one ↦ rw one (ground arith)
  | inr _ ↦ elim (Bool-cases (ltb n (2 ^ 14))) [
    | inl two ↦ ground (arith, of_le-to_le 2 (n * 4 + 1) rest)
    | inr _ ↦ elim (Bool-cases (ltb n (2 ^ 30))) [
      | inl four ↦ ground (arith, of_le-to_le 4 (n * 4 + 2) rest)
      | inr _ ↦ ground (arith, of_le-to_le 4 n rest)
    ]
  ]
]

abbrev pub split : Option (ℕ × Bytes) → Option (Bytes × Bytes)
split none = none
split (some (n, rest)) = if leb n (length rest) then some (take n rest, drop n rest) else none

abbrev pub encode_bytes : Bytes → Bytes
encode_bytes v = compact (length v) ++ v

abbrev pub decode_bytes : Bytes → Option (Bytes × Bytes)
decode_bytes input = split (decode_compact input)

decode_bytes-encode_bytes :
    (v rest : Bytes) → length v < 2 ^ 32 → decode_bytes (encode_bytes v ++ rest) ≡ some (v, rest)
decode_bytes-encode_bytes v rest h =
    let fits : leb (length v) (length (v ++ rest)) ≡ true = ground (arith, length-append v rest) in
    ap split (
      ap decode_compact (append_assoc (compact (length v)) v rest)
      ∙ decode_compact-compact (length v) (v ++ rest) h)
    ∙ rw (fits, take-append (length v) v rest refl, drop-append (length v) v rest refl) refl

abbrev pub then_entry :
    Option (Bytes × Bytes) → (Bytes → Option (Storage × Bytes)) → Option (Storage × Bytes)
then_entry none next = none
then_entry (some (k, rest)) next = next rest

abbrev pub add_entry : Bytes → Bytes → Option (Storage × Bytes) → Option (Storage × Bytes)
add_entry k v none = none
add_entry k v (some (m, rest)) = some (insert k v m, rest)

abbrev pub bind_bytes :
    Option (Bytes × Bytes) → (Bytes → Bytes → Option (Storage × Bytes)) → Option (Storage × Bytes)
bind_bytes none f = none
bind_bytes (some (v, rest)) f = f v rest

abbrev pub decode_entries : ℕ → Bytes → Option (Storage × Bytes)
decode_entries zero input = some ([], input)
decode_entries (suc n) input =
    bind_bytes (decode_bytes input)
      (λ k rest. bind_bytes (decode_bytes rest) (λ v rest'. add_entry k v (decode_entries n rest')))

abbrev pub start_entries : Option (ℕ × Bytes) → Option (Storage × Bytes)
start_entries none = none
start_entries (some (n, rest)) = decode_entries n rest

abbrev pub decode_map : Bytes → Option (Storage × Bytes)
decode_map input = start_entries (decode_compact input)

insert-Above : (k v : Bytes) (m : Storage) → Above k m → insert k v m ≡ (k, v) ∷ m
unfolding insert
insert-Above k v [] h = refl
insert-Above k v ((j, w) ∷ m) h = rw h refl

decode_entries-encode_entries :
    (m : Storage) (rest : Bytes)
    → IsSorted m
    → EntriesFit m
    → decode_entries (length m) (encode_entries encode_bytes m ++ rest) ≡ some (m, rest)
decode_entries-encode_entries [] rest h f = refl
decode_entries-encode_entries ((k, v) ∷ m) rest (a, h) (fk, fv, f) =
    let after_key = encode_bytes v ++ encode_entries encode_bytes m in
    let cut_key : encode_bytes k ++ after_key ++ rest ≡ encode_bytes k ++ (after_key ++ rest) =
      append_assoc (encode_bytes k) after_key rest in
    let cut_value : after_key ++ rest ≡ encode_bytes v ++ (encode_entries encode_bytes m ++ rest) =
      append_assoc (encode_bytes v) (encode_entries encode_bytes m) rest in
    let key_read : decode_bytes (encode_bytes k ++ after_key ++ rest)
        ≡ some (k, after_key ++ rest) =
      ap decode_bytes cut_key ∙ decode_bytes-encode_bytes k (after_key ++ rest) fk in
    let value_read : decode_bytes (after_key ++ rest)
        ≡ some (v, encode_entries encode_bytes m ++ rest) =
      ap decode_bytes cut_value
      ∙ decode_bytes-encode_bytes v (encode_entries encode_bytes m ++ rest) fv in
    rw (key_read, value_read, decode_entries-encode_entries m rest h f)
      (ap (λ x. some (x, rest)) (insert-Above k v m a))

decode_entries-IsSorted :
    (n : ℕ) (input : Bytes) (m : Storage) (rest : Bytes)
    → decode_entries n input ≡ some (m, rest)
    → IsSorted m
decode_entries-IsSorted zero input m rest h = ground arith
decode_entries-IsSorted (suc n) input m rest h = elim (Option-cases (decode_bytes input)) [
  | inl e ↦ absurd (ground arith)
  | inr ((k, r), e) ↦ elim (Option-cases (decode_bytes r)) [
    | inl e' ↦ absurd (ground arith)
    | inr ((v, r'), e') ↦ elim (Option-cases (decode_entries n r')) [
      | inl e'' ↦ absurd (ground arith)
      | inr ((m', r''), e'') ↦
          let same : insert k v m' ≡ m = ground arith in
          rw (← same) (insert-IsSorted k v m' (decode_entries-IsSorted n r' m' r'' e''))
    ]
  ]
]

decode_map-IsSorted :
    (input : Bytes) (m : Storage) (rest : Bytes) → decode_map input ≡ some (m, rest) → IsSorted m
decode_map-IsSorted input m rest h = elim (Option-cases (decode_compact input)) [
  | inl e ↦ absurd (ground arith)
  | inr ((n, r), e) ↦ decode_entries-IsSorted n r m rest (ground arith)
]

abbrev pub scale : Codec
scale = record {
  compact = compact;
  decode_compact = decode_compact;
  encode_bytes = encode_bytes;
  decode_bytes = decode_bytes;
  encode_map = λ m. compact (length m) ++ encode_entries encode_bytes m;
  decode_map = decode_map;
  decode_bounded = λ b input. keep_within b (decode_map input);
}

decode_map-encode_map :
    (m : Storage) (rest : Bytes)
    → IsSorted m
    → Fits m
    → decode_map (scale.encode_map m ++ rest) ≡ some (m, rest)
decode_map-encode_map m rest sorted (n, fits) =
    let entries = encode_entries encode_bytes m in
    ap start_entries (
      ap decode_compact (append_assoc (compact (length m)) entries rest)
      ∙ decode_compact-compact (length m) (entries ++ rest) n)
    ∙ decode_entries-encode_entries m rest sorted fits

pub scale-IsScale : IsScale scale
scale-IsScale = record {
  compact_small = compact_small;
  compact_medium = compact_medium;
  compact_large = compact_large;
  decode_compact-compact = decode_compact-compact;
  encode_bytes_eq = λ v. refl;
  decode_bytes-encode_bytes = decode_bytes-encode_bytes;
  encode_map_eq = λ m. refl;
  decode_map-encode_map = decode_map-encode_map;
  decode_map-IsSorted = decode_map-IsSorted;
  decode_bounded_eq = λ b input. refl;
}
