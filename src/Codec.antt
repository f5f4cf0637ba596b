-- ===== src/Codec.antt =====
-- parity-scale-codec, which the executor and the pallet call and the repository does not hold:
-- its functions are a parameter, and what the code relies on is a record of named laws, each
-- a line of the SCALE format's description.
pub mod Size
use kontracts.Prelude.{
  ℕ, ◌+◌, ◌^◌, ◌≤◌, ◌<◌, ◌≡◌, Bool, true, ◌&&◌, Option, none, some, List, [], ◌∷◌, ◌++◌, leb,
  length, if◌then◌else◌,
}
use kontracts.Bytes.{Bytes, bytes_ord}
use kontracts.BTreeMap.{BTreeMap, IsSorted}

-- The storage of one kontract: `KontractStorage` of the executor.
abbrev pub Storage : Type 0
Storage = BTreeMap Bytes Bytes

-- The bounds of the pallet's `KontractStorage<T>`.
pub record Bounds : Type 0 where
  pub key_size : ℕ
  pub value_size : ℕ
  pub entries : ℕ

abbrev pub entries_within : Bounds → Storage → Bool
entries_within b [] = true
entries_within b ((k, v) ∷ m) =
    leb (length k) b.key_size && leb (length v) b.value_size && entries_within b m

abbrev pub within : Bounds → Storage → Bool
within b m = leb (length m) b.entries && entries_within b m

-- A decoder takes its value off the front of the input and leaves the rest.
pub record Codec : Type 0 where
  pub compact : ℕ → Bytes
  pub decode_compact : Bytes → Option (ℕ × Bytes)
  pub encode_bytes : Bytes → Bytes
  pub decode_bytes : Bytes → Option (Bytes × Bytes)
  pub encode_map : Storage → Bytes
  pub decode_map : Bytes → Option (Storage × Bytes)
  pub decode_bounded : Bounds → Bytes → Option (Storage × Bytes)

abbrev pub encode_entries : (Bytes → Bytes) → Storage → Bytes
encode_entries enc [] = []
encode_entries enc ((k, v) ∷ m) = enc k ++ (enc v ++ encode_entries enc m)

-- All lengths fit the format's `u32`.
abbrev pub EntriesFit : Storage → Type 0
EntriesFit [] = Unit {0}
EntriesFit ((k, v) ∷ m) = (length k < 2 ^ 32) × (length v < 2 ^ 32) × EntriesFit m

abbrev pub Fits : Storage → Type 0
Fits m = (length m < 2 ^ 32) × EntriesFit m

-- The length of an encoded map behind its compact length: what the pallet takes for its size.
abbrev pub size : Codec → Storage → ℕ
size C m = length (encode_entries C.encode_bytes m)

-- A decoded map that breaks a bound is a decoding error.
abbrev pub keep_within : Bounds → Option (Storage × Bytes) → Option (Storage × Bytes)
keep_within b none = none
keep_within b (some (m, rest)) = if within b m then some (m, rest) else none

pub record IsScale (C : Codec) : Type 0 where
  pub compact_small : (n : ℕ) → n < 64 → length (C.compact n) ≡ 1
  pub compact_medium : (n : ℕ) → n < 2 ^ 14 → length (C.compact n) ≤ 2
  pub compact_large : (n : ℕ) → 64 ≤ n → 2 ≤ length (C.compact n)
  pub decode_compact-compact :
      (n : ℕ) (rest : Bytes) → n < 2 ^ 32 → C.decode_compact (C.compact n ++ rest) ≡ some (n, rest)
  pub encode_bytes_eq : (v : Bytes) → C.encode_bytes v ≡ C.compact (length v) ++ v
  pub decode_bytes-encode_bytes :
      (v rest : Bytes)
      → length v < 2 ^ 32
      → C.decode_bytes (C.encode_bytes v ++ rest) ≡ some (v, rest)
  pub encode_map_eq :
      (m : Storage) → C.encode_map m ≡ C.compact (length m) ++ encode_entries C.encode_bytes m
  pub decode_map-encode_map :
      (m : Storage) (rest : Bytes)
      → IsSorted m
      → Fits m
      → C.decode_map (C.encode_map m ++ rest) ≡ some (m, rest)
  pub decode_map-IsSorted :
      (input : Bytes) (m : Storage) (rest : Bytes)
      → C.decode_map input ≡ some (m, rest)
      → IsSorted m
  pub decode_bounded_eq :
      (b : Bounds) (input : Bytes) → C.decode_bounded b input ≡ keep_within b (C.decode_map input)
