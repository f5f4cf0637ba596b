-- ===== src/Codec/Size.antt =====
-- The size of an encoded storage bounds its lengths.
use mathlib.Core.List.{append-nil}
use kontracts.Prelude.{
  ℕ, ◌+◌, ◌*◌, ◌^◌, ◌≤◌, ◌<◌, ◌≡◌, ◌∙◌, ap, subst, inl, inr, true, Bool-cases, none, some, [], ◌∷◌,
  ◌++◌, arith, ltb, length, length-append, if◌then◌else◌,
}
use kontracts.Bytes.{Bytes, bytes_ord}
use kontracts.BTreeMap.{IsSorted}
use kontracts.Codec.{
  Codec, IsScale, Storage, Bounds, within, entries_within, keep_within, size, Fits, EntriesFit,
  encode_entries,
}

module _ (C : Codec) (S : IsScale C) where
  compact_pos : (n : ℕ) → 1 ≤ length (C.compact n)
  compact_pos n = elim (Bool-cases (ltb n 64)) [
    | inl small ↦ omega (arith, S.compact_small n (ground arith))
    | inr large ↦ omega (arith, S.compact_large n (ground arith))
  ]

  length-encode : (v : Bytes) → length v + 1 ≤ length (C.encode_bytes v)
  length-encode v =
      rw S.encode_bytes_eq
        (omega (arith, length-append (C.compact (length v)) v, compact_pos (length v)))

  length-encode_medium : (v : Bytes) → length v < 2 ^ 14 → length (C.encode_bytes v) ≤ length v + 2
  length-encode_medium v h =
      rw S.encode_bytes_eq
        (omega (arith, length-append (C.compact (length v)) v, S.compact_medium (length v) h))

  -- Short keys and values bound the size by the number of entries.
  pub size-le-entries :
      (b : Bounds) (m : Storage)
      → b.key_size ≤ 512
      → b.value_size ≤ 1024
      → entries_within b m ≡ true
      → size C m ≤ 1540 * length m
  size-le-entries b [] hk hv h = omega arith
  size-le-entries b ((k, v) ∷ m) hk hv h =
      let key_fits : length k ≤ 512 = ground arith in
      let value_fits : length v ≤ 1024 = ground arith in
      let rest = size-le-entries b m hk hv (ground arith) in
      omega (
        arith,
        length-append (C.encode_bytes k) (C.encode_bytes v ++ encode_entries C.encode_bytes m),
        length-append (C.encode_bytes v) (encode_entries C.encode_bytes m),
        length-encode_medium k (omega arith),
        length-encode_medium v (omega arith),
        rest,
      )

  -- An entry adds its key, its value and at least two bytes of lengths.
  pub size-cons :
      (k v : Bytes) (m : Storage) → length k + length v + 2 + size C m ≤ size C ((k, v) ∷ m)
  size-cons k v m =
      let rest = encode_entries C.encode_bytes m in
      omega (
        arith,
        length-append (C.encode_bytes k) (C.encode_bytes v ++ rest),
        length-append (C.encode_bytes v) rest,
        length-encode k,
        length-encode v,
      )

  length-le-size : (m : Storage) → length m ≤ size C m
  length-le-size [] = omega arith
  length-le-size ((k, v) ∷ m) = omega (arith, length-le-size m, size-cons k v m)

  size-EntriesFit : (m : Storage) → size C m < 2 ^ 32 → EntriesFit m
  size-EntriesFit [] h = tt
  size-EntriesFit ((k, v) ∷ m) h =
      let step = size-cons k v m in (omega arith, omega arith, size-EntriesFit m (omega arith))

  pub size-Fits : (m : Storage) → size C m < 2 ^ 32 → Fits m
  size-Fits m h = (omega (arith, length-le-size m), size-EntriesFit m h)

  -- The compact length in front is all that an encoding has beyond its size.
  pub size-le-length : (m : Storage) → size C m ≤ length (C.encode_map m)
  size-le-length m =
      rw S.encode_map_eq
        (omega (arith, length-append (C.compact (length m)) (encode_entries C.encode_bytes m)))

  pub decode_compact-encode_map :
      (m : Storage)
      → size C m < 2 ^ 32
      → C.decode_compact (C.encode_map m) ≡ some (length m, encode_entries C.encode_bytes m)
  decode_compact-encode_map m h = rw S.encode_map_eq (
      S.decode_compact-compact (length m) (encode_entries C.encode_bytes m)
        (omega (arith, length-le-size m)))

  pub decode_map-encode_map_nil :
      (m : Storage) → IsSorted m → size C m < 2 ^ 32 → C.decode_map (C.encode_map m) ≡ some (m, [])
  decode_map-encode_map_nil m sorted h =
      subst (λ b. C.decode_map b ≡ some (m, [])) (append-nil (C.encode_map m))
        (S.decode_map-encode_map m [] sorted (size-Fits m h))

  -- A storage survives the bounded decoding exactly if it keeps the bounds.
  pub decode_bounded-encode_map :
      (b : Bounds) (m : Storage)
      → IsSorted m
      → size C m < 2 ^ 32
      → C.decode_bounded b (C.encode_map m) ≡ (if within b m then some (m, []) else none)
  decode_bounded-encode_map b m sorted h =
      S.decode_bounded_eq b (C.encode_map m)
      ∙ ap (keep_within b) (decode_map-encode_map_nil m sorted h)
