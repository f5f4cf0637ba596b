-- ===== src/Executor/Memory/Window.antt =====
-- Which bytes of the linear memory `read_vec` and `write_vec` touch.
use kontracts.Prelude.{
  ℕ, ◌+◌, ◌-◌, ◌≤◌, ◌<◌, ◌≡◌, refl, subst, inl, inr, some, [], ◌++◌, ◌&&◌, arith, ltb, length, take,
  drop, length-take, take-append, drop-append, length-append, length-drop, take-append_longer,
  if◌then◌else◌, Bool-cases,
}
use mathlib.Core.List.{append-nil}
use kontracts.Prelude.Outcome.{ok, err, panic}
use kontracts.Bytes.{Bytes}
use kontracts.Codec.{Codec, IsScale}
use kontracts.Executor.Store.{KontractStore, Caller}
use kontracts.Executor.Memory.{slice, splice, write_vec}

module _ (ptr : ℕ) (new mem : Bytes) (fits : ptr + length new ≤ length mem) where
  length-prefix : length (take ptr mem) ≡ ptr
  length-prefix = omega (arith, length-take ptr mem)

  drop-splice : drop ptr (splice ptr new mem) ≡ new ++ drop (ptr + length new) mem
  drop-splice = drop-append ptr (take ptr mem) _ length-prefix

  pub length-splice : length (splice ptr new mem) ≡ length mem
  length-splice = omega (
    arith,
    length-append (take ptr mem) (new ++ drop (ptr + length new) mem),
    length-append new (drop (ptr + length new) mem),
    length-drop (ptr + length new) mem,
    length-prefix,
  )

  -- What was written is read back at the same place.
  pub slice-splice : slice ptr (length new) (splice ptr new mem) ≡ some new
  unfolding slice
  slice-splice =
      rw
        (
          length-splice,
          drop-splice,
          take-append (length new) new (drop (ptr + length new) mem) refl,
        )
        (ground (arith, length-append new (drop (ptr + length new) mem)))

  -- A longer window has what was written in front.
  pub slice-splice_longer :
      (n : ℕ)
      → length new ≤ n
      → ptr + n ≤ length mem
      → slice ptr n (splice ptr new mem)
        ≡ some (new ++ take (n - length new) (drop (ptr + length new) mem))
  unfolding slice
  slice-splice_longer n shorter room =
      rw
        (length-splice, drop-splice, take-append_longer n new (drop (ptr + length new) mem) shorter)
        (ground (
          arith,
          length-append new (drop (ptr + length new) mem),
          length-drop (ptr + length new) mem,
        ))

module _ (C : Codec) (S : IsScale C) where
  pub length-encode_small : (v : Bytes) → length v < 64 → length (C.encode_bytes v) ≡ length v + 1
  length-encode_small v h =
      rw S.encode_bytes_eq
        (omega (arith, length-append (C.compact (length v)) v, S.compact_small (length v) h))

  length-encode_large : (v : Bytes) → 64 ≤ length v → length v + 2 ≤ length (C.encode_bytes v)
  length-encode_large v h =
      rw S.encode_bytes_eq
        (omega (arith, length-append (C.compact (length v)) v, S.compact_large (length v) h))

  -- On an exported memory, write_vec traps if the buffer is said to be shorter than the value;
  -- it writes the encoding of a value of less than 64 bytes that has one byte more of memory
  -- behind its place; and it panics otherwise.
  pub write_vec_branches :
      (v : Bytes) (ptr size : ℕ) (s : KontractStore) (mem : Bytes)
      → let c : Caller = record { data_mut = s; memory = some mem } in
        write_vec C v ptr size c ≡ (
          if ltb size (length v)
          then (err "Impossible write data in wasm memory", c)
          else if ltb (length v) 64 && ltb (ptr + length v) (length mem)
          then (ok tt, record c { memory = some (splice ptr (C.encode_bytes v) mem) })
          else (panic, c))
  unfolding write_vec
  write_vec_branches v ptr size s mem = elim (Bool-cases (ltb (length v) 64)) [
    | inl small ↦ ground (arith, length-encode_small v)
    | inr large ↦ ground (arith, length-encode_large v)
  ]

module _ (C : Codec) (S : IsScale C) (v : Bytes) (ptr : ℕ) (mem : Bytes) (short : length v < 64)
    (room : ptr + length v < length mem) where
  encoded_fits : ptr + length (C.encode_bytes v) ≤ length mem
  encoded_fits = omega (arith, length-encode_small C S v short)

  pub length-splice_encoded : length (splice ptr (C.encode_bytes v) mem) ≡ length mem
  length-splice_encoded = length-splice ptr (C.encode_bytes v) mem encoded_fits

  pub slice-splice_encoded :
      slice ptr (length v + 1) (splice ptr (C.encode_bytes v) mem) ≡ some (C.encode_bytes v)
  slice-splice_encoded =
      subst (λ n. slice ptr n (splice ptr (C.encode_bytes v) mem) ≡ some (C.encode_bytes v))
        (length-encode_small C S v short) (slice-splice ptr (C.encode_bytes v) mem encoded_fits)

  pub decode_bytes-encode_small : C.decode_bytes (C.encode_bytes v) ≡ some (v, [])
  decode_bytes-encode_small =
      subst (λ b. C.decode_bytes b ≡ some (v, [])) (append-nil (C.encode_bytes v))
        (S.decode_bytes-encode_bytes v [] (omega arith))

-- A window that can be read lies in the memory.
pub slice-bounds :
    (ptr n : ℕ) (mem : Bytes) {v : Bytes} → slice ptr n mem ≡ some v → ptr + n ≤ length mem
unfolding slice
slice-bounds ptr n mem h = ground (arith, length-drop ptr mem)
