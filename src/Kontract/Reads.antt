-- ===== src/Kontract/Reads.antt =====
-- What the kontract's `write`, `read` and `delete` do to the storage that the host keeps.
use kontracts.Prelude.{
  ℕ, ◌+◌, ◌-◌, ◌^◌, ◌≤◌, ◌<◌, ◌≡◌, refl, ◌∙◌, ap, some, ◌++◌, arith, leb, length, take, drop,
  replicate, if◌then◌else◌,
}
use kontracts.Prelude.Outcome.{err, panic}
use kontracts.Bytes.{Bytes, bytes_ord}
use kontracts.BTreeMap
use kontracts.BTreeMap.Laws.{get-insert_self}
use kontracts.Codec.{Codec, IsScale}
use kontracts.Executor.Store.{KontractStore, kontracts_set, kontracts_remove}
use kontracts.Executor.Memory.{slice, splice, read_vec, write_vec}
use kontracts.Executor.Memory.Window.{
  write_vec_branches, slice-bounds, slice-splice_longer, length-encode_small,
}
use kontracts.Executor.Host.{unwrap_or_empty, get, host_call}
use kontracts.Executor.Host.Get.{get_writes}
use kontracts.Executor.Guest.{Guest, run}
use kontracts.Kontract.{Allocator, IsAllocator, write, read, delete, max_value_bytes, resume}

module _ (A : Allocator) (L : IsAllocator A) (C : Codec) (S : IsScale C) (hash : Bytes → Bytes)
    (key : Bytes) (h : A.Heap) (s : KontractStore) where
  -- A write within the limit is counted and stored, and the kontract goes on.
  pub run-write :
      (value : Bytes) (k : Unit {0} → A.Heap → Guest (Unit {0}))
      → s.curr_n_write < s.max_n_write
      → s.max_n_write < 2 ^ 32
      → (h' : A.Heap) × (run C hash (write A C key value h k) s
          ≡ run C hash (k tt h') (record s {
            curr_n_write = s.curr_n_write + 1;
            storage = BTreeMap.insert (hash key) value s.storage;
          }))
  unfolding write run host_call read_vec kontracts_set
  run-write value k budget limit =
      let h₁ = (A.alloc h key).1 in
      let h₂ = (A.alloc h₁ value).1 in
      (resume A h₂ (some (A.memory h₂)), ground (arith, L.kept h key value, L.placed h₁ value))

  -- So is a removal.
  pub run-delete :
      (k : Unit {0} → A.Heap → Guest (Unit {0}))
      → s.curr_n_write < s.max_n_write
      → s.max_n_write < 2 ^ 32
      → (h' : A.Heap) × (run C hash (delete A C key h k) s
          ≡ run C hash (k tt h') (record s {
            curr_n_write = s.curr_n_write + 1;
            storage = BTreeMap.remove (hash key) s.storage;
          }))
  unfolding delete run host_call read_vec kontracts_remove
  run-delete k budget limit =
      let h₁ = (A.alloc h key).1 in
      (resume A h₁ (some (A.memory h₁)), ground (arith, L.placed h key))

module _ (A : Allocator) (L : IsAllocator A) (C : Codec) (S : IsScale C) (hash : Bytes → Bytes)
    (key : Bytes) (h : A.Heap) (s : KontractStore) (k : Bytes → A.Heap → Guest (Unit {0}))
    (budget : s.curr_n_read < s.max_n_read) (limit : s.max_n_read < 2 ^ 32) where
  abbrev stored : Bytes
  stored = unwrap_or_empty (BTreeMap.get (hash key) s.storage)

  abbrev counted : KontractStore
  counted = record s { curr_n_read = s.curr_n_read + 1 }

  abbrev key_ptr : ℕ
  key_ptr = (A.alloc h key).0

  abbrev h₁ : A.Heap
  h₁ = (A.alloc h key).1

  abbrev result_ptr : ℕ
  result_ptr = (A.alloc h₁ (replicate max_value_bytes 0)).0

  abbrev h₂ : A.Heap
  h₂ = (A.alloc h₁ (replicate max_value_bytes 0)).1

  result_fits : result_ptr + 100 ≤ length (A.memory h₂)
  result_fits =
      slice-bounds result_ptr 100 (A.memory h₂) (L.placed h₁ (replicate max_value_bytes 0))

  host_writes :
      host_call C hash
        (get key_ptr (length key) result_ptr 100)
        (record { data_mut = s; memory = some (A.memory h₂) })
      ≡ write_vec C stored result_ptr 100
          (record { data_mut = counted; memory = some (A.memory h₂) })
  host_writes =
      get_writes C S hash key_ptr (length key) result_ptr 100 s (A.memory h₂) key
        (L.kept h key (replicate max_value_bytes 0)) budget limit

  -- What the kontract finds in the result vector after the host has written a short value.
  result_decoded :
      length stored < 64
      → (rest : Bytes) × (slice result_ptr 100
            (splice result_ptr (C.encode_bytes stored) (A.memory h₂))
          ≡ some (C.encode_bytes stored ++ rest))
        × (C.decode_bytes (C.encode_bytes stored ++ rest) ≡ some (stored, rest))
  result_decoded short =
      let encoded = length-encode_small C S stored short in
      (
        take (100 - length (C.encode_bytes stored))
            (drop (result_ptr + length (C.encode_bytes stored)) (A.memory h₂)),
        slice-splice_longer result_ptr (C.encode_bytes stored) (A.memory h₂)
            (omega (arith, result_fits)) 100 (omega arith) result_fits,
        S.decode_bytes-encode_bytes stored _ (omega arith),
      )

  -- A read, with one left, of a key whose stored value has less than 64 bytes hands the kontract
  -- that value, or no bytes if none is stored, and is counted.
  pub run-read :
      length stored < 64
      → (h' : A.Heap) × (run C hash (read A C key h k) s ≡ run C hash (k stored h') counted)
  unfolding read run
  run-read short =
      let (rest, found, decoded) = result_decoded short in
      let mem' = splice result_ptr (C.encode_bytes stored) (A.memory h₂) in
      (
        resume A h₂ (some mem'),
        ground (
          arith,
          host_writes,
          write_vec_branches C S stored result_ptr 100 counted (A.memory h₂),
          result_fits,
          L.memory-set_memory h₂ mem',
          found,
          decoded,
        ),
      )

  -- A read, with one left, of a key whose stored value has 64 bytes or more ends the run: up to
  -- 100 bytes the host panics, beyond that it traps.
  pub run-read_long :
      64 ≤ length stored
      → (run C hash (read A C key h k) s).0
        ≡ (if leb (length stored) 100 then panic else err "Impossible write data in wasm memory")
  unfolding read run
  run-read_long long =
      ground
        (arith, host_writes, write_vec_branches C S stored result_ptr 100 counted (A.memory h₂))

module _ (A : Allocator) (L : IsAllocator A) (C : Codec) (S : IsScale C) (hash : Bytes → Bytes)
    (key value : Bytes) (h : A.Heap) (s : KontractStore) where
  -- A kontract that writes a value of less than 64 bytes and then reads the key, with a read and
  -- a write left, goes on with that value, from a store that has the value under the hashed key
  -- and has counted both.
  pub read-write :
      (k : Bytes → A.Heap → Guest (Unit {0}))
      → length value < 64
      → s.curr_n_write < s.max_n_write
      → s.max_n_write < 2 ^ 32
      → s.curr_n_read < s.max_n_read
      → s.max_n_read < 2 ^ 32
      → (h' : A.Heap) × (run C hash (write A C key value h (λ _ h₁. read A C key h₁ k)) s
          ≡ run C hash (k value h') (record s {
            curr_n_read = s.curr_n_read + 1;
            curr_n_write = s.curr_n_write + 1;
            storage = BTreeMap.insert (hash key) value s.storage;
          }))
  read-write k short write_budget write_limit read_budget read_limit =
      let (h₁, written) =
        run-write A L C S hash key h s value (λ _ h₁. read A C key h₁ k) write_budget write_limit in
      let s₁ : KontractStore = record s {
        curr_n_write = s.curr_n_write + 1;
        storage = BTreeMap.insert (hash key) value s.storage;
      } in
      let found : unwrap_or_empty (BTreeMap.get (hash key) s₁.storage) ≡ value =
        ap unwrap_or_empty (get-insert_self (hash key) value s.storage) in
      let (h₂, was_read) =
        run-read A L C S hash key h₁ s₁ k read_budget read_limit (rw found short) in
      (h₂, written ∙ was_read ∙ rw found refl)
