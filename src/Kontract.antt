-- ===== src/Kontract.antt =====
-- The kontract's side: what the attribute macro `kontracts` puts around a kontract's main
-- function. A kontract is compiled to wasm with its allocator; its computation is a function of
-- its heap that hands the calls of the host on.
pub mod Reads
pub mod Programs
pub mod Collatz
pub mod Deployed
pub mod Copied
pub mod Endless
pub mod Freed
use kontracts.Prelude.{
  ℕ, ◌+◌, ◌≤◌, ◌<◌, ◌^◌, ◌≡◌, Option, none, some, List, [], ◌∷◌, length, replicate,
}
use kontracts.Bytes.{Bytes}
use kontracts.Codec.{Codec}
use kontracts.Executor.Memory.{slice}
use kontracts.Executor.Host.{set, get, remove}
use kontracts.Executor.Guest.{Guest, returned, trapped, calls}

-- wee_alloc and the linear memory, which the repository does not hold. `alloc` places a vector's
-- bytes and returns where.
pub record Allocator : Type 1 where
  pub Heap : Type 0
  pub memory : Heap → Bytes
  pub set_memory : Heap → Bytes → Heap
  pub alloc : Heap → Bytes → ℕ × Heap

pub record IsAllocator (A : Allocator) : Type 0 where
  pub memory-set_memory : (h : A.Heap) (mem : Bytes) → A.memory (A.set_memory h mem) ≡ mem
  -- the bytes stand where they were placed
  pub placed :
      (h : A.Heap) (v : Bytes)
      → let (ptr, h') = A.alloc h v in slice ptr (length v) (A.memory h') ≡ some v
  -- and still do so after the next allocation
  pub kept :
      (h : A.Heap) (v w : Bytes)
      → let (ptr, h') = A.alloc h v in slice ptr (length v) (A.memory (A.alloc h' w).1) ≡ some v

-- A computation of a kontract: how it goes on from its result and the heap.
abbrev pub Kontract : Type 0 → Type 0 → Type 0
Kontract H R = H → (R → H → Guest (Unit {0})) → Guest (Unit {0})

module _ (A : Allocator) where
  -- The heap when the host returns.
  abbrev pub resume : A.Heap → Option Bytes → A.Heap
  resume h none = h
  resume h (some mem) = A.set_memory h mem

module _ {H : Type 0} where
  infixl 5 ◌>>=◌ ◌>>◌
  abbrev pub ◌>>=◌ : {Q R : Type 0} → Kontract H Q → (Q → Kontract H R) → Kontract H R
  ◌>>=◌ m f h k = m h (λ q h'. f q h' k)

  abbrev pub ◌>>◌ : {Q R : Type 0} → Kontract H Q → Kontract H R → Kontract H R
  m >> n = m >>= λ _. n

  -- The panic handler aborts, which wasm does by `unreachable`.
  abbrev pub panic : {R : Type 0} → Kontract H R
  panic h k = trapped "wasm `unreachable` instruction executed"

  -- `expect`, and `unwrap_or`.
  abbrev pub expect : {R : Type 0} → Option R → Kontract H R
  expect none = panic
  expect (some r) = λ h k. k r h

  abbrev pub pure : {R : Type 0} → R → Kontract H R
  pure r h k = k r h

abbrev pub max_value_bytes : ℕ
max_value_bytes = 100

module _ (A : Allocator) (C : Codec) where
  unfoldable pub write : Bytes → Bytes → Kontract A.Heap (Unit {0})
  write key value h k =
      let (key_ptr, h₁) = A.alloc h key in
      let (value_ptr, h₂) = A.alloc h₁ value in
      calls (set key_ptr (length key) value_ptr (length value)) (some (A.memory h₂))
        (λ mem. k tt (resume A h₂ mem))

  -- The bytes of the `result` vector, once the host has filled it.
  abbrev decode_result : Option Bytes → Option (Bytes × Bytes)
  decode_result none = none
  decode_result (some result) = C.decode_bytes result

  abbrev value_of : Option (Bytes × Bytes) → Option Bytes
  value_of none = none
  value_of (some (value, _)) = some value

  unfoldable pub read : Bytes → Kontract A.Heap Bytes
  read key h k =
      let (key_ptr, h₁) = A.alloc h key in
      let (result_ptr, h₂) = A.alloc h₁ (replicate max_value_bytes 0) in
      calls (get key_ptr (length key) result_ptr max_value_bytes) (some (A.memory h₂)) (λ mem.
        let h₃ = resume A h₂ mem in
        expect (value_of (decode_result (slice result_ptr max_value_bytes (A.memory h₃)))) h₃ k)

  unfoldable pub delete : Bytes → Kontract A.Heap (Unit {0})
  delete key h k =
      let (key_ptr, h₁) = A.alloc h key in
      calls (remove key_ptr (length key)) (some (A.memory h₁)) (λ mem. k tt (resume A h₁ mem))
