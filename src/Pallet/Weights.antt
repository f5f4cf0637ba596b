-- ===== src/Pallet/Weights.antt =====
-- The weights that the calls are annotated with, in `u64` arithmetic.
use kontracts.Prelude.{ℕ, ◌+◌, ◌*◌, ◌%◌, ◌^◌, ◌≤◌, ◌<◌, ◌≡◌, arith}

-- `T::DbWeight`, whose `ref_time` a runtime chooses.
pub record DbWeight : Type 0 where
  pub writes : ℕ → ℕ
  pub reads_writes : ℕ → ℕ → ℕ

-- A sum of prices for at most 2 ^ 32 - 1 accesses of each kind.
pub record IsDbWeight (D : DbWeight) : Type 0 where
  pub writes-bound : D.writes 1 < 2 ^ 63
  pub reads_writes-bound : (r w : ℕ) → r < 2 ^ 32 → w < 2 ^ 32 → D.reads_writes r w < 2 ^ 63
  pub reads_writes-le :
      (r r' w w' : ℕ) → r ≤ r' → w ≤ w' → D.reads_writes r w ≤ D.reads_writes r' w'

abbrev pub upload_code_weight : DbWeight → ℕ → ℕ
upload_code_weight D len = ((10000 + D.writes 1) % 2 ^ 64 + 155 * len % 2 ^ 64) % 2 ^ 64

unfoldable pub execute_code_weight : DbWeight → ℕ → ℕ → ℕ → ℕ
execute_code_weight D fuel expected_read expected_write =
    ((10000 + D.reads_writes expected_read expected_write) % 2 ^ 64 + 100 * fuel % 2 ^ 64) % 2 ^ 64

abbrev pub delete_code_weight : ℕ
delete_code_weight = 0

abbrev pub update_code_weight : DbWeight → ℕ → ℕ
update_code_weight D len = ((10000 + D.writes 1) % 2 ^ 64 + 155 * len % 2 ^ 64) % 2 ^ 64

-- For u32 arguments, the weight of an execution is the sum of its prices without wrapping, and
-- declaring more fuel, reads or writes never makes it less.
pub execute_code_weight-le :
    (D : DbWeight)
    → IsDbWeight D
    → (f f' r r' w w' : ℕ) → f ≤ f'
    → r ≤ r'
    → w ≤ w'
    → f' < 2 ^ 32
    → r' < 2 ^ 32
    → w' < 2 ^ 32
    → (execute_code_weight D f r w ≤ execute_code_weight D f' r' w')
      × (execute_code_weight D f' r' w' ≡ 10000 + D.reads_writes r' w' + 100 * f')
unfolding execute_code_weight
execute_code_weight-le D L f f' r r' w w' hf hr hw bf br bw = omega (
  arith,
  L.reads_writes-bound r' w' br bw,
  L.reads_writes-bound r w (omega arith) (omega arith),
  L.reads_writes-le r r' w w' hr hw,
)
