-- ===== src/Pallet/Settlement/Sizes.antt =====
-- The `i32` arithmetic of `execute_code` is exact for sizes below 2 ^ 31.
use kontracts.Prelude.{ℕ, suc, ◌+◌, ◌-◌, ◌^◌, ◌<◌, ◌≡◌, true, false, arith}
use kontracts.Prelude.Int.{ℤ, pos, negsuc, sub_ℕ, as_i32, as_u32, sub32, neg32, ltb_ℤ}
use kontracts.Prelude.Outcome.{ok}
use kontracts.Codec.{Codec, IsScale, Storage, size}
use kontracts.Codec.Size.{decode_compact-encode_map}
use kontracts.Pallet.Calls.{is_zero, get_storage_size}

abbrev pub InRange : ℤ → Type 0
InRange (pos n) = n < 2 ^ 31
InRange (negsuc n) = n < 2 ^ 31

pub sub32_exact : (a b : ℕ) → a < 2 ^ 31 → b < 2 ^ 31 → sub32 (as_i32 a) (as_i32 b) ≡ sub_ℕ a b
sub32_exact a b ha hb = ground arith

-- `(x * -1) as u32` and `x as u32` of a negative `x`.
pub as_u32-neg32 : (n : ℕ) → n < 2 ^ 31 → as_u32 (neg32 (negsuc n)) ≡ n + 1
as_u32-neg32 n h = ground arith

pub as_u32-negsuc : (n : ℕ) → n < 2 ^ 31 → as_u32 (negsuc n) ≡ 2 ^ 32 - (n + 1)
as_u32-negsuc n h = ground arith

pub get_storage_size-encode_map :
    (C : Codec)
    → IsScale C
    → (m : Storage) → size C m < 2 ^ 31
    → get_storage_size C (C.encode_map m) ≡ ok (as_i32 (size C m))
unfolding get_storage_size
get_storage_size-encode_map C S m h = ground (arith, decode_compact-encode_map C S m)

pub negsuc_negative : (n : ℕ) → ltb_ℤ (negsuc n) (pos 0) ≡ true
negsuc_negative n = ground arith

pub pos_not_negative : (n : ℕ) → ltb_ℤ (pos n) (pos 0) ≡ false
pos_not_negative n = ground arith

pub as_u32-pos : (n : ℕ) → n < 2 ^ 31 → as_u32 (pos n) ≡ n
as_u32-pos n h = omega arith

pub is_zero-suc : (n : ℕ) → is_zero (pos (suc n)) ≡ false
is_zero-suc n = ground arith

-- The difference of two sizes below 2 ^ 31 is within the range of `i32`.
pub sub_ℕ-InRange : (a b : ℕ) → a < 2 ^ 31 → b < 2 ^ 31 → InRange (sub_ℕ a b)
sub_ℕ-InRange a b ha hb = ground arith
