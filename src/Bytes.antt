-- ===== src/Bytes.antt =====
-- `Vec<u8>` as a list of bytes, with the lexicographic order of Rust's `Ord for Vec<u8>`.
use kontracts.Prelude.{
  ℕ, ◌≡◌, refl, Bool, true, false, not, ◌&&◌, List, [], ◌∷◌, arith, ltb, if◌then◌else◌,
}

abbrev pub Bytes : Type 0
Bytes = List ℕ

-- A strict total order, as `Ord` promises it.
pub record Ord {ℓ} (K : Type ℓ) : Type ℓ where
  pub less : K → K → Bool
  pub less_irrefl : (a : K) → less a a ≡ false
  pub less_trans : (a b c : K) → less a b ≡ true → less b c ≡ true → less a c ≡ true
  pub less_total : (a b : K) → less a b ≡ false → less b a ≡ false → a ≡ b

module _ {ℓ} {K : Type ℓ} ⦃o : Ord K⦄ where
  -- Neither key comes before the other.
  abbrev pub same : K → K → Bool
  same k j = not (o.less k j) && not (o.less j k)

abbrev pub less_bytes : Bytes → Bytes → Bool
less_bytes [] [] = false
less_bytes [] (y ∷ ys) = true
less_bytes (x ∷ xs) [] = false
less_bytes (x ∷ xs) (y ∷ ys) = if ltb x y then true else if ltb y x then false else less_bytes xs ys

pub less_bytes_irrefl : (a : Bytes) → less_bytes a a ≡ false
less_bytes_irrefl [] = refl
less_bytes_irrefl (x ∷ xs) = ground (arith, less_bytes_irrefl xs)

pub less_bytes_trans :
    (a b c : Bytes) → less_bytes a b ≡ true → less_bytes b c ≡ true → less_bytes a c ≡ true
less_bytes_trans [] [] c h k = cc
less_bytes_trans [] (y ∷ b) [] h k = cc
less_bytes_trans [] (y ∷ b) (z ∷ c) h k = refl
less_bytes_trans (x ∷ a) [] c h k = cc
less_bytes_trans (x ∷ a) (y ∷ b) [] h k = cc
less_bytes_trans (x ∷ a) (y ∷ b) (z ∷ c) h k = ground (arith, less_bytes_trans a b c)

pub less_bytes_total : (a b : Bytes) → less_bytes a b ≡ false → less_bytes b a ≡ false → a ≡ b
less_bytes_total [] [] h k = refl
less_bytes_total [] (y ∷ b) h k = cc
less_bytes_total (x ∷ a) [] h k = cc
less_bytes_total (x ∷ a) (y ∷ b) h k = ground (arith, less_bytes_total a b)

instance abbrev pub bytes_ord : Ord Bytes
bytes_ord = record {
  less = less_bytes;
  less_irrefl = less_bytes_irrefl;
  less_trans = less_bytes_trans;
  less_total = less_bytes_total;
}
