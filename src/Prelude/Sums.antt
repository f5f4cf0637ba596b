-- ===== src/Prelude/Sums.antt =====
-- Sums over lists without repetition, and how they change with the function at one place.
use Prim.Native.Nat.{ℕ, ◌+◌}
use mathlib.Core.Path.{◌≡◌, refl, sym}
use mathlib.Core.Logic.{◌≢◌, ◌⊎◌, inl, inr}
use mathlib.Core.List.{List, [], ◌∷◌}
use native.Mathlib.Omega.{arith}

module _ {A : Type 0} where
  abbrev pub Has : A → List A → Type 0
  Has a [] = ⊥
  Has a (b ∷ l) = (a ≡ b) ⊎ Has a l

  -- `a` is none of the list.
  abbrev pub Apart : A → List A → Type 0
  Apart a [] = Unit {0}
  Apart a (b ∷ l) = (a ≢ b) × Apart a l

  abbrev pub Distinct : List A → Type 0
  Distinct [] = Unit {0}
  Distinct (a ∷ l) = Apart a l × Distinct l

  abbrev pub sum : (A → ℕ) → List A → ℕ
  sum f [] = 0
  sum f (a ∷ l) = f a + sum f l

  Apart-Has : {a b : A} (l : List A) → Apart b l → Has a l → b ≢ a
  Apart-Has [] p h = elim h [ ]
  Apart-Has (c ∷ l) (ne, p) (inl e) = λ q. ne (cc)
  Apart-Has (c ∷ l) (ne, p) (inr h) = Apart-Has l p h

  module _ (f g : A → ℕ) (a : A) (same : (b : A) → a ≢ b → g b ≡ f b) where
    sum-Apart : (l : List A) → Apart a l → sum g l ≡ sum f l
    sum-Apart [] p = refl
    sum-Apart (b ∷ l) (ne, p) = omega (arith, same b ne, sum-Apart l p)

    -- A function that changes at one place of the list changes the sum by as much.
    pub sum-change : (l : List A) → Distinct l → Has a l → sum g l + f a ≡ sum f l + g a
    sum-change [] d h = elim h [ ]
    sum-change (b ∷ l) (apart, d) (inl e) =
        let rest = sum-Apart l (rw e apart) in rw e (omega (arith, rest))
    sum-change (b ∷ l) (apart, d) (inr h) =
        let other = Apart-Has l apart h in
        omega (arith, same b (λ e. other (sym e)), sum-change l d h)
