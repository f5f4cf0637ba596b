-- ===== src/Prelude/Outcome.antt =====
-- How a fallible Rust call ends: `Ok`, `Err`, or a panic that unwinds through the caller.
use mathlib.Core.Path.{◌≡◌, refl}
use mathlib.Core.Logic.{◌⊎◌, inl, inr}
use mathlib.Core.Option.{Option, none, some}

pub data Outcome {ℓ} (E : Type ℓ) (A : Type ℓ) : Type ℓ where
  ok : A → Outcome E A
  err : E → Outcome E A
  panic : Outcome E A

-- `?`: an error or a panic ends the function.
infixl 5 ◌>>=◌ ◌>>◌
abbrev pub ◌>>=◌ {ℓ} : {E Q R : Type ℓ} → Outcome E Q → (Q → Outcome E R) → Outcome E R
panic >>= next = panic
err reason >>= next = err reason
ok q >>= next = next q

abbrev pub ◌>>◌ {ℓ} : {E Q R : Type ℓ} → Outcome E Q → Outcome E R → Outcome E R
first >> second = first >>= λ _. second

-- `o.ok_or(e)`, and `r.map_err(|_| e)` for a call whose error is dropped.
abbrev pub ok_or {ℓ} : {E A : Type ℓ} → Option A → E → Outcome E A
ok_or none e = err e
ok_or (some a) e = ok a

abbrev pub map_err {ℓ} : {E F A : Type ℓ} → (E → F) → Outcome E A → Outcome F A
map_err f (ok a) = ok a
map_err f (err e) = err (f e)
map_err f panic = panic

pub Outcome-cases {ℓ} :
    {E A : Type ℓ} (o : Outcome E A)
    → ((a : A) × (o ≡ ok a)) ⊎ ((e : E) × (o ≡ err e)) ⊎ (o ≡ panic)
Outcome-cases (ok a) = inl (a, refl)
Outcome-cases (err e) = inr (inl (e, refl))
Outcome-cases panic = inr (inr refl)
