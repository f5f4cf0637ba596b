-- ===== src/Pallet/Dispatch/Unordered.antt =====
-- Batches of uploads as multisets: the calls of `upload_code` that a block may hold in any order.
use mathlib.Core.List.Permᴰ
use mathlib.Core.Logic.{∥∥₁_elim}
use mathlib.Core.List.{Permᴰ, Perm, Mem, mem-cons_self, mem-cons_of_mem}
use kontracts.Prelude.{◌≡◌, refl, sym, ◌∙◌, ap, inl, inr, Bool-cases, Option, some, List, ◌∷◌, map}
use kontracts.Bytes.{Bytes}
use kontracts.Codec.{Codec}
use kontracts.Executor.Execute.{Engine}
use kontracts.Pallet.Config.{Config, IsConfig}
use kontracts.Pallet.State.{State}
use kontracts.Pallet.Dispatch.{KontractsCall, Extrinsic, dispatch_all}
use kontracts.Pallet.Dispatch.Register.{
  chosen, is_signed, registered, registered_by, dispatch_all-registered,
}

chosen-swap :
    {I : Type 0} (h i j : I) (c d : Bytes) (old : Option Bytes)
    → (h ≡ i → c ≡ d)
    → (p : Dec (h ≡ j)) (q : Dec (i ≡ j))
    → chosen q (some d) (chosen p (some c) old) ≡ chosen p (some c) (chosen q (some d) old)
chosen-swap h i j c d old same (yes e) (yes f) = ap some (sym (same (e ∙ sym f)))
chosen-swap h i j c d old same (yes e) (no _) = refl
chosen-swap h i j c d old same (no _) (yes f) = refl
chosen-swap h i j c d old same (no _) (no _) = refl

module _ (T : Config) where
  -- An upload: who signs it, and the code.
  abbrev pub Upload : Type 0
  Upload = T.Origin × Bytes

  abbrev pub upload : Upload → Extrinsic T
  upload (origin, code) = (origin, KontractsCall.upload_code code)

  -- Two codes of the batch with the same hash are the same code.
  abbrev pub AreDistinct : List Upload → Type 0
  AreDistinct xs = (x y : Upload) → Mem x xs → Mem y xs → T.hashing x.1 ≡ T.hashing y.1 → x.1 ≡ y.1

  AreDistinct-tail : (x : Upload) (xs : List Upload) → AreDistinct (x ∷ xs) → AreDistinct xs
  AreDistinct-tail x xs distinct =
      λ y z m n. distinct y z (mem-cons_of_mem x m) (mem-cons_of_mem x n)

  AreDistinct-perm : (xs ys : List Upload) → Permᴰ xs ys → AreDistinct xs → AreDistinct ys
  AreDistinct-perm xs ys d distinct =
      λ y z m n. distinct y z (Permᴰ.mem (Permᴰ.symm d) m) (Permᴰ.mem (Permᴰ.symm d) n)

  pub registered_by-swap :
      (j : T.CodeId) (x y : Upload) (old : Option Bytes)
      → (T.hashing x.1 ≡ T.hashing y.1 → x.1 ≡ y.1)
      → registered_by T j (upload y) (registered_by T j (upload x) old)
        ≡ registered_by T j (upload x) (registered_by T j (upload y) old)
  registered_by-swap j (o, c) (p, d) old same = elim (Bool-cases (is_signed T o)) [
    | inr unsigned ↦ rw unsigned refl
    | inl signed ↦ elim (Bool-cases (is_signed T p)) [
      | inr unsigned ↦ rw unsigned refl
      | inl signed' ↦ rw signed (
          rw signed' (
            chosen-swap (T.hashing c) (T.hashing d) j c d old same (T.code_id_eq (T.hashing c) j)
              (T.code_id_eq (T.hashing d) j)))
    ]
  ]

  registered-perm :
      (j : T.CodeId) (xs ys : List Upload) (old : Option Bytes)
      → AreDistinct xs
      → Permᴰ xs ys
      → registered T j (map upload xs) old ≡ registered T j (map upload ys) old
  registered-perm j xs ys old distinct Permᴰ.nil = refl
  registered-perm j xs ys old distinct (Permᴰ.cons {a = x} {b = y} {l₁ = xs'} {l₂ = ys'} same d) =
      ap (λ z. registered T j (map upload xs') (registered_by T j (upload z) old)) same
      ∙ registered-perm j xs' ys' (registered_by T j (upload y) old)
          (AreDistinct-tail x xs' distinct) d
  registered-perm j xs ys old distinct
        (Permᴰ.swap {a = x} {b = y} {a' = y'} {b' = x'} {l = l} e f) =
      ap (registered T j (map upload l)) (
        registered_by-swap j x y old (distinct x y mem-cons_self (mem-cons_of_mem x mem-cons_self)))
      ∙ ap
          (λ z.
            registered T j (map upload l)
              (registered_by T j (upload z) (registered_by T j (upload y) old)))
          e
      ∙ ap
          (λ z.
            registered T j (map upload l)
              (registered_by T j (upload x') (registered_by T j (upload z) old)))
          f
  registered-perm j xs ys old distinct (Permᴰ.trans {l₂ = zs} d e) =
      registered-perm j xs zs old distinct d
      ∙ registered-perm j zs ys old (AreDistinct-perm xs zs d distinct) e

module _ (T : Config) (L : IsConfig T) (E : Engine) (C : Codec) (blake2 : Bytes → Bytes) where
  -- Two orders of a batch of uploads, in which codes with the same hash are the same code, leave
  -- the same code under every id, whoever signs them and whichever are refused.
  pub uploads_unordered :
      (xs ys : List (Upload T)) (s : State T) (j : T.CodeId)
      → AreDistinct T xs
      → Perm xs ys
      → T.codes.get (dispatch_all T E C blake2 (map (upload T) xs) s).codes j
        ≡ T.codes.get (dispatch_all T E C blake2 (map (upload T) ys) s).codes j
  uploads_unordered xs ys s j distinct perm =
      dispatch_all-registered T L E C blake2 (map (upload T) xs) s j
      ∙ ∥∥₁_elim perm (hlevel) (registered-perm T j xs ys (T.codes.get s.codes j) distinct)
      ∙ sym (dispatch_all-registered T L E C blake2 (map (upload T) ys) s j)
