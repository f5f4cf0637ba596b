-- ===== src/Tests/Orders.antt =====
-- The theorems on the order of extrinsics, on the small chain.
use mathlib.Core.Logic.{∥∥₁_elim}
use mathlib.Core.List.Perm
use mathlib.Core.List.{Mem, Memᴰ, Pairwise, Pairwise-singleton}
use kontracts.Prelude.{ℕ, refl, sym, subst, List, [], ◌∷◌, arith}
use kontracts.Prelude.Int.{pos}
use kontracts.Bytes.{bytes_ord}
use kontracts.Pallet.Dispatch.{KontractsCall, Extrinsic, dispatch_all}
use kontracts.Pallet.Dispatch.Apart.{Apart, Apart-prop, SameState}
use kontracts.Pallet.Dispatch.Interleaved.{ArePairwiseApart, extrinsics_unordered}
use kontracts.Tests.Scale.{scale}
use kontracts.Tests.Chain.{chain, chain-IsConfig, balances-IsLocal, signed_by, root}
use kontracts.Tests.Machine.{machine, blake2, deployed}

-- The accounts 1 and 2 upload the same code, 1 has the setter run under the code id 2, and root
-- deletes the code under 4.
abbrev uploading : ℕ → Extrinsic chain
uploading who = (signed_by who, KontractsCall.upload_code (5 ∷ []))

abbrev setting : Extrinsic chain
setting = (signed_by 1, KontractsCall.execute_code 2 (pos 6) 9 5 5)

abbrev deleting : Extrinsic chain
deleting = (root, KontractsCall.delete_code 4)

abbrev mixed : List (Extrinsic chain)
mixed = uploading 1 ∷ uploading 2 ∷ setting ∷ deleting ∷ []

abbrev mixed_turned : List (Extrinsic chain)
mixed_turned = uploading 2 ∷ setting ∷ uploading 1 ∷ deleting ∷ []

abbrev ApartFrom : Extrinsic chain → List (Extrinsic chain) → Type 0
ApartFrom x xs = (y : Extrinsic chain) → Mem y xs → Apart chain x y

ApartFrom-either :
    (x y z : Extrinsic chain) (ys : List (Extrinsic chain))
    → Apart chain x y
    → ApartFrom x ys
    → Memᴰ z (y ∷ ys)
    → Apart chain x z
ApartFrom-either x y z ys first rest (Memᴰ.head e) = subst (Apart chain x) (sym e) first
ApartFrom-either x y z ys first rest (Memᴰ.tail d) = rest z ∣ d ∣₁

ApartFrom-cons :
    (x y : Extrinsic chain) (ys : List (Extrinsic chain))
    → Apart chain x y
    → ApartFrom x ys
    → ApartFrom x (y ∷ ys)
ApartFrom-cons x y ys first rest z m =
    ∥∥₁_elim m (Apart-prop chain x z) (ApartFrom-either x y z ys first rest)

ApartFrom-nil : (x : Extrinsic chain) → ApartFrom x []
ApartFrom-nil x z m = ∥∥₁_elim m (Apart-prop chain x z) (λ d. elim d [ ])

uploading-Apart : (n : ℕ) → ApartFrom (uploading n) (setting ∷ deleting ∷ [])
uploading-Apart n =
    ApartFrom-cons (uploading n) setting _ (λ k e f. ground arith, λ a p q. p)
      (ApartFrom-cons (uploading n) deleting [] (λ k e f. ground arith, λ a p q. p)
        (ApartFrom-nil (uploading n)))

mixed-ArePairwiseApart : ArePairwiseApart chain mixed
mixed-ArePairwiseApart =
    Pairwise.cons
      (ApartFrom-cons (uploading 1) (uploading 2) _ (λ k e f. refl, λ a p q. p) (uploading-Apart 1))
      (Pairwise.cons (uploading-Apart 2) (
        Pairwise.cons
          (ApartFrom-cons setting deleting [] (λ k e f. ground arith, λ a p q. q)
            (ApartFrom-nil setting))
          (Pairwise-singleton _ deleting)))

extrinsics_unordered_example :
    SameState chain
      (dispatch_all chain machine scale blake2 mixed deployed)
      (dispatch_all chain machine scale blake2 mixed_turned deployed)
extrinsics_unordered_example =
    extrinsics_unordered chain chain-IsConfig balances-IsLocal machine scale blake2 mixed
      mixed_turned deployed mixed-ArePairwiseApart
      (Perm.trans (Perm.swap (uploading 2) (uploading 1) (setting ∷ deleting ∷ []))
        (Perm.cons (uploading 2) (Perm.swap setting (uploading 1) (deleting ∷ []))))
