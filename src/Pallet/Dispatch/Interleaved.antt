-- ===== src/Pallet/Dispatch/Interleaved.antt =====
-- Batches of extrinsics that are apart from each other, in any order.
use mathlib.Core.Logic.{∥∥₁_elim}
use mathlib.Core.List.Permᴰ
use mathlib.Core.List.{Permᴰ, Perm, Pairwise, mem-cons_self}
use kontracts.Prelude.{subst, List, [], ◌∷◌}
use kontracts.Bytes.{Bytes}
use kontracts.Codec.{Codec}
use kontracts.Executor.Execute.{Engine}
use kontracts.Pallet.Config.{Config, IsConfig}
use kontracts.Pallet.State.{State}
use kontracts.Pallet.Local.{IsLocal}
use kontracts.Pallet.Dispatch.{Extrinsic, dispatch_all}
use kontracts.Pallet.Dispatch.Apart.{
  Apart, Apart-sym, Apart-prop, SameState, SameState-refl, SameState-trans, SameState-prop,
}
use kontracts.Pallet.Dispatch.Seen.{after, after-SameState}
use kontracts.Pallet.Dispatch.Commute.{extrinsics_commute}

module _ (T : Config) where
  abbrev pub ArePairwiseApart : List (Extrinsic T) → Type 0
  ArePairwiseApart = Pairwise (Apart T)

module _ (T : Config) (L : IsConfig T) (local : IsLocal T.currency) (E : Engine) (C : Codec)
    (blake2 : Bytes → Bytes) where
  abbrev all : List (Extrinsic T) → State T → State T
  all xs s = dispatch_all T E C blake2 xs s

  all-SameState :
      (xs : List (Extrinsic T)) (s t : State T)
      → SameState T s t
      → SameState T (all xs s) (all xs t)
  all-SameState [] s t same = same
  all-SameState (x ∷ xs) s t same =
      all-SameState xs (after T L local E C blake2 x s) (after T L local E C blake2 x t)
        (after-SameState T L local E C blake2 x s t same)

  all-perm :
      (xs ys : List (Extrinsic T)) (s : State T)
      → ArePairwiseApart T xs
      → Permᴰ xs ys
      → SameState T (all xs s) (all ys s)
  all-perm xs ys s apart Permᴰ.nil = SameState-refl T s
  all-perm xs ys s (Pairwise.cons _ apart) (Permᴰ.cons {a = x} {b = y} {l₁ = xs'} {l₂ = ys'} e d) =
      subst (λ z. SameState T (all (x ∷ xs') s) (all (z ∷ ys') s)) e
        (all-perm xs' ys' (after T L local E C blake2 x s) apart d)
  all-perm xs ys s (Pairwise.cons apart _)
        (Permᴰ.swap {a = x} {b = y} {a' = y'} {b' = x'} {l = l} e f) =
      subst (λ z. SameState T (all (x ∷ y ∷ l) s) (all (y' ∷ z ∷ l) s)) e
        (subst (λ z. SameState T (all (x ∷ y ∷ l) s) (all (z ∷ x ∷ l) s)) f
          (all-SameState l _ _
            (extrinsics_commute T L local E C blake2 x y s (apart y mem-cons_self))))
  all-perm xs ys s apart (Permᴰ.trans {l₂ = zs} d d') =
      SameState-trans T (all-perm xs zs s apart d)
        (all-perm zs ys s (Permᴰ.pairwise (Apart-prop T) (Apart-sym T) d apart) d')

  -- Two orders of a batch of extrinsics leave the same code and storage under every id and the
  -- same balances of every account, where no two of the batch read or change the code or the
  -- storage under the same id, unless both upload the same code, and no two are executions that
  -- one account pays for: uploads, executions, root deletions and root updates in any mixture,
  -- refused and failing ones among them. The currency decides on a reservation and a slash by
  -- the balances of the account.
  pub extrinsics_unordered :
      (xs ys : List (Extrinsic T)) (s : State T)
      → ArePairwiseApart T xs
      → Perm xs ys
      → SameState T (dispatch_all T E C blake2 xs s) (dispatch_all T E C blake2 ys s)
  extrinsics_unordered xs ys s apart perm =
      ∥∥₁_elim perm (SameState-prop T _ _) (all-perm xs ys s apart)
