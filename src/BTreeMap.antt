-- ===== src/BTreeMap.antt =====
-- Rust's `BTreeMap`, which the executor's storage is: the entries in the order of their keys.
pub mod Laws
use kontracts.Prelude.{◌≡◌, true, Option, none, some, List, [], ◌∷◌, if◌then◌else◌}
use kontracts.Bytes.{Ord}

abbrev pub BTreeMap {ℓ} : Type ℓ → Type ℓ → Type ℓ
BTreeMap K V = List (K × V)

module _ {ℓ} {K V : Type ℓ} ⦃o : Ord K⦄ where
  unfoldable pub get : K → BTreeMap K V → Option V
  get k [] = none
  get k ((j, v) ∷ m) = if o.less k j then none else if o.less j k then get k m else some v

  unfoldable pub insert : K → V → BTreeMap K V → BTreeMap K V
  insert k v [] = (k, v) ∷ []
  insert k v ((j, w) ∷ m) =
      let rest = insert k v m in
      if o.less k j then (k, v) ∷ (j, w) ∷ m else if o.less j k then (j, w) ∷ rest else (k, v) ∷ m

  unfoldable pub remove : K → BTreeMap K V → BTreeMap K V
  remove k [] = []
  remove k ((j, w) ∷ m) =
      let rest = remove k m in
      if o.less k j then (j, w) ∷ m else if o.less j k then (j, w) ∷ rest else m

  -- The keys strictly ascend.
  abbrev pub Above : K → BTreeMap K V → Type 0
  Above k [] = Unit {0}
  Above k ((j, _) ∷ m) = o.less k j ≡ true

  abbrev pub IsSorted : BTreeMap K V → Type 0
  IsSorted [] = Unit {0}
  IsSorted ((k, _) ∷ m) = Above k m × IsSorted m
