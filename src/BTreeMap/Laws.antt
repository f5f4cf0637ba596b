-- ===== src/BTreeMap/Laws.antt =====
-- What the operations of the ordered map do to each key, and that they keep the order.
use kontracts.Prelude.{
  inl, inr, sym, subst, Bool-cases, ◌≡◌, refl, true, false, none, some, [], ◌∷◌, arith,
  if◌then◌else◌,
}
use kontracts.Bytes.{Ord, same}
use kontracts.BTreeMap.{BTreeMap, get, insert, remove, Above, IsSorted}

module _ {ℓ} {K V : Type ℓ} ⦃o : Ord K⦄ where
  pub get-insert :
      (k j : K) (v : V) (m : BTreeMap K V)
      → get j (insert k v m) ≡ (if same k j then some v else get j m)
  unfolding get insert
  get-insert k j v [] = ground arith
  get-insert k j v ((i, w) ∷ m) = ground (
    arith,
    get-insert k j v m,
    o.less_trans j k i,
    o.less_trans j i k,
    o.less_trans i j k,
    o.less_trans k i j,
    o.less_total i k,
    o.less_total i j,
    o.less_irrefl k,
  )

  pub get-insert_self : (k : K) (v : V) (m : BTreeMap K V) → get k (insert k v m) ≡ some v
  get-insert_self k v m = rw get-insert (ground (arith, o.less_irrefl k))

  pub insert-singleton : (k : K) (v w : V) → insert k w ((k, v) ∷ []) ≡ (k, w) ∷ []
  unfolding insert
  insert-singleton k v w = ground (arith, o.less_irrefl k)

  pub get-singleton : (k : K) (v : V) → get k ((k, v) ∷ []) ≡ some v
  unfolding get
  get-singleton k v = ground (arith, o.less_irrefl k)

  pub get-Above : (k : K) (m : BTreeMap K V) → Above k m → get k m ≡ none
  unfolding get
  get-Above k [] h = refl
  get-Above k ((j, w) ∷ m) h = ground arith

  Above-trans : (k j : K) (m : BTreeMap K V) → o.less k j ≡ true → Above j m → Above k m
  Above-trans k j [] h a = tt
  Above-trans k j ((i, w) ∷ m) h a = o.less_trans k j i h a

  -- A key that does not come after the one that bounds the map is not in the map.
  get_not_after : (i j : K) (m : BTreeMap K V) → o.less i j ≡ false → Above i m → get j m ≡ none
  get_not_after i j m h a = elim (Bool-cases (o.less j i)) [
    | inl before ↦ get-Above j m (Above-trans j i m before a)
    | inr after ↦ get-Above j m (subst (λ q. Above q m) (o.less_total i j h after) a)
  ]

  pub get-remove :
      (k j : K) (m : BTreeMap K V)
      → IsSorted m
      → get j (remove k m) ≡ (if same k j then none else get j m)
  unfolding get remove
  get-remove k j [] h = ground arith
  get-remove k j ((i, w) ∷ m) (a, h) = ground (
    arith,
    get-remove k j m h,
    λ (p : o.less i j ≡ false). get_not_after i j m p a,
    o.less_trans j k i,
    o.less_trans j i k,
    o.less_trans i j k,
    o.less_trans k i j,
    o.less_total i k,
    o.less_total i j,
    o.less_irrefl k,
  )

  insert-Above :
      (k j : K) (v : V) (m : BTreeMap K V) → o.less j k ≡ true → Above j m → Above j (insert k v m)
  unfolding insert
  insert-Above k j v [] h a = h
  insert-Above k j v ((i, w) ∷ m) h a = ground arith

  pub insert-IsSorted : (k : K) (v : V) (m : BTreeMap K V) → IsSorted m → IsSorted (insert k v m)
  unfolding insert
  insert-IsSorted k v [] h = (tt, tt)
  insert-IsSorted k v ((j, w) ∷ m) (a, h) = elim (Bool-cases (o.less k j)) [
    | inl before ↦ rw before (before, (a, h))
    | inr not_before ↦ elim (Bool-cases (o.less j k)) [
      | inl after ↦ rw (not_before, after) (insert-Above k j v m after a, insert-IsSorted k v m h)
      | inr equal ↦
          rw (not_before, equal) (subst (λ q. Above q m) (o.less_total j k equal not_before) a, h)
    ]
  ]

  remove-Above : (k j : K) (m : BTreeMap K V) → IsSorted m → Above j m → Above j (remove k m)
  unfolding remove
  remove-Above k j [] h a = tt
  remove-Above k j ((i, w) ∷ []) h a = ground arith
  remove-Above k j ((i, w) ∷ (i', w') ∷ m) h a = ground (arith, o.less_trans j i i')

  pub remove-IsSorted : (k : K) (m : BTreeMap K V) → IsSorted m → IsSorted (remove k m)
  unfolding remove
  remove-IsSorted k [] h = tt
  remove-IsSorted k ((j, w) ∷ m) (a, h) = elim (Bool-cases (o.less k j)) [
    | inl before ↦ rw before (a, h)
    | inr not_before ↦ elim (Bool-cases (o.less j k)) [
      | inl after ↦ rw (not_before, after) (remove-Above k j m h a, remove-IsSorted k m h)
      | inr equal ↦ rw (not_before, equal) h
    ]
  ]

  -- Two maps that give the same at the keys of both heads have the same head.
  heads_agree :
      (i j : K) (v w : V) (m n : BTreeMap K V)
      → get i ((i, v) ∷ m) ≡ get i ((j, w) ∷ n)
      → get j ((i, v) ∷ m) ≡ get j ((j, w) ∷ n)
      → (i ≡ j) × (v ≡ w)
  unfolding get
  heads_agree i j v w m n p q = (
    ground (arith, o.less_total i j, o.less_irrefl i, o.less_irrefl j),
    ground (arith, o.less_total i j, o.less_irrefl i, o.less_irrefl j),
  )

  tails_agree :
      (i k : K) (v w : V) (m n : BTreeMap K V)
      → Above i m
      → Above i n
      → get k ((i, v) ∷ m) ≡ get k ((i, w) ∷ n)
      → get k m ≡ get k n
  unfolding get
  tails_agree i k v w m n a b p = elim (Bool-cases (o.less i k)) [
    | inl after ↦ ground (arith, o.less_trans i k i, o.less_irrefl i)
    | inr not_after ↦ rw (get_not_after i k m not_after a, get_not_after i k n not_after b)
  ]

  -- A sorted map is determined by what its keys give.
  pub sorted-ext :
      (m n : BTreeMap K V) → IsSorted m → IsSorted n → ((k : K) → get k m ≡ get k n) → m ≡ n
  unfolding get
  sorted-ext [] [] s t h = refl
  sorted-ext [] ((j, w) ∷ n) s t h = ground (arith, h j, o.less_irrefl j)
  sorted-ext ((i, v) ∷ m) [] s t h = ground (arith, h i, o.less_irrefl i)
  sorted-ext ((i, v) ∷ m) ((j, w) ∷ n) (a, s) (b, t) h =
      let (same_key, same_value) = heads_agree i j v w m n (h i) (h j) in
      let b' = subst (λ q. Above q n) (sym same_key) b in
      let same_tail =
        sorted-ext m n s t λ k. tails_agree i k v w m n a b' (rw same_key (rw same_key at (h k))) in
      cc
