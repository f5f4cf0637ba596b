-- ===== src/Pallet/Reach.antt =====
-- The states of the chain: sequences of successful calls. A call that fails is rolled back by
-- FRAME's dispatch and makes no step.
use kontracts.Prelude.{ℕ, ◌≡◌, sym, ◌∙◌, ap, inl, inr, true, Bool-cases, some, Option-cases, arith}
use kontracts.Prelude.Int.{ℤ}
use kontracts.Prelude.Outcome.{ok}
use kontracts.Bytes.{Bytes, bytes_ord}
use kontracts.BTreeMap.{IsSorted}
use kontracts.Codec.{Codec, IsScale, Storage, within}
use kontracts.Executor.Execute.{Engine}
use kontracts.Pallet.Config.{Config, IsConfig}
use kontracts.Pallet.State.{State}
use kontracts.Pallet.Calls.{upload_code, delete_code, update_code, execute_code}
use kontracts.Pallet.Registry.{
  upload_code_lem, delete_code_lem, update_code_lem, upload_code_unsigned, delete_code_not_root,
  update_code_not_root,
}
use kontracts.Pallet.Effects.{Effects, settle-Effects, execute_code-settle}

module _ (T : Config) (E : Engine) (C : Codec) (blake2 : Bytes → Bytes) where
  pub data Step (s : State T) : State T → Type 0 where
    uploaded :
        (origin : T.Origin) (code : Bytes) {t : State T}
        → upload_code T origin code s ≡ (ok tt, t)
        → Step s t
    executed :
        (origin : T.Origin) (code_id : T.CodeId) (expected : ℤ) (fuel max_read max_write : ℕ)
        {t : State T}
        → execute_code T E C blake2 origin code_id expected fuel max_read max_write s ≡ (ok tt, t)
        → Step s t
    deleted :
        (origin : T.Origin) (code_id : T.CodeId) {t : State T}
        → delete_code T origin code_id s ≡ (ok tt, t)
        → Step s t
    updated :
        (origin : T.Origin) (old : T.CodeId) (code : Bytes) {t : State T}
        → update_code T origin old code s ≡ (ok tt, t)
        → Step s t

  pub data Reach (s : State T) : State T → Type 0 where
    here : Reach s s
    next : {t u : State T} → Reach s t → Step t u → Reach s u

module _ (T : Config) where
  -- Every code is registered under its own hash, and every storage is in order and within the
  -- bounds of the pallet.
  pub record IsValid (s : State T) : Type 0 where
    pub addressed :
        (j : T.CodeId) (code : Bytes) → T.codes.get s.codes j ≡ some code → T.hashing code ≡ j
    pub sorted : (j : T.CodeId) (m : Storage) → T.storages.get s.storages j ≡ some m → IsSorted m
    pub bounded :
        (j : T.CodeId) (m : Storage)
        → T.storages.get s.storages j ≡ some m
        → within T.bounds m ≡ true

-- What the bounded decoding accepts is in order and within the bounds.
decoded_stored :
    (T : Config) (C : Codec)
    → IsScale C
    → (raw : Bytes) (d : Storage × Bytes) → C.decode_bounded T.bounds raw ≡ some d
    → IsSorted d.0 × (within T.bounds d.0 ≡ true)
decoded_stored T C S raw d h = elim (Option-cases (C.decode_map raw)) [
  | inl e ↦ absurd (ground (arith, S.decode_bounded_eq T.bounds raw))
  | inr ((m, rest), e) ↦ elim (Bool-cases (within T.bounds m)) [
    | inl keeps ↦
        let same : (m, rest) ≡ d = ground (arith, S.decode_bounded_eq T.bounds raw) in
        rw (← same) (S.decode_map-IsSorted raw m rest e, keeps)
    | inr breaks ↦ absurd (ground (arith, S.decode_bounded_eq T.bounds raw))
  ]
]

module _ (T : Config) (L : IsConfig T) where
  insert_addressed :
      (codes : T.codes.Map) (code code' : Bytes) (j : T.CodeId)
      → (T.codes.get codes j ≡ some code' → T.hashing code' ≡ j)
      → T.codes.get (T.codes.insert codes (T.hashing code) code) j ≡ some code'
      → T.hashing code' ≡ j
  insert_addressed codes code code' j h e = elim (T.code_id_eq (T.hashing code) j) [
    | yes p ↦ cc (L.codes.get-insert_self codes (T.hashing code) code)
    | no d ↦ h (sym (L.codes.get-insert_ne codes (T.hashing code) j code d) ∙ e)
  ]

  remove_addressed :
      (codes : T.codes.Map) (code' : Bytes) (k j : T.CodeId)
      → (T.codes.get codes j ≡ some code' → T.hashing code' ≡ j)
      → T.codes.get (T.codes.remove codes k) j ≡ some code'
      → T.hashing code' ≡ j
  remove_addressed codes code' k j h e = elim (T.code_id_eq k j) [
    | yes p ↦ cc (L.codes.get-remove_self codes k)
    | no d ↦ h (sym (L.codes.get-remove_ne codes k j d) ∙ e)
  ]

  -- The storages that an execution leaves are in order and within the bounds.
  Effects-stored :
      (C : Codec) (S : IsScale C) {who : T.AccountId} {code_id : T.CodeId} {s t : State T}
      → Effects T C who code_id s t
      → (j : T.CodeId) (m : Storage)
      → (T.storages.get s.storages j ≡ some m → IsSorted m × (within T.bounds m ≡ true))
      → T.storages.get t.storages j ≡ some m
      → IsSorted m × (within T.bounds m ≡ true)
  Effects-stored C S {code_id = code_id} {s = s} effects j m h e = elim effects.storages [
    | inl unchanged ↦ h (ap (λ x. T.storages.get x j) (sym unchanged) ∙ e)
    | inr (raw, d, decoded, inserted) ↦
        let found = ap (λ x. T.storages.get x j) (sym inserted) ∙ e in
        elim (T.code_id_eq code_id j) [
          | yes p ↦
              let same : d.0 ≡ m = cc (L.storages.get-insert_self s.storages code_id d.0) in
              rw (← same) (decoded_stored T C S raw d decoded)
          | no q ↦ h (sym (L.storages.get-insert_ne s.storages code_id j d.0 q) ∙ found)
        ]
  ]

  module _ (E : Engine) (C : Codec) (S : IsScale C) (blake2 : Bytes → Bytes) where
    -- Every successful call keeps the invariant.
    pub Step-IsValid : {s t : State T} → Step T E C blake2 s t → IsValid T s → IsValid T t
    Step-IsValid {s} (uploaded origin code h) v = elim (Option-cases (T.ensure_signed origin)) [
      | inl refused ↦ cc (sym (upload_code_unsigned T origin code s refused) ∙ h)
      | inr (who, signed) ↦
          rw (← ap (λ x. x.1) (sym (upload_code_lem T origin code s signed) ∙ h)) (record {
            addressed = λ j c. insert_addressed s.codes code c j (v.addressed j c);
            sorted = v.sorted;
            bounded = v.bounded;
          })
    ]
    Step-IsValid {s} (executed origin code_id expected fuel max_read max_write h) v =
        elim (execute_code-settle T E C blake2 origin code_id expected fuel max_read max_write s) [
          | inl (unchanged, failed) ↦ absurd (failed (ap (λ x. x.0) h))
          | inr (who, x, raw, signed, settled) ↦
              let effects = settle-Effects T C who code_id x expected raw s in
              rw (← ap (λ x. x.1) (sym settled ∙ h)) (record {
                addressed =
                    λ j c e. v.addressed j c (ap (λ m. T.codes.get m j) (sym effects.codes) ∙ e);
                sorted = λ j m e.
                    (Effects-stored C S effects j m (λ was. (v.sorted j m was, v.bounded j m was))
                      e).0;
                bounded = λ j m e.
                    (Effects-stored C S effects j m (λ was. (v.sorted j m was, v.bounded j m was))
                      e).1;
              })
        ]
    Step-IsValid {s} (deleted origin code_id h) v = elim (Bool-cases (T.ensure_root origin)) [
      | inl root ↦
          rw (← ap (λ x. x.1) (sym (delete_code_lem T origin code_id s root) ∙ h)) (record {
            addressed = λ j c. remove_addressed s.codes c code_id j (v.addressed j c);
            sorted = v.sorted;
            bounded = v.bounded;
          })
      | inr refused ↦ cc (sym (delete_code_not_root T origin code_id s refused) ∙ h)
    ]
    Step-IsValid {s} (updated origin old code h) v = elim (Bool-cases (T.ensure_root origin)) [
      | inl root ↦
          rw (← ap (λ x. x.1) (sym (update_code_lem T origin old code s root) ∙ h)) (record {
            addressed = λ j c.
                insert_addressed (T.codes.remove s.codes old) code c j
                  (remove_addressed s.codes c old j (v.addressed j c));
            sorted = v.sorted;
            bounded = v.bounded;
          })
      | inr refused ↦ cc (sym (update_code_not_root T origin old code s refused) ∙ h)
    ]

    -- From a state where every code stands under its own hash and every storage is sorted and
    -- within the pallet's bounds, every state that successful calls reach is such a state.
    pub Reach-IsValid : {s t : State T} → Reach T E C blake2 s t → IsValid T s → IsValid T t
    Reach-IsValid here v = v
    Reach-IsValid (next r step) v = Step-IsValid step (Reach-IsValid r v)
