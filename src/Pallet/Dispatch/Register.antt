-- ===== src/Pallet/Dispatch/Register.antt =====
-- The specification of the register of codes: what a sequence of extrinsics makes of one id,
-- without the pallet's state.
use kontracts.Prelude.{
  ◌≡◌, refl, ◌∙◌, ap, subst, inl, inr, Bool, true, false, Bool-cases, Option, none, some,
  Option-cases, List, [], ◌∷◌, if◌then◌else◌,
}
use kontracts.Bytes.{Bytes}
use kontracts.Codec.{Codec}
use kontracts.Executor.Execute.{Engine}
use kontracts.Pallet.Config.{Config, IsConfig}
use kontracts.Pallet.State.{State}
use kontracts.Pallet.Registry.{
  upload_code_lem, delete_code_lem, update_code_lem, upload_code_unsigned, delete_code_not_root,
  update_code_not_root,
}
use kontracts.Pallet.Isolation.{execute_code-codes}
use kontracts.Pallet.Dispatch.{KontractsCall, Extrinsic, call, dispatch, dispatch_all}
use kontracts.Pallet.Dispatch.Sequences.{dispatch_done, dispatch_refused, dispatch-either}

abbrev pub chosen : {P : Type 0} → Dec P → Option Bytes → Option Bytes → Option Bytes
chosen (yes _) new old = new
chosen (no _) new old = old

abbrev pub is_some : {A : Type 0} → Option A → Bool
is_some none = false
is_some (some _) = true

module _ (T : Config) where
  abbrev pub is_signed : T.Origin → Bool
  is_signed origin = is_some (T.ensure_signed origin)

  abbrev replaced_at : T.CodeId → T.CodeId → Option Bytes → Option Bytes → Option Bytes
  replaced_at id j new old = chosen (T.code_id_eq id j) new old

  -- The code under `j` after an extrinsic: who may change what, and under which id.
  abbrev pub registered_by : T.CodeId → Extrinsic T → Option Bytes → Option Bytes
  registered_by j (origin, KontractsCall.upload_code code) old =
      if is_signed origin then replaced_at (T.hashing code) j (some code) old else old
  registered_by j (origin, KontractsCall.execute_code _ _ _ _ _) old = old
  registered_by j (origin, KontractsCall.delete_code id) old =
      if T.ensure_root origin then replaced_at id j none old else old
  registered_by j (origin, KontractsCall.update_code id code) old =
      if T.ensure_root origin
      then replaced_at (T.hashing code) j (some code) (replaced_at id j none old)
      else old

  abbrev pub registered : T.CodeId → List (Extrinsic T) → Option Bytes → Option Bytes
  registered j [] old = old
  registered j (x ∷ xs) old = registered j xs (registered_by j x old)

module _ (T : Config) (L : IsConfig T) (E : Engine) (C : Codec) (blake2 : Bytes → Bytes) where
  pub get-insert :
      (m : T.codes.Map) (id j : T.CodeId) (code : Bytes) (same : Dec (id ≡ j))
      → T.codes.get (T.codes.insert m id code) j ≡ chosen same (some code) (T.codes.get m j)
  get-insert m id j code (yes e) =
      subst (λ i. T.codes.get (T.codes.insert m id code) i ≡ some code) e
        (L.codes.get-insert_self m id code)
  get-insert m id j code (no ne) = L.codes.get-insert_ne m id j code ne

  pub get-remove :
      (m : T.codes.Map) (id j : T.CodeId) (same : Dec (id ≡ j))
      → T.codes.get (T.codes.remove m id) j ≡ chosen same none (T.codes.get m j)
  get-remove m id j (yes e) =
      subst (λ i. T.codes.get (T.codes.remove m id) i ≡ none) e (L.codes.get-remove_self m id)
  get-remove m id j (no ne) = L.codes.get-remove_ne m id j ne

  abbrev code_at : T.CodeId → State T → Option Bytes
  code_at j s = T.codes.get s.codes j

  dispatch-registered :
      (x : Extrinsic T) (s : State T) (j : T.CodeId)
      → code_at j (dispatch T E C blake2 x s) ≡ registered_by T j x (code_at j s)
  unfolding call
  dispatch-registered (origin, KontractsCall.upload_code code) s j =
      elim (Option-cases (T.ensure_signed origin)) [
        | inl refused ↦ rw refused (
            ap (code_at j)
              (dispatch_refused T E C blake2 _ s (upload_code_unsigned T origin code s refused)))
        | inr (who, signed) ↦ rw signed (
            ap (code_at j) (dispatch_done T E C blake2 _ s (upload_code_lem T origin code s signed))
            ∙ get-insert s.codes (T.hashing code) j code (T.code_id_eq (T.hashing code) j))
      ]
  dispatch-registered (origin, KontractsCall.execute_code code_id expected fuel r w) s j =
      dispatch-either T L E C blake2 (λ t. code_at j t ≡ code_at j s) _ s refl
        (ap (λ m. T.codes.get m j)
          (execute_code-codes T L E C blake2 origin code_id expected fuel r w s))
  dispatch-registered (origin, KontractsCall.delete_code id) s j =
      elim (Bool-cases (T.ensure_root origin)) [
        | inl root ↦ rw root (
            ap (code_at j) (dispatch_done T E C blake2 _ s (delete_code_lem T origin id s root))
            ∙ get-remove s.codes id j (T.code_id_eq id j))
        | inr refused ↦ rw refused (
            ap (code_at j)
              (dispatch_refused T E C blake2 _ s (delete_code_not_root T origin id s refused)))
      ]
  dispatch-registered (origin, KontractsCall.update_code id code) s j =
      elim (Bool-cases (T.ensure_root origin)) [
        | inl root ↦ rw root (
            ap (code_at j)
              (dispatch_done T E C blake2 _ s (update_code_lem T origin id code s root))
            ∙ get-insert (T.codes.remove s.codes id) (T.hashing code) j code
                (T.code_id_eq (T.hashing code) j)
            ∙ ap (chosen (T.code_id_eq (T.hashing code) j) (some code))
                (get-remove s.codes id j (T.code_id_eq id j)))
        | inr refused ↦ rw refused (
            ap (code_at j)
              (dispatch_refused T E C blake2 _ s (update_code_not_root T origin id code s refused)))
      ]

  -- After every sequence of extrinsics the code under an id is what the specification of the
  -- register makes of it: a signed upload registers a code under its hash, a root deletion
  -- removes one, a root update does both in this order, and nothing else changes the register.
  pub dispatch_all-registered :
      (xs : List (Extrinsic T)) (s : State T) (j : T.CodeId)
      → T.codes.get (dispatch_all T E C blake2 xs s).codes j
        ≡ registered T j xs (T.codes.get s.codes j)
  dispatch_all-registered [] s j = refl
  dispatch_all-registered (x ∷ xs) s j =
      dispatch_all-registered xs (dispatch T E C blake2 x s) j
      ∙ ap (registered T j xs) (dispatch-registered x s j)
