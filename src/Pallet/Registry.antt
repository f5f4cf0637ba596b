-- ===== src/Pallet/Registry.antt =====
-- The register of codes under `upload_code`, `delete_code` and `update_code`.
use kontracts.Prelude.{ℕ, ◌≡◌, ◌≢◌, refl, sym, ◌∙◌, true, false, none, some, ◌∷◌, arith}
use kontracts.Prelude.Int.{ℤ}
use kontracts.Prelude.Outcome.{ok, err}
use kontracts.Bytes.{Bytes}
use kontracts.Codec.{Codec}
use kontracts.Executor.Execute.{Engine}
use kontracts.Pallet.Config.{Config, IsConfig}
use kontracts.Pallet.State.{
  State, bad_origin, module_error, invalid_code_id, new_code_uploaded, code_deleted, code_upgraded,
}
use kontracts.Pallet.Calls.{upload_code, delete_code, update_code, execute_code}

module _ (T : Config) where
  pub upload_code_lem :
      (origin : T.Origin) (code : Bytes) (s : State T) {who : T.AccountId}
      → T.ensure_signed origin ≡ some who
      → upload_code T origin code s ≡ (
        ok tt,
        record s {
          codes = T.codes.insert s.codes (T.hashing code) code;
          events = new_code_uploaded (T.hashing code) who ∷ s.events;
        },
      )
  unfolding upload_code
  upload_code_lem origin code s signed = ground arith

  pub delete_code_lem :
      (origin : T.Origin) (code_id : T.CodeId) (s : State T)
      → T.ensure_root origin ≡ true
      → delete_code T origin code_id s ≡ (
        ok tt,
        record s {
          codes = T.codes.remove s.codes code_id;
          events = code_deleted code_id ∷ s.events;
        },
      )
  unfolding delete_code
  delete_code_lem origin code_id s root = ground arith

  pub update_code_lem :
      (origin : T.Origin) (old : T.CodeId) (code : Bytes) (s : State T)
      → T.ensure_root origin ≡ true
      → update_code T origin old code s ≡ (
        ok tt,
        record s {
          codes = T.codes.insert (T.codes.remove s.codes old) (T.hashing code) code;
          events = code_upgraded old (T.hashing code) ∷ s.events;
        },
      )
  unfolding update_code
  update_code_lem origin old code s root = ground arith

module _ (T : Config) where
  pub upload_code_unsigned :
      (origin : T.Origin) (code : Bytes) (s : State T)
      → T.ensure_signed origin ≡ none
      → upload_code T origin code s ≡ (err bad_origin, s)
  unfolding upload_code
  upload_code_unsigned origin code s signed = ground arith

  pub delete_code_not_root :
      (origin : T.Origin) (code_id : T.CodeId) (s : State T)
      → T.ensure_root origin ≡ false
      → delete_code T origin code_id s ≡ (err bad_origin, s)
  unfolding delete_code
  delete_code_not_root origin code_id s root = ground arith

  pub update_code_not_root :
      (origin : T.Origin) (old : T.CodeId) (code : Bytes) (s : State T)
      → T.ensure_root origin ≡ false
      → update_code T origin old code s ≡ (err bad_origin, s)
  unfolding update_code
  update_code_not_root origin old code s root = ground arith

module _ (T : Config) (L : IsConfig T) where
  -- An upload by a signed account succeeds, registers the code under its hash, changes no other
  -- id, no storage and no balance, and deposits NewCodeUploaded.
  pub upload_code_registers :
      (origin : T.Origin) (code : Bytes) (s : State T) {who : T.AccountId} (j : T.CodeId)
      → T.ensure_signed origin ≡ some who
      → T.hashing code ≢ j
      → let (r, t) = upload_code T origin code s in
        (r ≡ ok tt)
        × (T.codes.get t.codes (T.hashing code) ≡ some code)
        × (T.codes.get t.codes j ≡ T.codes.get s.codes j)
        × (t.storages ≡ s.storages)
        × (t.ledger ≡ s.ledger)
        × (t.events ≡ new_code_uploaded (T.hashing code) who ∷ s.events)
  upload_code_registers origin code s j signed ne = rw (upload_code_lem T origin code s signed) (
    refl,
    L.codes.get-insert_self s.codes (T.hashing code) code,
    L.codes.get-insert_ne s.codes (T.hashing code) j code ne,
    refl,
    refl,
    refl,
  )

  -- An update by the root succeeds, removes the old code, registers the new one under its hash,
  -- which may be the old id again, changes no other id, no balance and no storage, each of which
  -- stays under its id, and deposits CodeUpgraded.
  pub update_code_replaces :
      (origin : T.Origin) (old : T.CodeId) (code : Bytes) (s : State T) (j : T.CodeId)
      → T.ensure_root origin ≡ true
      → T.hashing code ≢ j
      → let (r, t) = update_code T origin old code s in
        (r ≡ ok tt)
        × (T.codes.get t.codes (T.hashing code) ≡ some code)
        × (T.codes.get t.codes j
            ≡ elim (T.code_id_eq old j) [ yes _ ↦ none | no _ ↦ T.codes.get s.codes j ])
        × (t.storages ≡ s.storages)
        × (t.ledger ≡ s.ledger)
        × (t.events ≡ code_upgraded old (T.hashing code) ∷ s.events)
  update_code_replaces origin old code s j root ne = rw (update_code_lem T origin old code s root) (
    refl,
    L.codes.get-insert_self (T.codes.remove s.codes old) (T.hashing code) code,
    L.codes.get-insert_ne (T.codes.remove s.codes old) (T.hashing code) j code ne
        ∙ removed (T.code_id_eq old j),
    refl,
    refl,
    refl,
  )
    where
      removed :
          (d : Dec (old ≡ j))
          → T.codes.get (T.codes.remove s.codes old) j
            ≡ elim d [ yes _ ↦ none | no _ ↦ T.codes.get s.codes j ]
      removed (yes e) = rw e (L.codes.get-remove_self s.codes j)
      removed (no d) = L.codes.get-remove_ne s.codes old j d

  -- After the root has deleted a code, its execution by a signed account is refused with
  -- InvalidCodeId, and changes nothing.
  pub delete_code_disables :
      (E : Engine) (C : Codec) (blake2 : Bytes → Bytes) (root_origin origin : T.Origin)
      (code_id : T.CodeId) (expected : ℤ) (fuel max_read max_write : ℕ) (s : State T)
      {who : T.AccountId}
      → T.ensure_root root_origin ≡ true
      → T.ensure_signed origin ≡ some who
      → let t = (delete_code T root_origin code_id s).1 in
        execute_code T E C blake2 origin code_id expected fuel max_read max_write t
        ≡ (err (module_error invalid_code_id), t)
  unfolding delete_code execute_code
  delete_code_disables E C blake2 root_origin origin code_id expected fuel max_read max_write s root
        signed =
      ground (arith, L.codes.get-remove_self s.codes code_id)

  -- After a registered code is deleted by the root and uploaded again by a signed account, every
  -- id has the code that it had, and storages and balances are as before.
  pub upload_code-delete_code :
      (root_origin origin : T.Origin) (code : Bytes) (s : State T) {who : T.AccountId}
      (j : T.CodeId)
      → T.ensure_root root_origin ≡ true
      → T.ensure_signed origin ≡ some who
      → T.codes.get s.codes (T.hashing code) ≡ some code
      → let t = (upload_code T origin code (delete_code T root_origin (T.hashing code) s).1).1 in
        (T.codes.get t.codes j ≡ T.codes.get s.codes j)
        × (t.storages ≡ s.storages)
        × (t.ledger ≡ s.ledger)
  upload_code-delete_code root_origin origin code s j root signed known =
      rw
        (
          delete_code_lem T root_origin (T.hashing code) s root,
          upload_code_lem T origin code _ signed,
        )
        (restored (T.code_id_eq (T.hashing code) j), refl, refl)
    where
      restored :
          Dec (T.hashing code ≡ j)
          → T.codes.get
              (T.codes.insert (T.codes.remove s.codes (T.hashing code)) (T.hashing code) code)
              j
            ≡ T.codes.get s.codes j
      restored (yes e) = rw (← e) (L.codes.get-insert_self _ (T.hashing code) code ∙ sym known)
      restored (no d) =
          L.codes.get-insert_ne _ (T.hashing code) j code d
          ∙ L.codes.get-remove_ne s.codes (T.hashing code) j d

module _ (T : Config) where
  -- From an origin that is neither signed nor the root, each of the four calls fails with
  -- BadOrigin and changes nothing.
  pub bad_origin_refused :
      (E : Engine) (C : Codec) (blake2 : Bytes → Bytes) (origin : T.Origin) (code_id : T.CodeId)
      (code : Bytes) (expected : ℤ) (fuel max_read max_write : ℕ) (s : State T)
      → T.ensure_signed origin ≡ none
      → T.ensure_root origin ≡ false
      → (upload_code T origin code s ≡ (err bad_origin, s))
        × (execute_code T E C blake2 origin code_id expected fuel max_read max_write s
            ≡ (err bad_origin, s))
        × (delete_code T origin code_id s ≡ (err bad_origin, s))
        × (update_code T origin code_id code s ≡ (err bad_origin, s))
  unfolding execute_code
  bad_origin_refused E C blake2 origin code_id code expected fuel max_read max_write s signed root =
      (
        upload_code_unsigned T origin code s signed,
        ground arith,
        delete_code_not_root T origin code_id s root,
        update_code_not_root T origin code_id code s root,
      )
