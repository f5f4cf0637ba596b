-- ===== src/Pallet/Dispatch/Log.antt =====
-- The events as a log: what an indexer learns of the chain that reads nothing but them.
pub mod Indexer
use mathlib.Core.List.{append_assoc}
use kontracts.Prelude.{
  ℕ, suc, ◌+◌, ◌≤◌, ◌≡◌, ◌≢◌, refl, sym, ◌∙◌, ap, subst, inl, inr, Bool, true, false, ◌||◌,
  Bool-cases, Option, none, some, Option-cases, List, [], ◌∷◌, ◌++◌, length, length-append,
  if◌then◌else◌, arith,
}
use kontracts.Prelude.Outcome.{Outcome, ok, err}
use kontracts.Bytes.{Bytes}
use kontracts.Codec.{Codec, Storage}
use kontracts.Executor.Execute.{Engine}
use kontracts.Pallet.Config.{Config, IsConfig}
use kontracts.Pallet.State.{
  State, Event, DispatchError, new_code_uploaded, code_executed, code_deleted, code_upgraded,
  exceeded_storage,
}
use kontracts.Pallet.Calls.{keep_storage, execute_code}
use kontracts.Pallet.Registry.{
  upload_code_lem, delete_code_lem, update_code_lem, upload_code_unsigned, delete_code_not_root,
  update_code_not_root,
}
use kontracts.Pallet.Effects.{Ends, settle-Ends, execute_code-settle}
use kontracts.Pallet.Dispatch.{KontractsCall, Extrinsic, call, dispatch, dispatch_all}
use kontracts.Pallet.Dispatch.Sequences.{dispatch-cases, dispatch_done, dispatch_refused}
use kontracts.Pallet.Dispatch.Register.{is_some, chosen, get-insert, get-remove}

module _ (T : Config) where
  abbrev pub replaces : T.CodeId → T.CodeId → Bool → Bool → Bool
  replaces id j new old = elim (T.code_id_eq id j) [ yes _ ↦ new | no _ ↦ old ]

  -- Whether the code id `j` is registered after an event, from whether it was before.
  abbrev pub indexed_by : T.CodeId → Event T → Bool → Bool
  indexed_by j (new_code_uploaded id _) old = replaces id j true old
  indexed_by j (code_executed _ _) old = old
  indexed_by j (code_deleted id) old = replaces id j false old
  indexed_by j (code_upgraded id new) old = replaces new j true (replaces id j false old)
  indexed_by j (exceeded_storage _ _) old = old

  -- The last event stands first.
  abbrev pub indexed : T.CodeId → List (Event T) → Bool → Bool
  indexed j [] old = old
  indexed j (e ∷ es) old = indexed_by j e (indexed j es old)

  abbrev pub executed_by : T.CodeId → Event T → Bool
  executed_by j (new_code_uploaded _ _) = false
  executed_by j (code_executed id _) = replaces id j true false
  executed_by j (code_deleted _) = false
  executed_by j (code_upgraded _ _) = false
  executed_by j (exceeded_storage _ _) = false

  -- Whether the events report an execution of `j` whose storage was kept.
  abbrev pub executed : T.CodeId → List (Event T) → Bool
  executed j [] = false
  executed j (e ∷ es) = executed_by j e || executed j es

  abbrev pub is_registered : State T → T.CodeId → Bool
  is_registered s j = is_some (T.codes.get s.codes j)

  -- The events `es` tell how `t` comes from `s`.
  pub record Tells (s t : State T) (es : List (Event T)) : Type 0 where
    pub logged : t.events ≡ es ++ s.events
    pub registered : (j : T.CodeId) → is_registered t j ≡ indexed j es (is_registered s j)
    pub stored :
        (j : T.CodeId)
        → executed j es ≡ false
        → T.storages.get t.storages j ≡ T.storages.get s.storages j

  pub Tells-nothing : (s : State T) → Tells s s []
  Tells-nothing s = record { logged = refl; registered = λ j. refl; stored = λ j h. refl }

  indexed-append :
      (j : T.CodeId) (es es' : List (Event T)) (old : Bool)
      → indexed j (es' ++ es) old ≡ indexed j es' (indexed j es old)
  indexed-append j es [] old = refl
  indexed-append j es (e ∷ es') old = ap (indexed_by j e) (indexed-append j es es' old)

  executed-append :
      (j : T.CodeId) (es es' : List (Event T))
      → executed j (es' ++ es) ≡ false
      → (executed j es' ≡ false) × (executed j es ≡ false)
  executed-append j es [] h = (refl, h)
  executed-append j es (e ∷ es') h = ground (arith, executed-append j es es')

  pub Tells-then :
      {s t u : State T} (es es' : List (Event T))
      → Tells s t es
      → Tells t u es'
      → Tells s u (es' ++ es)
  Tells-then {s} es es' p q = record {
    logged = q.logged ∙ ap (λ l. es' ++ l) p.logged ∙ sym (append_assoc es' es s.events);
    registered = λ j.
        q.registered j
        ∙ ap (indexed j es') (p.registered j)
        ∙ sym (indexed-append j es es' (is_registered s j));
    stored = λ j h.
        q.stored j (executed-append j es es' h).0 ∙ p.stored j (executed-append j es es' h).1;
  }
