-- ===== src/Runtime/Storages.antt =====
-- The storages of the kontracts over sequences of extrinsics, down to the operations that the host
-- performs for the kontracts.
pub mod History
use kontracts.Prelude.{
  ℕ, ◌+◌, ◌^◌, ◌≤◌, ◌<◌, ◌≡◌, ◌≢◌, ◌⊎◌, refl, sym, ◌∙◌, ap, subst, inl, inr, Bool, true, false,
  if◌then◌else◌, Bool-cases, Option, none, some, Option-cases, List, [], ◌∷◌, ◌++◌, arith, length,
}
use kontracts.Prelude.Int.{ℤ}
use kontracts.Prelude.Outcome.{Outcome, ok, err, panic}
use kontracts.Bytes.{Bytes, bytes_ord}
use kontracts.BTreeMap.{IsSorted}
use kontracts.Codec.{Codec, IsScale, Storage, size, within}
use kontracts.Executor.Execute.{Engine}
use kontracts.Executor.Execute
use kontracts.Executor.Execute.Refines.{Executed, performed}
use kontracts.Executor.Trace.{Op, View, view, replay, reads, writes}
use kontracts.Executor.Trace.Replay.{replay-append}
use kontracts.Executor.Trace.Budget.{reads-append, writes-append}
use kontracts.Pallet.Config.{Config, IsConfig}
use kontracts.Pallet.State.{
  State, DispatchError, Event, code_executed, exceeded_storage, new_code_uploaded, code_deleted,
  code_upgraded,
}
use kontracts.Pallet.Calls.{or_default, execute_code}
use kontracts.Pallet.Effects.{execute_code-ran}
use kontracts.Pallet.Settlement.{Settlement, nothing, refund, deposit, fine, settlement, settled}
use kontracts.Pallet.Execution.{execute_code_run}
use kontracts.Pallet.Reach.{IsValid, here}
use kontracts.Pallet.Dispatch.{KontractsCall, Extrinsic, call, dispatch, dispatch_all}
use kontracts.Pallet.Dispatch.Sequences.{
  dispatch-cases, dispatch_all-IsValid, dispatch_all-isolated,
}
use kontracts.Runtime.Sizes.{AreSmall, Reach-size_small}

module _ (hash : Bytes → Bytes) where
  pub Executed-refl : (m : Storage) (r w : ℕ) → IsSorted m → Executed hash [] m m r w
  Executed-refl m r w sorted = record {
    sorted = sorted;
    replayed = refl;
    read_limit = omega arith;
    write_limit = omega arith;
  }

  pub Executed-trans :
      (ops ops' : List Op) {m₁ m₂ m₃ : Storage} {r r' w w' : ℕ}
      → Executed hash ops m₁ m₂ r w
      → Executed hash ops' m₂ m₃ r' w'
      → Executed hash (ops ++ ops') m₁ m₃ (r + r') (w + w')
  Executed-trans ops ops' {m₁} e f = record {
    sorted = f.sorted;
    replayed =
        f.replayed ∙ ap (replay hash ops') e.replayed ∙ sym (replay-append hash ops ops' (view m₁));
    read_limit = omega (arith, reads-append ops ops', e.read_limit, f.read_limit);
    write_limit = omega (arith, writes-append ops ops', e.write_limit, f.write_limit);
  }

module _ (T : Config) where
  abbrev pub stored : State T → T.CodeId → Storage
  stored s j = or_default (T.storages.get s.storages j)

  -- The last event says that a new storage is kept.
  abbrev says_kept : List (Event T) → Bool
  says_kept [] = false
  says_kept (code_executed _ _ ∷ _) = true
  says_kept (exceeded_storage _ _ ∷ _) = false
  says_kept (new_code_uploaded _ _ ∷ _) = false
  says_kept (code_deleted _ ∷ _) = false
  says_kept (code_upgraded _ _ ∷ _) = false

  -- A settlement that returns Ok keeps the new storage or changes none.
  settled_stores :
      (who : T.AccountId) (code_id : T.CodeId) (m : Storage) (s : State T) {t : State T}
      (x : Settlement)
      → settled T who code_id m s x ≡ (ok tt, t)
      → ((t.storages ≡ T.storages.insert s.storages code_id m) × (says_kept t.events ≡ true))
        ⊎ ((t.storages ≡ s.storages) × (says_kept t.events ≡ false))
  settled_stores who code_id m s nothing h = elim (Bool-cases (within T.bounds m)) [
    | inl keeps ↦ inl (ground arith, ground arith)
    | inr breaks ↦ absurd (ground arith)
  ]
  settled_stores who code_id m s (refund n) h = elim (Bool-cases (within T.bounds m)) [
    | inl keeps ↦ inl (ground arith, ground arith)
    | inr breaks ↦ absurd (ground arith)
  ]
  settled_stores who code_id m s (deposit n) h =
      elim (Option-cases (T.currency.reserve s.ledger who n)) [
        | inl refused ↦ absurd (ground arith)
        | inr (l, done) ↦ elim (Bool-cases (within T.bounds m)) [
          | inl keeps ↦ inl (ground arith, ground arith)
          | inr breaks ↦ absurd (ground arith)
        ]
      ]
  settled_stores who code_id m s (fine n) h = inr (ground arith, ground arith)

  pub stored-IsSorted : (s : State T) (j : T.CodeId) → IsValid T s → IsSorted (stored s j)
  stored-IsSorted s j v = elim (Option-cases (T.storages.get s.storages j)) [
    | inl e ↦ rw e tt
    | inr (m, e) ↦ rw e (v.sorted j m e)
  ]

module _ (T : Config) (E : Engine) (C : Codec) (blake2 : Bytes → Bytes) where
  -- The operations that the host performs in an execution that ends with Ok and CodeExecuted; of
  -- another one nothing is kept.
  abbrev pub ops_if_kept :
      T.CodeId → ℕ → ℕ → ℕ → State T → Outcome DispatchError (Unit {0}) × State T → List Op
  ops_if_kept id fuel r w s (ok _, t) =
      if says_kept T t.events
      then elim (T.codes.get s.codes id) [
        | none ↦ []
        | some code ↦ performed E C blake2 code (stored T s id) fuel r w
      ]
      else []
  ops_if_kept id fuel r w s (err _, t) = []
  ops_if_kept id fuel r w s (panic, t) = []

module _ (T : Config) (L : IsConfig T) (E : Engine) (C : Codec) (S : IsScale C)
    (blake2 : Bytes → Bytes) (small : AreSmall T.bounds) where
  -- One execution that returns Ok, on the storage of its own id.
  pub execution-Executed :
      (origin : T.Origin) (code_id : T.CodeId) (expected : ℤ) (fuel r w : ℕ) (s : State T)
      {t : State T}
      → IsValid T s
      → r + 1 < 2 ^ 32
      → w + 1 < 2 ^ 32
      → ((code raw : Bytes)
          → T.codes.get s.codes code_id ≡ some code
          → Execute.execute_code E C blake2 code (C.encode_map (stored T s code_id)) fuel r w
            ≡ ok raw
          → length raw < 2 ^ 31)
      → execute_code T E C blake2 origin code_id expected fuel r w s ≡ (ok tt, t)
      → Executed blake2
          (ops_if_kept T E C blake2 code_id fuel r w s (ok tt, t))
          (stored T s code_id)
          (stored T t code_id)
          r
          w
  execution-Executed origin code_id expected fuel r w s {t} v hr hw light h =
      let (who, code, raw, signed, known, ran) =
        execute_code-ran T E C blake2 origin code_id expected fuel r w s (ap (λ x. x.0) h) in
      let sorted = stored-IsSorted T s code_id v in
      let short = Reach-size_small T L E C S blake2 code_id small v here in
      let (m', done, settles) =
        execute_code_run T E C S blake2 origin code_id expected fuel r s signed known sorted short
          hr w hw (light code raw known ran) ran in
      elim (settled_stores T who code_id m' s
        (settlement (size C (stored T s code_id)) (size C m') expected) (sym settles ∙ h)) [
          | inl (kept, said) ↦
              rw (said, known, kept, L.storages.get-insert_self s.storages code_id m') done
          | inr (unchanged, said) ↦
              rw (said, unchanged) (Executed-refl blake2 (stored T s code_id) r w sorted)
        ]
