-- ===== src/Runtime/Storages/History.antt =====
-- What a sequence of extrinsics may do to the storage of one kontract.
use kontracts.Prelude.{
  ℕ, ◌+◌, ◌^◌, ◌<◌, ◌≡◌, subst, inl, inr, some, List, [], ◌∷◌, ◌++◌, length, ap,
}
use kontracts.Prelude.Int.{ℤ}
use kontracts.Prelude.Outcome.{Outcome, ok, err, panic, Outcome-cases}
use kontracts.Bytes.{Bytes, bytes_ord}
use kontracts.Codec.{Codec, IsScale}
use kontracts.Executor.Execute.{Engine}
use kontracts.Executor.Execute
use kontracts.Pallet.Calls
use kontracts.Executor.Trace.{Op}
use kontracts.Executor.Execute.Refines.{Executed}
use kontracts.Pallet.Config.{Config, IsConfig}
use kontracts.Pallet.State.{State, DispatchError}
use kontracts.Pallet.Reach.{IsValid}
use kontracts.Pallet.Dispatch.{KontractsCall, Extrinsic, call, dispatch, dispatch_all}
use kontracts.Pallet.Dispatch.Sequences.{
  dispatch_done, dispatch_refused, dispatch_panicked, dispatch_all-IsValid, dispatch_all-isolated,
}
use kontracts.Runtime.Sizes.{AreSmall}
use kontracts.Runtime.Storages.{
  stored, stored-IsSorted, ops_if_kept, Executed-refl, Executed-trans, execution-Executed,
}

abbrev if_same : {P : Type 0} → Dec P → ℕ → ℕ
if_same (yes _) n = n
if_same (no _) n = 0

module _ (T : Config) where
  -- The reads and the writes that an extrinsic declares for a code id, and a sequence of them.
  abbrev reads_by : T.CodeId → Extrinsic T → ℕ
  reads_by j (_, KontractsCall.execute_code id _ _ r _) = if_same (T.code_id_eq id j) r
  reads_by j (_, KontractsCall.upload_code _) = 0
  reads_by j (_, KontractsCall.delete_code _) = 0
  reads_by j (_, KontractsCall.update_code _ _) = 0

  abbrev writes_by : T.CodeId → Extrinsic T → ℕ
  writes_by j (_, KontractsCall.execute_code id _ _ _ w) = if_same (T.code_id_eq id j) w
  writes_by j (_, KontractsCall.upload_code _) = 0
  writes_by j (_, KontractsCall.delete_code _) = 0
  writes_by j (_, KontractsCall.update_code _ _) = 0

  abbrev pub declared_reads : T.CodeId → List (Extrinsic T) → ℕ
  declared_reads j [] = 0
  declared_reads j (x ∷ xs) = reads_by j x + declared_reads j xs

  abbrev pub declared_writes : T.CodeId → List (Extrinsic T) → ℕ
  declared_writes j [] = 0
  declared_writes j (x ∷ xs) = writes_by j x + declared_writes j xs

module _ (T : Config) (E : Engine) (C : Codec) (blake2 : Bytes → Bytes) where
  -- The limits are below 2 ^ 32 - 1, and the executor returns less than 2 ^ 31 bytes.
  abbrev IsModest : Extrinsic T → State T → Type 0
  IsModest (_, KontractsCall.execute_code id _ fuel r w) s =
      (r + 1 < 2 ^ 32)
      × (w + 1 < 2 ^ 32)
      × ((code raw : Bytes)
          → T.codes.get s.codes id ≡ some code
          → Execute.execute_code E C blake2 code (C.encode_map (stored T s id)) fuel r w ≡ ok raw
          → length raw < 2 ^ 31)
  IsModest (_, KontractsCall.upload_code _) s = Unit {0}
  IsModest (_, KontractsCall.delete_code _) s = Unit {0}
  IsModest (_, KontractsCall.update_code _ _) s = Unit {0}

  -- The operations on the storage of an id that the host performs in an extrinsic, and in a sequence
  -- of them, so far as their executions end with Ok and CodeExecuted.
  abbrev ops_if_same :
      {id j : T.CodeId}
      → Dec (id ≡ j)
      → ℕ
      → ℕ
      → ℕ
      → State T
      → Outcome DispatchError (Unit {0}) × State T
      → List Op
  ops_if_same {id} (yes _) fuel r w s end = ops_if_kept T E C blake2 id fuel r w s end
  ops_if_same (no _) fuel r w s end = []

  abbrev ops_by : T.CodeId → Extrinsic T → State T → List Op
  ops_by j (origin, KontractsCall.execute_code id expected fuel r w) s =
      ops_if_same (T.code_id_eq id j) fuel r w s
        (Calls.execute_code T E C blake2 origin id expected fuel r w s)
  ops_by j (_, KontractsCall.upload_code _) s = []
  ops_by j (_, KontractsCall.delete_code _) s = []
  ops_by j (_, KontractsCall.update_code _ _) s = []

  abbrev pub kept_ops : T.CodeId → List (Extrinsic T) → State T → List Op
  kept_ops j [] s = []
  kept_ops j (x ∷ xs) s = ops_by j x s ++ kept_ops j xs (dispatch T E C blake2 x s)

  abbrev pub AreModest : List (Extrinsic T) → State T → Type 0
  AreModest [] s = Unit {0}
  AreModest (x ∷ xs) s = IsModest x s × AreModest xs (dispatch T E C blake2 x s)

module _ (T : Config) (L : IsConfig T) (E : Engine) (C : Codec) (S : IsScale C)
    (blake2 : Bytes → Bytes) (small : AreSmall T.bounds) where
  -- An extrinsic that does not execute the id.
  spared-Executed :
      (x : Extrinsic T) (s : State T) (j : T.CodeId) (r w : ℕ)
      → IsValid T s
      → T.storages.get (dispatch T E C blake2 x s).storages j ≡ T.storages.get s.storages j
      → Executed blake2 [] (stored T s j) (stored T (dispatch T E C blake2 x s) j) r w
  spared-Executed x s j r w v same =
      rw same (Executed-refl blake2 (stored T s j) r w (stored-IsSorted T s j v))

  itself-Executed :
      (origin : T.Origin) (id : T.CodeId) (expected : ℤ) (fuel r w : ℕ) (s : State T)
      → let x : Extrinsic T = (origin, KontractsCall.execute_code id expected fuel r w) in
        IsValid T s
        → IsModest T E C blake2 x s
        → Executed blake2
            (ops_if_kept T E C blake2 id fuel r w s
              (Calls.execute_code T E C blake2 origin id expected fuel r w s))
            (stored T s id)
            (stored T (dispatch T E C blake2 x s) id)
            r
            w
  unfolding call
  itself-Executed origin id expected fuel r w s v (hr, hw, light) =
      let x : Extrinsic T = (origin, KontractsCall.execute_code id expected fuel r w) in
      let end = Calls.execute_code T E C blake2 origin id expected fuel r w s in
      elim (Outcome-cases end.0) [
        | inl (_, e) ↦
            let done : end ≡ (ok tt, end.1) = ap (λ o. (o, end.1)) e in
            rw (dispatch_done T E C blake2 x s done, done)
              (execution-Executed T L E C S blake2 small origin id expected fuel r w s v hr hw light
                done)
        | inr (inl (f, e)) ↦
            let failed : end ≡ (err f, end.1) = ap (λ o. (o, end.1)) e in
            rw (dispatch_refused T E C blake2 x s failed, failed)
              (Executed-refl blake2 (stored T s id) r w (stored-IsSorted T s id v))
        | inr (inr e) ↦
            let failed : end ≡ (panic, end.1) = ap (λ o. (o, end.1)) e in
            rw (dispatch_panicked T E C blake2 x s failed, failed)
              (Executed-refl blake2 (stored T s id) r w (stored-IsSorted T s id v))
      ]

  executes-Executed :
      (origin : T.Origin) (id : T.CodeId) (expected : ℤ) (fuel r w : ℕ) (s : State T) (j : T.CodeId)
      (same : Dec (id ≡ j))
      → let x : Extrinsic T = (origin, KontractsCall.execute_code id expected fuel r w) in
        IsValid T s
        → IsModest T E C blake2 x s
        → Executed blake2
            (ops_if_same T E C blake2 same fuel r w s
              (Calls.execute_code T E C blake2 origin id expected fuel r w s))
            (stored T s j)
            (stored T (dispatch T E C blake2 x s) j)
            (if_same same r)
            (if_same same w)
  unfolding call
  executes-Executed origin id expected fuel r w s j (yes e) v (hr, hw, light) =
      let x : Extrinsic T = (origin, KontractsCall.execute_code id expected fuel r w) in
      let end = Calls.execute_code T E C blake2 origin id expected fuel r w s in
      subst
        (λ i.
          Executed blake2 (ops_if_kept T E C blake2 id fuel r w s end) (stored T s i)
            (stored T (dispatch T E C blake2 x s) i) r w)
        e (itself-Executed origin id expected fuel r w s v (hr, hw, light))
  executes-Executed origin id expected fuel r w s j (no ne) v h =
      spared-Executed (origin, KontractsCall.execute_code id expected fuel r w) s j 0 0 v
        (dispatch_all-isolated T L E C blake2
          ((origin, KontractsCall.execute_code id expected fuel r w) ∷ []) s j (ne, tt))

  dispatch-Executed :
      (x : Extrinsic T) (s : State T) (j : T.CodeId)
      → IsValid T s
      → IsModest T E C blake2 x s
      → Executed blake2
          (ops_by T E C blake2 j x s)
          (stored T s j)
          (stored T (dispatch T E C blake2 x s) j)
          (reads_by T j x)
          (writes_by T j x)
  dispatch-Executed (origin, KontractsCall.execute_code id expected fuel r w) s j v h =
      executes-Executed origin id expected fuel r w s j (T.code_id_eq id j) v h
  dispatch-Executed (origin, KontractsCall.upload_code code) s j v h =
      spared-Executed _ s j 0 0 v (dispatch_all-isolated T L E C blake2 (_ ∷ []) s j (tt, tt))
  dispatch-Executed (origin, KontractsCall.delete_code id) s j v h =
      spared-Executed _ s j 0 0 v (dispatch_all-isolated T L E C blake2 (_ ∷ []) s j (tt, tt))
  dispatch-Executed (origin, KontractsCall.update_code id code) s j v h =
      spared-Executed _ s j 0 0 v (dispatch_all-isolated T L E C blake2 (_ ∷ []) s j (tt, tt))

  -- With bounds that are at most the runtime's, from a state where every code stands under its
  -- own hash and every storage is sorted and within the bounds, a sequence of extrinsics whose
  -- executions declare limits below 2^32 - 1 and return less than 2^31 bytes leaves under each
  -- code id a sorted storage that is, as a function from hashed keys, the replay on the old one
  -- of the operations that the host performed in the executions of that id that ended with Ok
  -- and CodeExecuted, one execution after the other. The gets among them are together at most
  -- the reads declared for that id in the sequence, and the sets and removes at most the writes.
  pub dispatch_all-Executed :
      (xs : List (Extrinsic T)) (s : State T) (j : T.CodeId)
      → IsValid T s
      → AreModest T E C blake2 xs s
      → Executed blake2
          (kept_ops T E C blake2 j xs s)
          (stored T s j)
          (stored T (dispatch_all T E C blake2 xs s) j)
          (declared_reads T j xs)
          (declared_writes T j xs)
  dispatch_all-Executed [] s j v h =
      Executed-refl blake2 (stored T s j) 0 0 (stored-IsSorted T s j v)
  dispatch_all-Executed (x ∷ xs) s j v (modest, h) =
      Executed-trans blake2 (ops_by T E C blake2 j x s)
        (kept_ops T E C blake2 j xs (dispatch T E C blake2 x s)) (dispatch-Executed x s j v modest)
        (dispatch_all-Executed xs (dispatch T E C blake2 x s) j
          (dispatch_all-IsValid T E C blake2 L S (x ∷ []) s v) h)
