-- ===== src/Executor/Execute/Encodes.antt =====
-- What `execute_code` returns is always the encoding of a storage in order.
use kontracts.Prelude.{ℕ, ◌≡◌, inl, inr, Option-cases, arith}
use kontracts.Prelude.Outcome.{ok, Outcome-cases}
use kontracts.Bytes.{Bytes, bytes_ord}
use kontracts.BTreeMap.{IsSorted}
use kontracts.Codec.{Codec, IsScale, Storage}
use kontracts.Executor.Store.{KontractStore}
use kontracts.Executor.Guest.{run}
use kontracts.Executor.Trace.Replay.{run_replays}
use kontracts.Executor.Execute.{Engine, fresh_store, call_main, execute_code}

module _ (E : Engine) (C : Codec) (S : IsScale C) (hash : Bytes → Bytes) where
  call_main-encodes :
      (compiled : E.Module) (fuel : ℕ) (s : KontractStore) {raw : Bytes}
      → IsSorted s.storage
      → call_main E C hash compiled fuel s ≡ ok raw
      → (m : Storage) × (raw ≡ C.encode_map m) × IsSorted m
  unfolding call_main
  call_main-encodes compiled fuel s sorted h = elim (Option-cases (E.instantiate compiled fuel)) [
    | inl e ↦ absurd (ground arith)
    | inr (start, e) ↦ elim (Outcome-cases (run C hash start s).0) [
      | inl (linked, e₁) ↦ elim (Option-cases (E.main linked)) [
        | inl e₂ ↦ absurd (ground arith)
        | inr (body, e₂) ↦
            let s₁ = (run C hash start s).1 in
            let (sorted₁, _) = run_replays C hash start s sorted in
            let (sorted₂, _) = run_replays C hash body s₁ sorted₁ in
            elim (Outcome-cases (run C hash body s₁).0) [
              | inl (_, e₃) ↦ ((run C hash body s₁).1.storage, ground arith, sorted₂)
              | inr not_ok ↦ absurd (ground arith)
            ]
      ]
      | inr not_ok ↦ absurd (ground arith)
    ]
  ]

  -- Whatever the code, the input and the limits, a successful execution returns the encoding of a
  -- storage in order.
  pub execute_code-encodes :
      (code input : Bytes) (fuel max_read max_write : ℕ) {raw : Bytes}
      → execute_code E C hash code input fuel max_read max_write ≡ ok raw
      → (m : Storage) × (raw ≡ C.encode_map m) × IsSorted m
  unfolding execute_code
  execute_code-encodes code input fuel max_read max_write h = elim (Option-cases (E.compile code)) [
    | inl e ↦ absurd (ground arith)
    | inr (compiled, e) ↦ elim (Option-cases (C.decode_map input)) [
      | inl e' ↦ absurd (ground arith)
      | inr ((m, rest), e') ↦
          call_main-encodes compiled fuel (fresh_store max_read max_write m)
            (S.decode_map-IsSorted input m rest e') (ground arith)
    ]
  ]
