-- ===== src/Runtime/Sizes.antt =====
-- With the runtime's bounds the sizes of all storages on chain are exact `i32` numbers.
use kontracts.Prelude.{◌^◌, ◌≤◌, ◌<◌, ◌≡◌, inl, inr, true, Option-cases, arith, length}
use kontracts.Bytes.{Bytes}
use kontracts.Codec.{Bounds, Codec, IsScale, Storage, size, within}
use kontracts.Codec.Size.{size-le-entries}
use kontracts.Executor.Execute.{Engine}
use kontracts.Pallet.Config.{Config, IsConfig}
use kontracts.Pallet.State.{State}
use kontracts.Pallet.Calls.{or_default}
use kontracts.Pallet.Reach.{Reach, IsValid, Reach-IsValid}
use kontracts.Runtime.{runtime_bounds}

-- Bounds that are at most the runtime's.
abbrev pub AreSmall : Bounds → Type 0
AreSmall b =
    (b.key_size ≤ runtime_bounds.key_size)
    × (b.value_size ≤ runtime_bounds.value_size)
    × (b.entries ≤ runtime_bounds.entries)

within-size :
    (C : Codec)
    → IsScale C
    → (b : Bounds) (m : Storage) → AreSmall b
    → within b m ≡ true
    → size C m < 2 ^ 31
within-size C S b m small h =
    let bounded : length m ≤ b.entries = ground arith in
    grind (arith, size-le-entries C S b m (omega arith) (omega arith) (ground arith))

module _ (T : Config) (L : IsConfig T) (E : Engine) (C : Codec) (S : IsScale C)
    (blake2 : Bytes → Bytes) where
  pub Reach-size_small :
      {s t : State T} (j : T.CodeId)
      → AreSmall T.bounds
      → IsValid T s
      → Reach T E C blake2 s t
      → size C (or_default (T.storages.get t.storages j)) < 2 ^ 31
  Reach-size_small {s} {t} j small v r =
      let v' = Reach-IsValid T L E C S blake2 r v in
      elim (Option-cases (T.storages.get t.storages j)) [
        | inl e ↦ rw e (omega arith)
        | inr (m, e) ↦ rw e (within-size C S T.bounds m small (v'.bounded j m e))
      ]

  -- With the runtime's bounds, every state that successful calls reach from a valid state has a
  -- size below 2^31 for the storage of every code id, unknown ids included, so that the i32 that
  -- execute_code takes for the size is exact.
  pub Reach-size :
      {s t : State T} (j : T.CodeId)
      → T.bounds ≡ runtime_bounds
      → IsValid T s
      → Reach T E C blake2 s t
      → size C (or_default (T.storages.get t.storages j)) < 2 ^ 31
  Reach-size j bounds = Reach-size_small j (rw bounds (omega arith))
