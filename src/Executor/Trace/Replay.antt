-- ===== src/Executor/Trace/Replay.antt =====
-- The final storage of a run is the replay of its operations.
use mathlib.Core.Path.{fun_ext}
use kontracts.Prelude.{inl, inr, ◌≡◌, refl, ◌∙◌, ap, List, [], ◌∷◌, ◌++◌}
use kontracts.Bytes.{Bytes, bytes_ord}
use kontracts.BTreeMap.{IsSorted}
use kontracts.BTreeMap.Laws.{get-insert, get-remove, insert-IsSorted, remove-IsSorted}
use kontracts.Codec.{Codec, Storage}
use kontracts.Executor.Store.{KontractStore, Host-cases}
use kontracts.Executor.Host.{host_call}
use kontracts.Executor.Guest.{Guest, returned, trapped, calls, run}
use kontracts.Executor.Trace.{Op, op_of, View, view, apply, replay, perform, trace}
use kontracts.Executor.Trace.Effect.{host_call-Effect, host_call-storage_kept}

module _ (hash : Bytes → Bytes) where
  view-perform :
      (o : Op) (m : Storage) → IsSorted m → view (perform hash o m) ≡ apply hash o (view m)
  view-perform (Op.set k v) m h = fun_ext λ j. get-insert (hash k) j v m
  view-perform (Op.get k) m h = refl
  view-perform (Op.remove k) m h = fun_ext λ j. get-remove (hash k) j m h

  pub perform-IsSorted : (o : Op) (m : Storage) → IsSorted m → IsSorted (perform hash o m)
  perform-IsSorted (Op.set k v) m h = insert-IsSorted (hash k) v m h
  perform-IsSorted (Op.get k) m h = h
  perform-IsSorted (Op.remove k) m h = remove-IsSorted (hash k) m h

module _ (C : Codec) (hash : Bytes → Bytes) {R : Type 0} where
  -- From a sorted storage, however a run ends, the ordered map that it leaves is sorted and is,
  -- as a function from hashed keys, the replay of the operations that the host performed.
  pub run_replays :
      (g : Guest R) (s : KontractStore)
      → IsSorted s.storage
      → let (_, s') = run C hash g s in
        IsSorted s'.storage × (view s'.storage ≡ replay hash (trace C hash g s) (view s.storage))
  unfolding run trace
  run_replays (returned r) s h = (h, refl)
  run_replays (trapped t) s h = (h, refl)
  run_replays (calls f mem next) s h =
      elim (Host-cases (host_call C hash f (record { data_mut = s; memory = mem }))) [
        | inl (_, c, e) ↦
            let effect = host_call-Effect C hash f mem s e in
            let sorted : IsSorted c.data_mut.storage =
              rw effect.stored (perform-IsSorted hash (op_of f mem) s.storage h) in
            let (kept, rest) = run_replays (next c.memory) c.data_mut sorted in
            rw (e, run, trace)
              (rw e (
                kept,
                rest
                    ∙ ap (replay hash (trace C hash (next c.memory) c.data_mut))
                        (ap view effect.stored ∙ view-perform hash (op_of f mem) s.storage h),
              ))
        | inr (inl (t, c, e)) ↦
            rw (e, run, trace)
              (let unchanged = host_call-storage_kept C hash f mem s (rw e (λ q. cc)) in
                rw unchanged (h, refl))
        | inr (inr (c, e)) ↦
            rw (e, run, trace)
              (let unchanged = host_call-storage_kept C hash f mem s (rw e (λ q. cc)) in
                rw unchanged (h, refl))
      ]

module _ (hash : Bytes → Bytes) where
  pub replay-append :
      (xs ys : List Op) (w : View) → replay hash (xs ++ ys) w ≡ replay hash ys (replay hash xs w)
  replay-append [] ys w = refl
  replay-append (x ∷ xs) ys w = replay-append xs ys (apply hash x w)
