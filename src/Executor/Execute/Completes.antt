-- ===== src/Executor/Execute/Completes.antt =====
-- `execute_code` runs a kontract to its end where nothing stands in the way.
use mathlib.Core.List.{append-nil}
use kontracts.Prelude.{ℕ, ◌≡◌, true, some, [], subst, arith}
use kontracts.Prelude.Outcome.{ok, err}
use kontracts.Bytes.{Bytes, bytes_ord}
use kontracts.BTreeMap.{IsSorted}
use kontracts.Codec.{Codec, IsScale, Storage, Fits}
use kontracts.Executor.Store.{KontractStore, Trap}
use kontracts.Executor.Guest.{Guest, returned, run}
use kontracts.Executor.Execute.{Engine, fresh_store, error_of_trap, call_main, execute_code}

-- The engine takes the code, and under that much fuel its main function is the given run.
pub record Runs (E : Engine) (code : Bytes) (fuel : ℕ) (body : Guest (Unit {0})) : Type 0 where
  pub creates : E.create ≡ true
  pub compiled : E.Module
  pub compiles : E.compile code ≡ some compiled
  pub fuelled : E.add_fuel fuel ≡ true
  pub wraps : E.func_wrap ≡ true
  pub linked : E.Instance
  pub instantiates : E.instantiate compiled fuel ≡ some (returned linked)
  pub enters : E.main linked ≡ some body

module _ (E : Engine) (C : Codec) (S : IsScale C) (hash : Bytes → Bytes) {code : Bytes} {fuel : ℕ}
    {body : Guest (Unit {0})} (R : Runs E code fuel body) (m : Storage) (sorted : IsSorted m)
    (fits : Fits m) (max_read max_write : ℕ) where
  decodes : C.decode_map (C.encode_map m) ≡ some (m, [])
  decodes =
      subst (λ b. C.decode_map b ≡ some (m, [])) (append-nil (C.encode_map m))
        (S.decode_map-encode_map m [] sorted fits)

  -- Where the engine takes the code and its main function, under the given fuel, is a run that
  -- returns on a sorted storage of the format's lengths, execute_code returns the encoding of
  -- the storage that the run leaves.
  pub execute_code_completes :
      {s : KontractStore}
      → run C hash body (fresh_store max_read max_write m) ≡ (ok tt, s)
      → execute_code E C hash code (C.encode_map m) fuel max_read max_write
        ≡ ok (C.encode_map s.storage)
  unfolding execute_code call_main run
  execute_code_completes ran =
      ground (arith, decodes, R.creates, R.compiles, R.fuelled, R.wraps, R.instantiates, R.enters)

  -- Where the engine takes the code and its main function is a run that traps, execute_code
  -- fails with the error that the trap's reason stands for.
  pub execute_code_traps :
      {s : KontractStore} {t : Trap}
      → run C hash body (fresh_store max_read max_write m) ≡ (err t, s)
      → execute_code E C hash code (C.encode_map m) fuel max_read max_write ≡ err (error_of_trap t)
  unfolding execute_code call_main run
  execute_code_traps ran =
      ground (arith, decodes, R.creates, R.compiles, R.fuelled, R.wraps, R.instantiates, R.enters)
