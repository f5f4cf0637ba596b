-- ===== src/Kontract/Endless.antt =====
-- The test kontract that never ends (pallets/kontracts/wasm_test/loop.rs), from the pallet.
use kontracts.Prelude.{ℕ, ◌^◌, ◌<◌, ◌≡◌, refl, some, [], arith}
use kontracts.Prelude.Int.{ℤ}
use kontracts.Prelude.Outcome.{err}
use kontracts.Bytes.{Bytes, bytes_ord}
use kontracts.BTreeMap.{IsSorted}
use kontracts.Codec.{Codec, IsScale, size}
use kontracts.Codec.Size.{decode_map-encode_map_nil}
use kontracts.Executor.Execute.{Engine, out_of_fuel}
use kontracts.Executor.Fuel.{Program, goes, IsEndless, Meters, execute_code_endless}
use kontracts.Pallet.Config.{Config}
use kontracts.Pallet.State.{State, module_error, execution_code}
use kontracts.Pallet.Calls.{or_default, execute_code}
use kontracts.Pallet.Settlement.Sizes.{get_storage_size-encode_map}

-- `fn main() { loop {} }`: at the head of the loop, which leads back to it.
unfoldable pub loop_forever : Program
loop_forever = record { State = Unit {0}; start = tt; step = λ x. goes x }

loop_forever-IsEndless : IsEndless loop_forever
unfolding loop_forever
loop_forever-IsEndless x = (x, refl)

module _ (T : Config) (E : Engine) (C : Codec) (S : IsScale C) (blake2 : Bytes → Bytes)
    (origin : T.Origin) (code_id : T.CodeId) (expected : ℤ) (max_read max_write : ℕ) (s : State T)
    {code : Bytes} where
  -- Where a signed caller executes the endless test kontract, registered and metered by the
  -- engine, on a sorted storage of less than 2^31 bytes, the call ends in OutOfFuel for every
  -- amount of fuel, and changes nothing.
  pub loop_forever_runs_out :
      (fuel : ℕ) {who : T.AccountId}
      → let m = or_default (T.storages.get s.storages code_id) in
        Meters E code loop_forever
        → T.ensure_signed origin ≡ some who
        → T.codes.get s.codes code_id ≡ some code
        → IsSorted m
        → size C m < 2 ^ 31
        → execute_code T E C blake2 origin code_id expected fuel max_read max_write s
          ≡ (err (module_error (execution_code out_of_fuel)), s)
  unfolding execute_code
  loop_forever_runs_out fuel M signed known sorted small =
      let m = or_default (T.storages.get s.storages code_id) in
      let fits : size C m < 2 ^ 32 = omega arith in
      let endless =
        execute_code_endless loop_forever E C blake2 M loop_forever-IsEndless m (C.encode_map m) []
          fuel max_read max_write (decode_map-encode_map_nil C S m sorted fits) in
      ground (arith, endless, get_storage_size-encode_map C S m small)
