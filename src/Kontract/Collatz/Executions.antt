-- ===== src/Kontract/Collatz/Executions.antt =====
-- The Collatz kontract over many executions by the pallet, each on the storage that the last one
-- left.
use kontracts.Prelude.{ℕ, zero, suc, ◌^◌, ◌<◌, ◌≡◌, ◌∙◌, refl, ap, true, some, [], arith}
use kontracts.Prelude.Int.{ℤ, pos, ◌≤ℤ◌}
use kontracts.Prelude.Outcome.{Outcome, ok}
use kontracts.Bytes.{Bytes, bytes_ord}
use kontracts.Codec.{Codec, IsScale, Storage, size, within}
use kontracts.Codec.Size.{size-cons, size-Fits}
use kontracts.Executor.Execute.{Engine}
use kontracts.Executor.Execute
use kontracts.Executor.Execute.Completes.{Runs, execute_code_completes}
use kontracts.Pallet.Config.{Config, IsConfig}
use kontracts.Pallet.State.{State, DispatchError}
use kontracts.Pallet.Calls.{or_default, execute_code}
use kontracts.Pallet.Settlement.{settlement, settled, nothing}
use kontracts.Pallet.Settlement.Correct.{execute_code_settles}
use kontracts.Kontract.{Allocator, IsAllocator}
use kontracts.Kontract.Programs.{Words, IsWords, main, collatz_conjecture, collatz_next}
use kontracts.Kontract.Deployed.{first_execution}
use kontracts.Kontract.Collatz.{
  member, member-next, member-fits, holding_number, size-holding_number, within-holding_number,
  run-first, run-next,
}

same_size_settlement : (n : ℕ) (expected : ℤ) → settlement n n expected ≡ nothing
same_size_settlement n expected = ground arith

module _ (T : Config) (E : Engine) (C : Codec) (blake2 : Bytes → Bytes) (origin : T.Origin)
    (code_id : T.CodeId) (expected : ℤ) (fuel : ℕ) where
  -- The state after so many executions, each with one read and one write.
  abbrev pub executed : ℕ → State T → State T
  executed zero s = s
  executed (suc k) s = (execute_code T E C blake2 origin code_id expected fuel 1 1 (executed k s)).1

module _ (A : Allocator) (L : IsAllocator A) (C : Codec) (S : IsScale C) (blake2 : Bytes → Bytes)
    (W : Words) (K : IsWords W) (h : A.Heap) (T : Config) (M : IsConfig T) (E : Engine)
    {code : Bytes} {fuel : ℕ} (R : Runs E code fuel (main A C W (collatz_conjecture A C W) h))
    (origin : T.Origin) (code_id : T.CodeId) (expected : ℤ) {who : T.AccountId}
    (signed : T.ensure_signed origin ≡ some who) where
  abbrev with_number : ℕ → Storage
  with_number = holding_number A L C S blake2 W K h

  abbrev call : State T → Outcome DispatchError (Unit {0}) × State T
  call = execute_code T E C blake2 origin code_id expected fuel 1 1

  -- The kontract is registered, its storage holds the number, and the ledger is `l`.
  record Holds (n : ℕ) (l : T.currency.Ledger) (s : State T) : Type 0 where
    pub known : T.codes.get s.codes code_id ≡ some code
    pub stored : T.storages.get s.storages code_id ≡ some (with_number n)
    pub paid : s.ledger ≡ l

  small_for_all : (m n : ℕ) → size C (with_number m) < 2 ^ 31 → size C (with_number n) < 2 ^ 31
  small_for_all m n small = rw (size-holding_number A L C S blake2 W K h n m) small

  next_settles :
      (n : ℕ) (l : T.currency.Ledger) (s : State T)
      → n < 2 ^ 32
      → size C (with_number n) < 2 ^ 31
      → within T.bounds (with_number n) ≡ true
      → Holds n l s
      → ((call s).0 ≡ ok tt) × Holds (collatz_next n) l (call s).1
  next_settles n l s fits small bounded holds =
      let n' = collatz_next n in
      let small' = small_for_all n n' small in
      let bounded' : within T.bounds (with_number n') ≡ true =
        within-holding_number A L C S blake2 W K h T.bounds n' n ∙ bounded in
      let found : or_default (T.storages.get s.storages code_id) ≡ with_number n =
        ap or_default holds.stored in
      let short : size C (with_number n) < 2 ^ 32 = omega arith in
      let ran =
        ap (λ m. Execute.execute_code E C blake2 code (C.encode_map m) fuel 1 1) found
        ∙ execute_code_completes E C S blake2 R (with_number n) (tt, tt)
            (size-Fits C S (with_number n) short) 1 1 (run-next A L C S blake2 W K h n fits) in
      let settles =
        execute_code_settles T E C S blake2 origin code_id expected fuel 1 1 s (with_number n')
          signed holds.known ran (tt, tt) (rw found small) small'
        ∙ ap
            (λ m.
              settled T who code_id (with_number n') s
                (settlement (size C m) (size C (with_number n')) expected))
            found
        ∙ ap
            (λ m.
              settled T who code_id (with_number n') s
                (settlement m (size C (with_number n')) expected))
            (size-holding_number A L C S blake2 W K h n n')
        ∙ ap (settled T who code_id (with_number n') s)
            (same_size_settlement (size C (with_number n')) expected) in
      rw (settles, bounded')
        (
          refl,
          record {
            known = holds.known;
            stored = M.storages.get-insert_self s.storages code_id (with_number n');
            paid = holds.paid;
          },
        )

  all_hold :
      (s : State T) {l : T.currency.Ledger} (k : ℕ)
      → T.codes.get s.codes code_id ≡ some code
      → or_default (T.storages.get s.storages code_id) ≡ []
      → size C (with_number 5) < 2 ^ 31
      → within T.bounds (with_number 5) ≡ true
      → pos (size C (with_number 5)) ≤ℤ expected
      → T.currency.reserve s.ledger who (size C (with_number 5)) ≡ some l
      → let t = executed T E C blake2 origin code_id expected fuel k s in
        ((call t).0 ≡ ok tt) × Holds (member k) l (call t).1
  all_hold s {l} zero known empty small bounded declared paid =
      let resized = size-holding_number A L C S blake2 W K h 16 5 in
      let done =
        first_execution T E C S blake2 origin code_id expected fuel 1 1 s (with_number 16) {l = l}
          signed known empty
          (execute_code_completes E C S blake2 R [] tt (omega arith, tt) 1 1
            (run-first A L C S blake2 W K h))
          (tt, tt) (omega (arith, size-cons C S (blake2 (W.encode_u32 1)) (W.encode_u32 16) []))
          (rw resized small) (within-holding_number A L C S blake2 W K h T.bounds 16 5 ∙ bounded)
          (rw resized declared) (rw resized paid) in
      rw done (
        refl,
        record {
          known = known;
          stored = M.storages.get-insert_self s.storages code_id (with_number 16);
          paid = refl;
        },
      )
  all_hold s {l} (suc k) known empty small bounded declared paid =
      let (_, holds) = all_hold s k known empty small bounded declared paid in
      let t = executed T E C blake2 origin code_id expected fuel (suc k) s in
      let (done, held) =
        next_settles (member k) l t (member-fits k) (small_for_all 5 (member k) small)
          (within-holding_number A L C S blake2 W K h T.bounds (member k) 5 ∙ bounded) holds in
      (done, rw (← member-next k) held)

  -- Where a signed caller executes the Collatz kontract, registered and run by the engine, again
  -- and again from an empty storage, each time with one read and one write, declares at least
  -- the size of an entry for one number, which is within the bounds and below 2^31 bytes, and
  -- can pay for one: every execution succeeds, the storage holds, from one to the next, the
  -- numbers 16, 8, 4, 2, 1 and then 4, 2, 1 for ever, alone under the kontract's key, and the
  -- balances after every execution are those after the first reservation.
  pub execute_code-collatz_conjecture :
      (s : State T) {l : T.currency.Ledger} (k : ℕ)
      → T.codes.get s.codes code_id ≡ some code
      → or_default (T.storages.get s.storages code_id) ≡ []
      → size C (with_number 5) < 2 ^ 31
      → within T.bounds (with_number 5) ≡ true
      → pos (size C (with_number 5)) ≤ℤ expected
      → T.currency.reserve s.ledger who (size C (with_number 5)) ≡ some l
      → let t = executed T E C blake2 origin code_id expected fuel k s in
        ((call t).0 ≡ ok tt)
        × (T.storages.get (call t).1.storages code_id ≡ some (with_number (member k)))
        × ((call t).1.ledger ≡ l)
  execute_code-collatz_conjecture s {l} k known empty small bounded declared paid =
      let (done, holds) = all_hold s k known empty small bounded declared paid in
      (done, holds.stored, holds.paid)
