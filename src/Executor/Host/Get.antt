-- ===== src/Executor/Host/Get.antt =====
-- The "get" import: what the kontract finds in its memory after the call.
use kontracts.Prelude.{ℕ, ◌+◌, ◌^◌, ◌≤◌, ◌<◌, ◌≡◌, ◌∙◌, ap, subst, some, [], ◌++◌, arith, length}
use kontracts.Prelude.Outcome.{Outcome, ok, panic}
use kontracts.Bytes.{Bytes, bytes_ord}
use kontracts.BTreeMap
use kontracts.Codec.{Codec, IsScale}
use kontracts.Executor.Store.{KontractStore, Caller, Trap, kontracts_get}
use kontracts.Executor.Memory.{slice, splice, read_vec, write_vec}
use kontracts.Executor.Memory.Window.{
  length-splice_encoded, slice-splice_encoded, decode_bytes-encode_small, write_vec_branches,
}
use kontracts.Executor.Host.{get, unwrap_or_empty, host_call}

module _ (C : Codec) (S : IsScale C) (hash : Bytes → Bytes) (kp ks vp vs : ℕ) (s : KontractStore)
    (mem key : Bytes) (readable : slice kp ks mem ≡ some key)
    (budget : s.curr_n_read < s.max_n_read) (limit : s.max_n_read < 2 ^ 32) where
  abbrev caller : Caller
  caller = record { data_mut = s; memory = some mem }

  abbrev counted : KontractStore
  counted = record s { curr_n_read = s.curr_n_read + 1 }

  abbrev stored : Bytes
  stored = unwrap_or_empty (BTreeMap.get (hash key) s.storage)

  pub get_writes :
      host_call C hash (get kp ks vp vs) caller
      ≡ write_vec C stored vp vs (record { data_mut = counted; memory = some mem })
  unfolding host_call read_vec kontracts_get
  get_writes = ground arith

  -- The get import, with a readable key and a read left, writes a stored value of less than 64
  -- bytes, or no bytes for an absent key, as its encoding to the start of a buffer that has room
  -- for it, from where it decodes; the memory keeps its length, the read is counted, and the
  -- storage stays.
  pub get_delivers :
      length stored ≤ vs
      → length stored < 64
      → vp + length stored < length mem
      → (mem' : Bytes) × (host_call C hash (get kp ks vp vs) caller
          ≡ (ok tt, record { data_mut = counted; memory = some mem' }))
        × (length mem' ≡ length mem)
        × (slice vp (length stored + 1) mem' ≡ some (C.encode_bytes stored))
        × (C.decode_bytes (C.encode_bytes stored) ≡ some (stored, []))
  get_delivers fits short room = (
    splice vp (C.encode_bytes stored) mem,
    get_writes ∙ ground (arith, write_vec_branches C S stored vp vs counted mem),
    length-splice_encoded C S stored vp mem short room,
    slice-splice_encoded C S stored vp mem short room,
    decode_bytes-encode_small C S stored vp mem short room,
  )

  -- The get import, with a readable key, a read left and a buffer exactly as long as a stored
  -- value of less than 64 bytes, returns and has written one byte past the end of the buffer.
  pub get_overruns :
      length stored ≡ vs
      → vs < 64
      → vp + vs < length mem
      → (mem' : Bytes) × (host_call C hash (get kp ks vp vs) caller
          ≡ (ok tt, record { data_mut = counted; memory = some mem' }))
        × (slice vp (vs + 1) mem' ≡ some (C.compact vs ++ stored))
  get_overruns exact short room =
      let short' : length stored < 64 = omega arith in
      let room' : vp + length stored < length mem = omega arith in
      let (mem', returned, _, at_start, _) = get_delivers (omega arith) short' room' in
      (
        mem',
        returned,
        subst (λ n. slice vp (n + 1) mem' ≡ some (C.compact n ++ stored)) exact
            (at_start ∙ ap some (S.encode_bytes_eq stored)),
      )

  -- The get import, with a readable key and a read left, panics the host on a stored value of 64
  -- bytes or more and a buffer that is large enough for it.
  pub get_panics :
      64 ≤ length stored
      → length stored ≤ vs
      → (host_call C hash (get kp ks vp vs) caller).0 ≡ panic
  get_panics long fits =
      ap (λ (x : Outcome Trap (Unit {0}) × Caller). x.0)
        (get_writes ∙ write_vec_branches C S stored vp vs counted mem)
      ∙ ground arith
