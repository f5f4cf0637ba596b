-- ===== src/Node/Benchmarking/Eras.antt =====
-- The benchmark's extrinsics are valid on the chain that they are built for.
use kontracts.Prelude.{
  ℕ, zero, suc, ◌+◌, ◌*◌, ◌^◌, ◌≤◌, ◌<◌, ◌≡◌, subst, Bool, true, false, Option, some, Bool-cases,
  inl, inr, leb, ltb, ◌&&◌, arith,
}
use kontracts.Prelude.Outcome.{ok}
use kontracts.Bytes.{Bytes}
use kontracts.Runtime.{block_hash_count, version}
use kontracts.Node.Benchmarking.{
  next_power_from, checked_next_power_of_two, period, Chain, FullClient, SignedExtra, SignedPayload,
  UncheckedExtrinsic, create_benchmark_extrinsic,
}

next_power_from_lem :
    (left j n : ℕ)
    → 2 ^ j < 2 * n
    → 2 * n ≤ 2 ^ (j + left)
    → (k : ℕ) × (next_power_from left (2 ^ j) n ≡ some (2 ^ k)) × (n ≤ 2 ^ k) × (2 ^ k < 2 * n)
unfolding next_power_from
next_power_from_lem zero j n low high =
    let same : j + 0 ≡ j = omega arith in
    let high' : 2 * n ≤ 2 ^ j = subst (λ e. 2 * n ≤ 2 ^ e) same high in absurd (omega arith)
next_power_from_lem (suc left) j n low high = elim (Bool-cases (leb n (2 ^ j))) [
  | inl enough ↦ (j, ground arith, ground arith, low)
  | inr short ↦
      let same : j + suc left ≡ suc j + left = omega arith in
      let high' : 2 * n ≤ 2 ^ (suc j + left) = subst (λ e. 2 * n ≤ 2 ^ e) same high in
      let double : 2 * 2 ^ j ≡ 2 ^ suc j = omega arith in
      let (k, found, above, below) = next_power_from_lem left (suc j) n (ground arith) high' in
      (k, rw (short, double) found, above, below)
]

-- For 2 to 2^31 block hashes, the period of an era is the largest power of two below their number.
pub period_lem :
    (hashes : ℕ)
    → 2 ≤ hashes
    → hashes ≤ 2 ^ 31
    → (k : ℕ) × (period hashes ≡ 2 ^ k) × (period hashes < hashes) × (hashes ≤ 2 * period hashes)
unfolding period
period_lem hashes low high =
    let (k, found, above, below) = next_power_from_lem 32 0 hashes (omega arith) (omega arith) in
    halves k found above below
  where
    halves :
        (k : ℕ)
        → checked_next_power_of_two hashes ≡ some (2 ^ k)
        → hashes ≤ 2 ^ k
        → 2 ^ k < 2 * hashes
        → (i : ℕ) × (period hashes ≡ 2 ^ i)
          × (period hashes < hashes)
          × (hashes ≤ 2 * period hashes)
    halves zero found above below = absurd (omega arith)
    halves (suc i) found above below =
        (i, rw found (omega arith), rw found (omega arith), rw found (omega arith))

-- What the chain holds of eras and signatures: a signature verifies under its pair's public key,
-- and an era of a power of two between 4 and 4096 blocks begins at the block that it was made for
-- and ends after its length.
pub record IsChain (N : Chain) : Type 0 where
  pub verify : N.Public → Bytes → N.Signature → Bool
  pub verify-sign : (p : N.Pair) (m : Bytes) → verify (N.public p) m (N.sign p m) ≡ true
  pub birth : N.Era → ℕ → ℕ
  pub death : N.Era → ℕ → ℕ
  pub birth-mortal :
      (k n m : ℕ) → 2 ≤ k → k ≤ 12 → n ≤ m → m < n + 2 ^ k → birth (N.mortal (2 ^ k) n) m ≡ n
  pub death-mortal :
      (k n m : ℕ)
      → 2 ≤ k
      → k ≤ 12
      → n ≤ m
      → m < n + 2 ^ k
      → death (N.mortal (2 ^ k) n) m ≡ n + 2 ^ k

module _ (N : Chain) (L : IsChain N) (using_encoded : SignedPayload N → Bytes)
    (client : FullClient N) where
  abbrev payload : N.RuntimeCall → SignedExtra N → N.Hash → N.Hash → SignedPayload N
  payload call extra genesis birth = record {
    call = call;
    extra = extra;
    additional = record {
      spec = version.spec_version;
      transaction = version.transaction_version;
      genesis = genesis;
      birth = birth;
    };
  }

  abbrev signed_for : UncheckedExtrinsic N → Option (Option N.Hash) → Option (Option N.Hash) → Bool
  signed_for x (some (some genesis)) (some (some birth)) =
      L.verify x.address (using_encoded (payload x.function x.extra genesis birth)) x.signature
  signed_for x _ _ = false

  -- The chain's check of a signature at some block: on what it knows itself, the hash of the block
  -- at which the era begins included, which it must still keep.
  abbrev pub accepts : ℕ → UncheckedExtrinsic N → Bool
  accepts now x =
      let begins = L.birth x.extra.era now in
      ltb now (L.death x.extra.era now)
      && ltb now (begins + block_hash_count)
      && signed_for x (client.block_hash 0) (client.block_hash begins)

  -- Where the client holds the hashes of the genesis and of the best block,
  -- create_benchmark_extrinsic returns an extrinsic that the chain accepts at the best block and
  -- until its era has passed: the era has not ended, its first block is still known, and the
  -- signature verifies on what the chain itself knows.
  pub benchmark_extrinsic_accepted :
      (sender : N.Pair) (call : N.RuntimeCall) (nonce now : ℕ) {genesis : N.Hash}
      → client.block_hash 0 ≡ some (some genesis)
      → client.block_hash client.best_number ≡ some (some client.best_hash)
      → client.best_number ≤ now
      → now < client.best_number + period block_hash_count
      → (x : UncheckedExtrinsic N) × (create_benchmark_extrinsic N using_encoded client sender call
            nonce
          ≡ ok x)
        × (accepts now x ≡ true)
  unfolding create_benchmark_extrinsic period
  benchmark_extrinsic_accepted sender call nonce now {genesis} first best later soon =
      let extra : SignedExtra N = record {
        era = N.mortal (period block_hash_count) client.best_number;
        nonce = nonce;
        tip = 0;
      } in
      let message = using_encoded (payload call extra genesis client.best_hash) in
      let x : UncheckedExtrinsic N = record {
        function = call;
        address = N.public sender;
        signature = N.sign sender message;
        extra = extra;
      } in
      let begins : L.birth extra.era now ≡ client.best_number =
        L.birth-mortal 11 client.best_number now (omega arith) (omega arith) later soon in
      let ends : L.death extra.era now ≡ client.best_number + 2048 =
        L.death-mortal 11 client.best_number now (omega arith) (omega arith) later soon in
      (
        x,
        ground (arith, first),
        rw (ends, begins, first, best) (ground (arith, L.verify-sign sender message)),
      )
