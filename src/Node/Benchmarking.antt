-- ===== src/Node/Benchmarking.antt =====
-- The extrinsics that the node's benchmarks submit (kontracs/node/src/benchmarking.rs).
pub mod Eras
use kontracts.Prelude.{ℕ, zero, suc, ◌*◌, ◌/◌, Option, none, some, [], String, leb, if◌then◌else◌}
use kontracts.Prelude.Outcome.{Outcome, ok, err, panic, ◌>>=◌, map_err}
use kontracts.Bytes.{Bytes}
use kontracts.Runtime.{block_hash_count, version}

-- `u32::checked_next_power_of_two`: the candidates 1, 2, 4, … that are left.
next_power_from : ℕ → ℕ → ℕ → Option ℕ
next_power_from zero p n = none
next_power_from (suc left) p n =
    let larger = next_power_from left (2 * p) n in if leb n p then some p else larger

abbrev checked_next_power_of_two : ℕ → Option ℕ
checked_next_power_of_two n = next_power_from 32 1 n

abbrev halved_or_2 : Option ℕ → ℕ
halved_or_2 none = 2
halved_or_2 (some c) = c / 2

-- The `period` of an extrinsic's era, from the number of block hashes that the chain keeps.
unfoldable pub period : ℕ → ℕ
unfolding next_power_from
period hashes = halved_or_2 (checked_next_power_of_two hashes)

-- Eras, key pairs, calls and the SCALE encoding of what is signed, which the repository does not
-- hold.
pub record Chain : Type 1 where
  pub Hash : Type 0
  pub RuntimeCall : Type 0
  pub Era : Type 0
  pub mortal : ℕ → ℕ → Era
  pub Pair : Type 0
  pub Public : Type 0
  pub Signature : Type 0
  pub public : Pair → Public
  pub bob : Pair
  pub sign : Pair → Bytes → Signature
  pub remark : Bytes → RuntimeCall
  pub transfer_keep_alive : Public → ℕ → RuntimeCall

-- The fields of `SignedExtra` that hold something: the era, the nonce and the tip.
pub record SignedExtra (N : Chain) : Type 0 where
  pub era : N.Era
  pub nonce : ℕ
  pub tip : ℕ

-- What is signed besides: the versions of the runtime, and the hashes of the genesis block and of
-- the block at which the era begins.
pub record Additional (N : Chain) : Type 0 where
  pub spec : ℕ
  pub transaction : ℕ
  pub genesis : N.Hash
  pub birth : N.Hash

pub record SignedPayload (N : Chain) : Type 0 where
  pub call : N.RuntimeCall
  pub extra : SignedExtra N
  pub additional : Additional N

pub record UncheckedExtrinsic (N : Chain) : Type 0 where
  pub function : N.RuntimeCall
  pub address : N.Public
  pub signature : N.Signature
  pub extra : SignedExtra N

-- What `FullClient` tells of the chain. `block_hash` fails, or has no hash.
pub record FullClient (N : Chain) : Type 0 where
  pub block_hash : ℕ → Option (Option N.Hash)
  pub best_hash : N.Hash
  pub best_number : ℕ

-- `ok().flatten().expect(…)`
abbrev expect_flatten : {A : Type 0} → Option (Option A) → Outcome String A
expect_flatten none = panic
expect_flatten (some none) = panic
expect_flatten (some (some a)) = ok a

module _ (N : Chain) (using_encoded : SignedPayload N → Bytes) where
  -- `best_block` is a `u32`, so that its conversion to `u64` keeps it.
  unfoldable pub create_benchmark_extrinsic :
      FullClient N → N.Pair → N.RuntimeCall → ℕ → Outcome String (UncheckedExtrinsic N)
  create_benchmark_extrinsic client sender call nonce = do
    genesis_hash ← expect_flatten (client.block_hash 0)
    let extra : SignedExtra N = record {
      era = N.mortal (period block_hash_count) client.best_number;
      nonce = nonce;
      tip = 0;
    }
    let raw_payload : SignedPayload N = record {
      call = call;
      extra = extra;
      additional = record {
        spec = version.spec_version;
        transaction = version.transaction_version;
        genesis = genesis_hash;
        birth = client.best_hash;
      };
    }
    ok (record {
      function = call;
      address = N.public sender;
      signature = N.sign sender (using_encoded raw_payload);
      extra = extra;
    })

  -- `build` of `RemarkBuilder` and of `TransferKeepAliveBuilder`.
  unfoldable pub remark_build : FullClient N → ℕ → Outcome String (UncheckedExtrinsic N)
  unfolding create_benchmark_extrinsic
  remark_build client nonce = create_benchmark_extrinsic client N.bob (N.remark []) nonce

  unfoldable pub transfer_keep_alive_build :
      FullClient N → N.Public → ℕ → ℕ → Outcome String (UncheckedExtrinsic N)
  unfolding create_benchmark_extrinsic
  transfer_keep_alive_build client dest value nonce =
      create_benchmark_extrinsic client N.bob (N.transfer_keep_alive dest value) nonce

-- The data of a block's inherents: the time 0 of the provider of timestamps, which may fail.
-- `format` makes "creating inherent data: {:?}" of its error.
module _ {InherentData Failure : Type 0} (new : InherentData) (format : Failure → String)
    (provide_timestamp : ℕ → InherentData → Outcome Failure InherentData) where
  abbrev pub inherent_benchmark_data : Outcome String InherentData
  inherent_benchmark_data = map_err format (provide_timestamp 0 new)
