-- ===== src/Tests/Nodes.antt =====
-- The theorems on the runtime and on the node, at concrete configurations.
use kontracts.Prelude.{
  ℕ, ◌+◌, ◌*◌, ◌^◌, ◌≤◌, ◌<◌, ◌≡◌, inl, inr, refl, true, false, none, some, List, [], ◌∷◌, String,
  arith, ◌-◌, ◌/◌, ◌==◌, ◌&&◌, Bool, ◌++◌, ◌⊎◌,
}
use kontracts.Prelude.Int.{pos}
use kontracts.Prelude.Outcome.{Outcome, ok, err, panic}
use kontracts.Codec.{size}
use kontracts.Pallet.Calls.{or_default}
use kontracts.Pallet.Settlement.{settlement, settled}
use kontracts.Pallet.Calls.{upload_code}
use kontracts.Pallet.Weights.{DbWeight, upload_code_weight, update_code_weight}
use kontracts.Runtime.Blocks.{Limits, IsLimits, IsRocks, largest_extrinsic, largest_code_fits}
use kontracts.Node.Benchmarking.{
  Chain, FullClient, SignedPayload, UncheckedExtrinsic, period, create_benchmark_extrinsic,
}
use kontracts.Node.Benchmarking.Eras.{IsChain, accepts, benchmark_extrinsic_accepted}
use kontracts.Bytes.{Bytes}
use kontracts.Runtime.Sizes.{Reach-size}
use kontracts.Node.ChainSpec.{Keys, ChainSpec, GenesisConfig, local_testnet_config, issuance}
use kontracts.Node.Command.Remote.{run_refuses_remote}
use kontracts.Node.Service.{
  create_runner, other, Configuration, Parts, Action, ServiceError, Substrate,
}
use kontracts.Node.Service.Runs.{Stops}
use kontracts.Node.Genesis.{IsBuildable, load_spec_builds}
use kontracts.Node.Command.{Features, load_spec, run}
use kontracts.Node.Command.Works.{work, run_works}
use kontracts.Tests.Scale.{scale, scale-IsScale}
use kontracts.Tests.Chain.{chain, chain-IsConfig, signed_by}
use kontracts.Tests.Machine.{machine, blake2, one_entry, deployed}
use kontracts.Tests.Calls.{two_calls, deployed-IsValid}

abbrev rocks_db : DbWeight
rocks_db = record {
  writes = λ w. 100000000 * w;
  reads_writes = λ r w. 25000000 * r + 100000000 * w;
}

Reach-size_example :
    let t =
      (settled chain 1 2 one_entry
        (upload_code chain (signed_by 1) (5 ∷ []) deployed).1
        (settlement 0 6 (pos 6))).1 in
    size scale (or_default (t.storages 2)) < 2 ^ 31
Reach-size_example =
    Reach-size chain chain-IsConfig machine scale scale-IsScale blake2 2 refl deployed-IsValid
      two_calls

abbrev seeds : Keys
seeds = record {
  AuraId = String;
  GrandpaId = String;
  AccountId = String;
  aura_from_seed = λ s. s;
  grandpa_from_seed = λ s. s;
  account_from_seed = λ s. s;
}

abbrev no_file : String → Outcome String (ChainSpec seeds)
no_file path = err path

abbrev local_spec : Outcome String (ChainSpec seeds) → ChainSpec seeds → ChainSpec seeds
local_spec (ok spec) default = spec
local_spec (err e) default = default
local_spec panic default = default

abbrev empty_spec : ChainSpec seeds
empty_spec = record {
  name = "";
  id = "";
  chain_type = kontracts.Node.ChainSpec.local;
  genesis = record {
    code = [];
    balances = [];
    aura_authorities = [];
    grandpa_authorities = [];
    sudo_key = none;
  };
  boot_nodes = [];
}

abbrev spec : ChainSpec seeds
spec = local_spec (local_testnet_config seeds (some (0 ∷ []))) empty_spec

load_spec_builds_example :
    IsBuildable spec.genesis
    × ((root : String) × (others : List (String × ℕ)) × (spec.genesis.code ≡ 0 ∷ [])
        × (spec.genesis.sudo_key ≡ some root)
        × (spec.genesis.balances ≡ (root, 2 ^ 60) ∷ others)
        × (issuance spec.genesis.balances < 2 ^ 64))
unfolding load_spec local_testnet_config
load_spec_builds_example =
    load_spec_builds seeds (λ a b ha hb e. e) (0 ∷ []) no_file "" spec (inr (inl refl)) refl

abbrev validator : Configuration
validator = record {
  keystore_remote = none;
  telemetry_endpoints = none;
  is_authority = true;
  disable_grandpa = false;
  offchain_worker = true;
  force_authoring = false;
  node_name = "validator";
}

-- Parts that tell what they were made from.
abbrev parts : Parts
parts = record {
  Telemetry = List String;
  Client = ℕ;
  Backend = ℕ;
  Keystore = String;
  SelectChain = ℕ;
  Pool = Bool × ℕ;
  BlockImport = ℕ × ℕ;
  GrandpaLink = ℕ;
  ImportQueue = (ℕ × ℕ) × ℕ;
  Hash = ℕ;
  ProtocolName = ℕ;
  WarpSync = ℕ × ℕ;
  Network = ℕ × ℕ;
  Proposer = ℕ;
}

abbrev working : Substrate parts
working = record {
  succeeds = λ _. true;
  new_telemetry = λ endpoints. endpoints;
  full_parts = λ telemetry. (1, 2, "keystore");
  longest_chain = λ backend. backend + 10;
  basic_pool = λ authority client. (authority, client);
  grandpa = λ client chain telemetry. ((client, chain), 3);
  aura_slot_duration = λ client. 6000;
  aura_queue = λ import client duration telemetry. (import, duration);
  block_hash = λ client. some (client + 70);
  protocol_standard_name = λ hash. hash;
  network_provider = λ backend link. (backend, link);
  network = λ client pool queue warp_sync. warp_sync;
  proposer_factory = λ client pool telemetry. client;
}

abbrev plain : Features
plain = record { runtime_benchmarks = false; try_runtime = false }

run_works_example :
    (run working plain validator none [] ≡ (ok tt, work working plain validator 71 none))
    ⊎ ((before : List (Action parts)) × (rest : List (Action parts)) × (e : ServiceError parts)
        × (before ++ rest ≡ work working plain validator 71 none)
        × (run working plain validator none [] ≡ (err e, before))
        × Stops working validator e rest)
run_works_example = run_works working plain validator 71 none refl refl

run_refuses_remote_example :
    run working plain (record validator { keystore_remote = some "http://keystore" }) none []
    ≡ (err (other "Remote Keystores are not supported."), create_runner ∷ [])
run_refuses_remote_example =
    run_refuses_remote working plain (record validator { keystore_remote = some "http://keystore" })
      none "http://keystore" refl refl refl

rocks_db-IsRocks : IsRocks rocks_db
rocks_db-IsRocks = record { writes = λ n. refl; reads_writes = λ r w. refl }

-- A tenth of the block for its initialization, and the base weight of an extrinsic.
abbrev frame_limits : Limits
frame_limits = record {
  weight_ref_time_per_second = 1000000000000;
  with_sensible_defaults = λ weight ratio. weight * ratio / 100 - weight / 10 - 125000000;
  max_with_normal_ratio = λ bytes ratio. bytes * ratio / 100;
}

frame_limits-IsLimits : IsLimits frame_limits
frame_limits-IsLimits = record {
  second = refl;
  weight_left = λ weight ratio h large. omega arith;
  length_left = λ bytes ratio h. refl;
}

largest_code_fits_example :
    (upload_code_weight rocks_db 1000000 ≤ largest_extrinsic frame_limits)
    × (update_code_weight rocks_db 1000000 ≤ largest_extrinsic frame_limits)
    × (1000000 + 200 ≤ 3932160)
largest_code_fits_example =
    largest_code_fits frame_limits frame_limits-IsLimits rocks_db rocks_db-IsRocks 1000000 200
      (omega arith) (omega arith)

-- Eras by their length and the block that they are made for; a signature is what is signed.
abbrev plain_chain : Chain
plain_chain = record {
  Hash = ℕ;
  RuntimeCall = Bytes;
  Era = ℕ × ℕ;
  mortal = λ period current. (period, current);
  Pair = ℕ;
  Public = ℕ;
  Signature = ℕ × Bytes;
  public = λ p. p;
  bob = 2;
  sign = λ p m. (p, m);
  remark = λ text. 0 ∷ text;
  transfer_keep_alive = λ dest value. 1 ∷ dest ∷ value ∷ [];
}

abbrev same_bytes : Bytes → Bytes → Bool
same_bytes [] [] = true
same_bytes (x ∷ xs) (y ∷ ys) = x == y && same_bytes xs ys
same_bytes _ _ = false

same_bytes_refl : (v : Bytes) → same_bytes v v ≡ true
same_bytes_refl [] = refl
same_bytes_refl (x ∷ xs) = ground (arith, same_bytes_refl xs)

plain_chain-IsChain : IsChain plain_chain
plain_chain-IsChain = record {
  verify = λ a m s. a == s.0 && same_bytes m s.1;
  verify-sign = λ p m. ground (arith, same_bytes_refl m);
  birth = λ era now. era.1;
  death = λ era now. era.1 + era.0;
  birth-mortal = λ k n m low high later soon. refl;
  death-mortal = λ k n m low high later soon. refl;
}

abbrev client : FullClient plain_chain
client = record { block_hash = λ n. some (some (n + 7)); best_hash = 17; best_number = 10 }

abbrev encoded : SignedPayload plain_chain → Bytes
encoded p = p.extra.nonce ∷ p.additional.spec ∷ p.additional.genesis ∷ p.additional.birth ∷ p.call

benchmark_extrinsic_accepted_example :
    (x : UncheckedExtrinsic plain_chain) × (create_benchmark_extrinsic plain_chain encoded client 2
        (0 ∷ [])
        3
      ≡ ok x)
    × (accepts plain_chain plain_chain-IsChain encoded client 2000 x ≡ true)
unfolding period
benchmark_extrinsic_accepted_example =
    benchmark_extrinsic_accepted plain_chain plain_chain-IsChain encoded client 2 (0 ∷ []) 3 2000
      refl refl (omega arith) (omega arith)
