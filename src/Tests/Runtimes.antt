-- ===== src/Tests/Runtimes.antt =====
-- The theorems on the runtime's time and fees, with a small FRAME.
use kontracts.Prelude.{◌+◌, ◌*◌, ◌/◌, ◌≡◌, refl, none, [], ◌∷◌, String, arith, leb}
use kontracts.Prelude.Int.{pos}
use kontracts.Pallet.Dispatch.{KontractsCall}
use kontracts.Pallet.Weights.{DbWeight}
use kontracts.Runtime.{slot_duration}
use kontracts.Runtime.Blocks.{IsRocks}
use kontracts.Runtime.Apis.{Frame, api_slot_duration}
use kontracts.Runtime.Slots.{Clock, IsClock, AllAccepted, slots_accepted}
use kontracts.Runtime.Fees.{FeeRules, IsFeeRules, Afford, fees, genesis_pays_fees}
use kontracts.Node.ChainSpec.{Keys, testnet_genesis}
use kontracts.Tests.Chain.{chain}

abbrev unit_frame : Frame
unit_frame = record {
  State = Unit {0};
  Header = Unit {0};
  Block = Unit {0};
  Extrinsic = Unit {0};
  RuntimeCall = Unit {0};
  AccountId = Unit {0};
  AuraId = Unit {0};
  GrandpaId = Unit {0};
  KeyTypeId = Unit {0};
  Hash = Unit {0};
  InherentData = Unit {0};
  CheckInherentsResult = Unit {0};
  ApplyExtrinsicResult = Unit {0};
  TransactionSource = Unit {0};
  TransactionValidity = Unit {0};
  EquivocationProof = Unit {0};
  OpaqueKeyOwnershipProof = Unit {0};
  RuntimeDispatchInfo = Unit {0};
  FeeDetails = Unit {0};
  execute_block = λ block s. s;
  initialize_block = λ header s. s;
  apply_extrinsic = λ extrinsic s. (tt, s);
  finalize_block = λ s. (tt, s);
  validate_transaction = λ source tx block_hash s. (tt, s);
  offchain_worker = λ header s. s;
  create_extrinsics = λ inherents s. tt ∷ [];
  check_extrinsics = λ inherents block s. tt;
  metadata = [];
  generate = λ seed. 1 ∷ [];
  decode_into_raw_public_keys = λ encoded. none;
  aura_slot_duration = λ P. P.minimum_period * 2;
  aura_authorities = λ s. tt ∷ [];
  grandpa_authorities = λ s. (tt, 1) ∷ [];
  current_set_id = λ s. 0;
  account_nonce = λ account s. 0;
  query_info = λ uxt len s. tt;
  query_fee_details = λ uxt len s. tt;
  query_call_info = λ call len s. tt;
  query_call_fee_details = λ call len s. tt;
}

abbrev clock : Clock
clock = record {
  from_timestamp_and_slot_duration = λ now duration. now / duration;
  accepts = λ P last now. leb (last + P.minimum_period) now;
}

clock-IsClock : IsClock unit_frame clock
clock-IsClock = record {
  aura_slot_duration = λ P. refl;
  slot = λ now duration. refl;
  accepts_later = λ P last now h. ground arith;
}

-- Slots 2, 3 and 5.
slots_accepted_example :
    (api_slot_duration unit_frame ≡ slot_duration)
    × AllAccepted unit_frame clock 15000 (18000 ∷ 31234 ∷ [])
slots_accepted_example =
    slots_accepted unit_frame clock clock-IsClock 15000 (18000 ∷ 31234 ∷ []) (omega arith)
      ((omega arith), (omega arith), ((omega arith), (omega arith), tt))

abbrev rocks : DbWeight
rocks = record { writes = λ w. 100000000 * w; reads_writes = λ r w. 25000000 * r + 100000000 * w }

rocks-IsRocks : IsRocks rocks
rocks-IsRocks = record { writes = λ n. refl; reads_writes = λ r w. refl }

abbrev rules : FeeRules
rules = record {
  extrinsic_base_weight = 113638000;
  compute_fee = λ P len weight.
      P.weight_to_fee 113638000 + P.length_to_fee len + P.fee_multiplier * P.weight_to_fee weight;
}

rules-IsFeeRules : IsFeeRules rules
rules-IsFeeRules = record { base = omega arith; compute_fee_le = λ P len weight. grind arith }

abbrev keys : Keys
keys = record {
  AuraId = String;
  GrandpaId = String;
  AccountId = String;
  aura_from_seed = λ s. s;
  grandpa_from_seed = λ s. s;
  account_from_seed = λ s. s;
}

genesis_pays_fees_example :
    Afford
      (fees chain rocks rules (
        (KontractsCall.upload_code (5 ∷ []), 120)
        ∷ (KontractsCall.execute_code 6 (pos 8) 1000 2 2, 110)
        ∷ []))
      (testnet_genesis keys [] [] "Alice" ("Alice" ∷ "Bob" ∷ [])).balances
genesis_pays_fees_example =
    genesis_pays_fees chain rocks rules rules-IsFeeRules rocks-IsRocks keys [] [] "Alice"
      ("Alice" ∷ "Bob" ∷ [])
      ((KontractsCall.upload_code (5 ∷ []), 120)
        ∷ (KontractsCall.execute_code 6 (pos 8) 1000 2 2, 110)
        ∷ [])
      ((omega arith, omega arith), (((omega arith, omega arith), omega arith), tt)) (omega arith)
