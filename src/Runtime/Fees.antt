-- ===== src/Runtime/Fees.antt =====
-- What the pallet's calls cost in fees on the chain: their weights and lengths under the runtime's
-- configuration of pallet_transaction_payment, and the endowments of the genesis.
use kontracts.Prelude.{ℕ, ◌+◌, ◌*◌, ◌^◌, ◌≤◌, ◌<◌, List, [], ◌∷◌, map, length, arith}
use kontracts.Bytes.{Bytes}
use kontracts.Pallet.Config.{Config}
use kontracts.Pallet.Dispatch.{KontractsCall}
use kontracts.Pallet.Weights.{
  DbWeight, upload_code_weight, execute_code_weight, delete_code_weight, update_code_weight,
}
use kontracts.Runtime.{max_code_size, existential_deposit}
use kontracts.Runtime.Blocks.{IsRocks, max_block_length}
use kontracts.Runtime.Config.{TransactionPaymentConfig, transaction_payment_config}
use kontracts.Node.ChainSpec.{Keys, testnet_genesis}

-- Substrate's weight of an empty extrinsic, and the fee of one without a tip, by its length and
-- its weight.
pub record FeeRules : Type 0 where
  pub extrinsic_base_weight : ℕ
  pub compute_fee : TransactionPaymentConfig → ℕ → ℕ → ℕ

-- An empty extrinsic takes a millisecond at most. A fee is the sum of the prices of the empty
-- extrinsic, of the length, and of the weight, the last by the multiplier; it is a `u128`, which
-- the sum does not leave upwards.
pub record IsFeeRules (X : FeeRules) : Type 0 where
  pub base : X.extrinsic_base_weight ≤ 1000000000
  pub compute_fee_le :
      (P : TransactionPaymentConfig) (len weight : ℕ)
      → X.compute_fee P len weight
        ≤ P.weight_to_fee X.extrinsic_base_weight
          + P.length_to_fee len
          + P.fee_multiplier * P.weight_to_fee weight

-- Every balance pays the fee and leaves an existential deposit.
abbrev pub Afford : {A : Type 0} → ℕ → List (A × ℕ) → Type 0
Afford fee [] = Unit {0}
Afford fee ((_, balance) ∷ l) = (fee + existential_deposit ≤ balance) × Afford fee l

endowed-Afford :
    {A : Type 0} (fee : ℕ) (accounts : List A)
    → fee + existential_deposit ≤ 2 ^ 60
    → Afford fee (map (λ k. (k, 2 ^ 60)) accounts)
endowed-Afford fee [] h = tt
endowed-Afford fee (a ∷ accounts) h = (h, endowed-Afford fee accounts h)

module _ (T : Config) (D : DbWeight) where
  -- The weight that a call is annotated with.
  abbrev pub call_weight : KontractsCall T → ℕ
  call_weight (KontractsCall.upload_code code) = upload_code_weight D (length code)
  call_weight (KontractsCall.execute_code _ _ fuel reads writes) =
      execute_code_weight D fuel reads writes
  call_weight (KontractsCall.delete_code _) = delete_code_weight
  call_weight (KontractsCall.update_code _ code) = update_code_weight D (length code)

  -- A code within its bound, a `u32` of fuel, and at most 8000 accesses.
  abbrev pub IsModest : KontractsCall T → Type 0
  IsModest (KontractsCall.upload_code code) = length code ≤ max_code_size
  IsModest (KontractsCall.execute_code _ _ fuel reads writes) =
      (fuel < 2 ^ 32) × (reads + writes ≤ 8000)
  IsModest (KontractsCall.delete_code _) = Unit {0}
  IsModest (KontractsCall.update_code _ code) = length code ≤ max_code_size

  -- Calls with the lengths of their extrinsics, none of them longer than a block.
  abbrev pub AreModest : List (KontractsCall T × ℕ) → Type 0
  AreModest [] = Unit {0}
  AreModest ((c, len) ∷ cs) = (IsModest c × (len ≤ max_block_length)) × AreModest cs

  module _ (X : FeeRules) where
    abbrev pub fees : List (KontractsCall T × ℕ) → ℕ
    fees [] = 0
    fees ((c, len) ∷ cs) = X.compute_fee transaction_payment_config len (call_weight c) + fees cs

    module _ (F : IsFeeRules X) (R : IsRocks D) where
      call_weight-le : (c : KontractsCall T) → IsModest c → call_weight c ≤ 2 ^ 40 + 2 ^ 39
      unfolding execute_code_weight
      call_weight-le (KontractsCall.upload_code code) h = omega (arith, R.writes 1)
      call_weight-le (KontractsCall.execute_code _ _ fuel reads writes) (h, k) =
          omega (arith, R.reads_writes reads writes)
      call_weight-le (KontractsCall.delete_code _) h = omega arith
      call_weight-le (KontractsCall.update_code _ code) h = omega (arith, R.writes 1)

      fees-le : (cs : List (KontractsCall T × ℕ)) → AreModest cs → fees cs ≤ 2 ^ 41 * length cs
      fees-le [] h = omega arith
      fees-le ((c, len) ∷ cs) ((modest, short), h) = omega (
        arith,
        call_weight-le c modest,
        F.base,
        F.compute_fee_le transaction_payment_config len (call_weight c),
        fees-le cs h,
      )

      -- Every account that a genesis of the chain specifications endows can pay the fees of up
      -- to 2^18 calls of the kontracts pallet, each with a code within MaxCodeSize, or a u32 of
      -- fuel and 8000 accesses at most, and no longer than a block, and keeps the existential
      -- deposit, where FRAME takes no more than the prices of the empty extrinsic, of the length
      -- and of the weight.
      pub genesis_pays_fees :
          (K : Keys) (wasm : Bytes) (authorities : List (K.AuraId × K.GrandpaId))
          (root : K.AccountId) (accounts : List K.AccountId) (cs : List (KontractsCall T × ℕ))
          → AreModest cs
          → length cs ≤ 2 ^ 18
          → Afford (fees cs) (testnet_genesis K wasm authorities root accounts).balances
      unfolding testnet_genesis
      genesis_pays_fees K wasm authorities root accounts cs modest few =
          endowed-Afford (fees cs) accounts (omega (arith, fees-le cs modest))
