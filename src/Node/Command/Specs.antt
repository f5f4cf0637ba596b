-- ===== src/Node/Command/Specs.antt =====
-- The specifications that are loaded under the built-in names.
use kontracts.Prelude.{◌≡◌, ℕ, ◌^◌, ◌<◌, ◌⊎◌, subst, some, List, ◌∷◌, String, inl, inr}
use kontracts.Prelude.Outcome.{Outcome, ok}
use kontracts.Bytes.{Bytes}
use kontracts.Node.ChainSpec.{
  Keys, ChainSpec, development_config, local_testnet_config, issuance, configs_fund_root,
}
use kontracts.Node.Command.{load_spec}

-- A built-in name stands for one of the two configurations.
pub load_spec-named :
    (K : Keys) (wasm : Bytes) (from_json_file : String → Outcome String (ChainSpec K)) (id : String)
    (spec : ChainSpec K)
    → (id ≡ "dev") ⊎ (id ≡ "") ⊎ (id ≡ "local")
    → load_spec K (some wasm) from_json_file id ≡ ok spec
    → (development_config K (some wasm) ≡ ok spec) ⊎ (local_testnet_config K (some wasm) ≡ ok spec)
unfolding load_spec
load_spec-named K wasm f id spec (inl e) h =
    inl (subst (λ i. load_spec K (some wasm) f i ≡ ok spec) e h)
load_spec-named K wasm f id spec (inr (inl e)) h =
    inr (subst (λ i. load_spec K (some wasm) f i ≡ ok spec) e h)
load_spec-named K wasm f id spec (inr (inr e)) h =
    inr (subst (λ i. load_spec K (some wasm) f i ≡ ok spec) e h)

-- Such a specification starts from the node's binary and gives root to an account that it endows.
pub load_spec_funds_root :
    (K : Keys) (wasm : Bytes) (from_json_file : String → Outcome String (ChainSpec K)) (id : String)
    (spec : ChainSpec K)
    → (id ≡ "dev") ⊎ (id ≡ "") ⊎ (id ≡ "local")
    → load_spec K (some wasm) from_json_file id ≡ ok spec
    → (root : K.AccountId) × (others : List (K.AccountId × ℕ)) × (spec.genesis.code ≡ wasm)
      × (spec.genesis.sudo_key ≡ some root)
      × (spec.genesis.balances ≡ (root, 2 ^ 60) ∷ others)
      × (issuance spec.genesis.balances < 2 ^ 64)
load_spec_funds_root K wasm f id spec named h =
    configs_fund_root K wasm spec (load_spec-named K wasm f id spec named h)
