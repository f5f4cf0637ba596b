-- ===== src/Node/ChainSpec.antt =====
-- kontracs/node/src/chain_spec.rs: the genesis of the development and of the local chain.
use kontracts.Prelude.{
  ℕ, suc, ◌+◌, ◌*◌, ◌^◌, ◌≡◌, ◌<◌, ◌⊎◌, inl, inr, refl, ap, Option, none, some, List, [], ◌∷◌, map,
  length, String, arith,
}
use kontracts.Prelude.Outcome.{Outcome, ok, err}
use kontracts.Bytes.{Bytes}

-- Keys, and their derivation from a seed "//…", which sp_core provides.
pub record Keys : Type 1 where
  pub AuraId : Type 0
  pub GrandpaId : Type 0
  pub AccountId : Type 0
  pub aura_from_seed : String → AuraId
  pub grandpa_from_seed : String → GrandpaId
  pub account_from_seed : String → AccountId

-- What `GenesisConfig` sets; the transaction payment keeps its default.
pub record GenesisConfig (K : Keys) : Type 0 where
  pub code : Bytes
  pub balances : List (K.AccountId × ℕ)
  pub aura_authorities : List K.AuraId
  pub grandpa_authorities : List (K.GrandpaId × ℕ)
  pub sudo_key : Option K.AccountId

pub data ChainType : Type 0 where
  development local : ChainType

-- What `from_genesis` is given; telemetry, protocol, properties and extensions are `None`.
pub record ChainSpec (K : Keys) : Type 0 where
  pub name : String
  pub id : String
  pub chain_type : ChainType
  pub genesis : GenesisConfig K
  pub boot_nodes : List String

module _ (K : Keys) where
  abbrev pub authority_keys_from_seed : String → K.AuraId × K.GrandpaId
  authority_keys_from_seed s = (K.aura_from_seed s, K.grandpa_from_seed s)

  unfoldable pub testnet_genesis :
      Bytes → List (K.AuraId × K.GrandpaId) → K.AccountId → List K.AccountId → GenesisConfig K
  testnet_genesis wasm_binary initial_authorities root_key endowed_accounts = record {
    code = wasm_binary;
    balances = map (λ k. (k, 2 ^ 60)) endowed_accounts;
    aura_authorities = map (λ (x : K.AuraId × K.GrandpaId). x.0) initial_authorities;
    grandpa_authorities = map (λ (x : K.AuraId × K.GrandpaId). (x.1, 1)) initial_authorities;
    sudo_key = some root_key;
  }

  abbrev pub development_accounts : List String
  development_accounts = "Alice" ∷ "Bob" ∷ "Alice//stash" ∷ "Bob//stash" ∷ []

  -- `WASM_BINARY`, which the build makes, is a parameter.
  unfoldable pub development_config : Option Bytes → Outcome String (ChainSpec K)
  unfolding testnet_genesis
  development_config none = err "Development wasm not available"
  development_config (some wasm_binary) = ok (record {
    name = "Development";
    id = "dev";
    chain_type = development;
    genesis =
        testnet_genesis wasm_binary (authority_keys_from_seed "Alice" ∷ [])
          (K.account_from_seed "Alice") (map K.account_from_seed development_accounts);
    boot_nodes = [];
  })

  abbrev pub local_accounts : List String
  local_accounts =
      "Alice" ∷ "Bob" ∷ "Charlie" ∷ "Dave" ∷ "Eve" ∷ "Ferdie" ∷ "Alice//stash" ∷ "Bob//stash"
      ∷ "Charlie//stash" ∷ "Dave//stash" ∷ "Eve//stash" ∷ "Ferdie//stash" ∷ []

  unfoldable pub local_testnet_config : Option Bytes → Outcome String (ChainSpec K)
  unfolding testnet_genesis
  local_testnet_config none = err "Development wasm not available"
  local_testnet_config (some wasm_binary) = ok (record {
    name = "Local Testnet";
    id = "local_testnet";
    chain_type = local;
    genesis =
        testnet_genesis wasm_binary
          (authority_keys_from_seed "Alice" ∷ authority_keys_from_seed "Bob" ∷ [])
          (K.account_from_seed "Alice") (map K.account_from_seed local_accounts);
    boot_nodes = [];
  })

-- All the balances of a genesis together.
abbrev pub issuance : {A : Type 0} → List (A × ℕ) → ℕ
issuance [] = 0
issuance ((_, n) ∷ l) = n + issuance l

module _ (K : Keys) where
  issuance-endowed :
      (l : List K.AccountId)
      → issuance (map (λ (k : K.AccountId). (k, 2 ^ 60)) l) ≡ 2 ^ 60 * length l
  issuance-endowed [] = omega arith
  issuance-endowed (k ∷ l) = omega (arith, issuance-endowed l)

  length-map : {A B : Type 0} (f : A → B) (l : List A) → length (map f l) ≡ length l
  length-map f [] = refl
  length-map f (x ∷ l) = ap suc (length-map f l)

  -- A genesis has the given code and root key; it endows each account with 2 ^ 60, and has as many
  -- block authors and as many voters as there are initial authorities.
  pub testnet_genesis_lem :
      (wasm : Bytes) (authorities : List (K.AuraId × K.GrandpaId)) (root_key : K.AccountId)
      (accounts : List K.AccountId)
      → let g = testnet_genesis K wasm authorities root_key accounts in
        (g.code ≡ wasm)
        × (g.sudo_key ≡ some root_key)
        × (issuance g.balances ≡ 2 ^ 60 * length accounts)
        × (length g.aura_authorities ≡ length authorities)
        × (length g.grandpa_authorities ≡ length authorities)
  unfolding testnet_genesis
  testnet_genesis_lem wasm authorities root_key accounts = (
    refl,
    refl,
    issuance-endowed accounts,
    length-map (λ (x : K.AuraId × K.GrandpaId). x.0) authorities,
    length-map {B = K.GrandpaId × ℕ} (λ (x : K.AuraId × K.GrandpaId). (x.1, 1)) authorities,
  )

  unwrapped : {a b : ChainSpec K} → ◌≡◌ {A = Outcome String (ChainSpec K)} (ok a) (ok b) → a ≡ b
  unwrapped h = cc

  -- Both configurations, where there is a runtime to start from, give root to an account that they
  -- endow, and all their balances together are far below the limit of a `u128`.
  pub configs_fund_root :
      (wasm : Bytes) (spec : ChainSpec K)
      → (development_config K (some wasm) ≡ ok spec)
        ⊎ (local_testnet_config K (some wasm) ≡ ok spec)
      → (root : K.AccountId) × (others : List (K.AccountId × ℕ)) × (spec.genesis.code ≡ wasm)
        × (spec.genesis.sudo_key ≡ some root)
        × (spec.genesis.balances ≡ (root, 2 ^ 60) ∷ others)
        × (issuance spec.genesis.balances < 2 ^ 64)
  unfolding development_config local_testnet_config
  configs_fund_root wasm spec (inl h) =
      rw (← unwrapped h) (K.account_from_seed "Alice", _, refl, refl, refl, omega arith)
  configs_fund_root wasm spec (inr h) =
      rw (← unwrapped h) (K.account_from_seed "Alice", _, refl, refl, refl, omega arith)
