-- ===== src/Node/Genesis.antt =====
-- Whether FRAME builds a genesis: pallet_balances wants every balance to be an existential deposit
-- at least and no account twice, and pallet_aura and pallet_grandpa keep a bounded number of
-- authorities.
use text.Mathlib.Text.{◌==◌}
use text.Mathlib.TextEquality.{eq_iff}
use kontracts.Prelude.{
  ℕ, ◌^◌, ◌≤◌, ◌<◌, ◌≡◌, ◌⊎◌, inl, inr, refl, Bool, true, false, not, ◌&&◌, ◌||◌, Bool-cases, some,
  List, [], ◌∷◌, map, length, String, arith,
}
use kontracts.Prelude.Outcome.{Outcome, ok}
use kontracts.Prelude.Sums.{Has, Apart, Distinct}
use kontracts.Bytes.{Bytes}
use kontracts.Runtime.{existential_deposit, max_authorities}
use kontracts.Node.ChainSpec.{
  Keys, GenesisConfig, ChainSpec, development_config, local_testnet_config, development_accounts,
  local_accounts, issuance,
}
use kontracts.Node.Command.{load_spec}
use kontracts.Node.Command.Specs.{load_spec-named, load_spec_funds_root}

abbrev apart_texts : String → List String → Bool
apart_texts a [] = true
apart_texts a (b ∷ l) = not (a == b) && apart_texts a l

abbrev distinct_texts : List String → Bool
distinct_texts [] = true
distinct_texts (a ∷ l) = apart_texts a l && distinct_texts l

apart_texts_sound : (a : String) (l : List String) → apart_texts a l ≡ true → Apart a l
apart_texts_sound a [] h = tt
apart_texts_sound a (b ∷ l) h = (ground (arith, eq_iff a b), apart_texts_sound a l (ground arith))

distinct_texts_sound : (l : List String) → distinct_texts l ≡ true → Distinct l
distinct_texts_sound [] h = tt
distinct_texts_sound (a ∷ l) h =
    (apart_texts_sound a l (ground arith), distinct_texts_sound l (ground arith))

abbrev has_text : String → List String → Bool
has_text a [] = false
has_text a (b ∷ l) = a == b || has_text a l

abbrev all_in : List String → List String → Bool
all_in k [] = true
all_in k (a ∷ l) = has_text a k && all_in k l

abbrev AllHas : List String → List String → Type 0
AllHas k [] = Unit {0}
AllHas k (a ∷ l) = Has a k × AllHas k l

has_text_sound : (a : String) (l : List String) → has_text a l ≡ true → Has a l
has_text_sound a [] h = cc
has_text_sound a (b ∷ l) h = elim (Bool-cases (a == b)) [
  | inl same ↦ inl ((eq_iff a b).0 same)
  | inr other ↦ inr (has_text_sound a l (rw other at h))
]

all_in_sound : (k l : List String) → all_in k l ≡ true → AllHas k l
all_in_sound k [] h = tt
all_in_sound k (a ∷ l) h = (has_text_sound a k (ground arith), all_in_sound k l (ground arith))

-- A function that is injective on a list keeps the texts of the list distinct.
module _ {B : Type 0} (f : String → B) (k : List String)
    (inj : (a b : String) → Has a k → Has b k → f a ≡ f b → a ≡ b) where
  Apart-map :
      (a : String) (l : List String) → Has a k → AllHas k l → Apart a l → Apart (f a) (map f l)
  Apart-map a [] ha hl h = tt
  Apart-map a (b ∷ l) ha (hb, hl) (ne, h) = ((λ e. ne (inj a b ha hb e)), Apart-map a l ha hl h)

  Distinct-map : (l : List String) → AllHas k l → Distinct l → Distinct (map f l)
  Distinct-map [] hl h = tt
  Distinct-map (a ∷ l) (ha, hl) (apart, h) = (Apart-map a l ha hl apart, Distinct-map l hl h)

abbrev Rich : {A : Type 0} → List (A × ℕ) → Type 0
Rich [] = Unit {0}
Rich ((_, n) ∷ l) = (existential_deposit ≤ n) × Rich l

pub record IsBuildable {K : Keys} (g : GenesisConfig K) : Type 0 where
  pub endowed : Rich g.balances
  pub once : Distinct (map (λ (b : K.AccountId × ℕ). b.0) g.balances)
  pub some_author : 1 ≤ length g.aura_authorities
  pub authors : length g.aura_authorities ≤ max_authorities
  pub some_voter : 1 ≤ length g.grandpa_authorities
  pub voters : length g.grandpa_authorities ≤ max_authorities

-- No two seeds of the built-in accounts derive one account.
abbrev pub AreApart : Keys → Type 0
AreApart K =
    (a b : String)
    → Has a (local_accounts K)
    → Has b (local_accounts K)
    → K.account_from_seed a ≡ K.account_from_seed b
    → a ≡ b

module _ (K : Keys) (inj : AreApart K) where
  Distinct-accounts :
      (l : List String)
      → all_in (local_accounts K) l ≡ true
      → distinct_texts l ≡ true
      → Distinct (map K.account_from_seed l)
  Distinct-accounts l known h =
      Distinct-map K.account_from_seed (local_accounts K) inj l
        (all_in_sound (local_accounts K) l known) (distinct_texts_sound l h)

  unwrapped : {a b : ChainSpec K} → ◌≡◌ {A = Outcome String (ChainSpec K)} (ok a) (ok b) → a ≡ b
  unwrapped h = cc

  configs-IsBuildable :
      (wasm : Bytes) (spec : ChainSpec K)
      → (development_config K (some wasm) ≡ ok spec)
        ⊎ (local_testnet_config K (some wasm) ≡ ok spec)
      → IsBuildable spec.genesis
  unfolding development_config local_testnet_config
  configs-IsBuildable wasm spec (inl h) = rw (← unwrapped h) (record {
    endowed = omega arith;
    once = Distinct-accounts (development_accounts K) refl refl;
    some_author = omega arith;
    authors = omega arith;
    some_voter = omega arith;
    voters = omega arith;
  })
  configs-IsBuildable wasm spec (inr h) = rw (← unwrapped h) (record {
    endowed = omega arith;
    once = Distinct-accounts (local_accounts K) refl refl;
    some_author = omega arith;
    authors = omega arith;
    some_voter = omega arith;
    voters = omega arith;
  })

-- A specification that is loaded under a built-in name, on a node with the runtime's binary and
-- where no two built-in seeds derive one account, has a genesis that FRAME builds: each balance
-- is at least the existential deposit, no account is endowed twice, and there is an author and a
-- voter and no more of either than the runtime keeps; it starts from that binary, gives root to
-- an account that it endows, and has an issuance below 2^64.
pub load_spec_builds :
    (K : Keys)
    → AreApart K
    → (wasm : Bytes) (from_json_file : String → Outcome String (ChainSpec K)) (id : String)
      (spec : ChainSpec K)
    → (id ≡ "dev") ⊎ (id ≡ "") ⊎ (id ≡ "local")
    → load_spec K (some wasm) from_json_file id ≡ ok spec
    → IsBuildable spec.genesis
      × ((root : K.AccountId) × (others : List (K.AccountId × ℕ)) × (spec.genesis.code ≡ wasm)
          × (spec.genesis.sudo_key ≡ some root)
          × (spec.genesis.balances ≡ (root, 2 ^ 60) ∷ others)
          × (issuance spec.genesis.balances < 2 ^ 64))
load_spec_builds K inj wasm f id spec named h = (
  configs-IsBuildable K inj wasm spec (load_spec-named K wasm f id spec named h),
  load_spec_funds_root K wasm f id spec named h,
)
