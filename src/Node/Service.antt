-- ===== src/Node/Service.antt =====
-- kontracs/node/src/service.rs: which parts a node is made of, from what, in which order and under
-- which conditions. What it calls in Substrate may fail.
pub mod Started
pub mod Runs
pub mod Starts
use kontracts.Prelude.{
  ℕ, Bool, true, false, not, Option, none, some, List, [], ◌∷◌, ◌++◌, String, if◌then◌else◌,
}
use kontracts.Prelude.Outcome.{Outcome, ok, err, panic}

-- The host functions that the native executor registers beside Substrate's own, by whether the node
-- is built with `runtime-benchmarks`.
pub data HostFunctions : Type 0 where
  benchmarking kontracts_executor : HostFunctions

abbrev pub extend_host_functions : Bool → HostFunctions
extend_host_functions true = benchmarking
extend_host_functions false = kontracts_executor

-- What `new_partial` and `new_full` read of the `Configuration`.
pub record Configuration : Type 0 where
  pub keystore_remote : Option String
  pub telemetry_endpoints : Option (List String)
  pub is_authority : Bool
  pub disable_grandpa : Bool
  pub offchain_worker : Bool
  pub force_authoring : Bool
  pub node_name : String

-- Substrate's types for the parts of a node.
pub record Parts : Type 1 where
  pub Telemetry : Type 0
  pub Client : Type 0
  pub Backend : Type 0
  pub Keystore : Type 0
  pub SelectChain : Type 0
  pub Pool : Type 0
  pub BlockImport : Type 0
  pub GrandpaLink : Type 0
  pub ImportQueue : Type 0
  pub Hash : Type 0
  pub ProtocolName : Type 0
  pub WarpSync : Type 0
  pub Network : Type 0
  pub Proposer : Type 0

-- The calls of Substrate with what they are given, the tasks that are spawned, and, for the command
-- line, its calls: a command runs on a client, a queue or a backend.
pub data Action (P : Parts) : Type 0 where
  telemetry_worker : List String → Action P
  new_full_parts : Option P.Telemetry → Action P
  transaction_pool : Bool → P.Client → Action P
  block_import : P.Client → P.SelectChain → Option P.Telemetry → Action P
  slot_duration : P.Client → Action P
  import_queue : P.BlockImport → P.Client → ℕ → Option P.Telemetry → Action P
  peers_set : P.ProtocolName → Action P
  build_network : P.Client → P.Pool → P.ImportQueue → P.WarpSync → Action P
  build_offchain_workers : P.Client → P.Network → Action P
  spawn_tasks :
      P.Network → P.Client → P.Keystore → P.Pool → P.Backend → Option P.Telemetry → Action P
  start_aura :
      ℕ
      → P.Client
      → P.SelectChain
      → P.BlockImport
      → P.Proposer
      → Bool
      → P.Keystore
      → P.Network
      → Option P.Telemetry
      → Action P
  grandpa_voter :
      String
      → Option P.Keystore
      → Bool
      → P.ProtocolName
      → P.GrandpaLink
      → P.Network
      → Option P.Telemetry
      → Action P
  start_network : Action P
  spawn : String → Action P
  create_runner task_manager inherent_benchmark_data : Action P
  run_command : Option P.Client → Option P.ImportQueue → Option P.Backend → Action P

pub data ServiceError (P : Parts) : Type 0 where
  other : String → ServiceError P
  -- "Error hooking up remote keystore for {}: {}"
  hooking_up_keystore : String → String → ServiceError P
  failed : Action P → ServiceError P

-- The actions so far, in order.
abbrev pub Node : Parts → Type 0 → Type 0
Node P A = List (Action P) → Outcome (ServiceError P) A × List (Action P)

module _ {P : Parts} where
  infixl 5 ◌>>=◌ ◌>>◌
  unfoldable pub ◌>>=◌ : {A B : Type 0} → Node P A → (A → Node P B) → Node P B
  ◌>>=◌ m f log =
      let (r, log') = m log in
      elim r [ ok a ↦ f a log' | err e ↦ (err e, log') | panic ↦ (panic, log') ]

  abbrev pub ◌>>◌ : {A B : Type 0} → Node P A → Node P B → Node P B
  m >> k = m >>= λ _. k

  abbrev pub done : {A : Type 0} → A → Node P A
  done a log = (ok a, log)

  abbrev pub stop : ServiceError P → Node P (Unit {0})
  stop e log = (err e, log)

  abbrev pub when : Bool → Node P (Unit {0}) → Node P (Unit {0})
  when b m = if b then m else done tt

  -- A task is spawned, or something done that cannot fail.
  abbrev pub act : Action P → Node P (Unit {0})
  act a log = (ok tt, log ++ (a ∷ []))

-- Whether a call of Substrate succeeds, and what it then gives. `block_hash` is of the genesis.
pub record Substrate (P : Parts) : Type 0 where
  pub succeeds : Action P → Bool
  pub new_telemetry : List String → P.Telemetry
  pub full_parts : Option P.Telemetry → P.Client × P.Backend × P.Keystore
  pub longest_chain : P.Backend → P.SelectChain
  pub basic_pool : Bool → P.Client → P.Pool
  pub grandpa : P.Client → P.SelectChain → Option P.Telemetry → P.BlockImport × P.GrandpaLink
  pub aura_slot_duration : P.Client → ℕ
  pub aura_queue : P.BlockImport → P.Client → ℕ → Option P.Telemetry → P.ImportQueue
  pub block_hash : P.Client → Option P.Hash
  pub protocol_standard_name : P.Hash → P.ProtocolName
  pub network_provider : P.Backend → P.GrandpaLink → P.WarpSync
  pub network : P.Client → P.Pool → P.ImportQueue → P.WarpSync → P.Network
  pub proposer_factory : P.Client → P.Pool → Option P.Telemetry → P.Proposer

abbrev pub is_some : {A : Type 0} → Option A → Bool
is_some none = false
is_some (some a) = true

pub record PartialComponents (P : Parts) : Type 0 where
  pub client : P.Client
  pub backend : P.Backend
  pub import_queue : P.ImportQueue
  pub keystore_container : P.Keystore
  pub select_chain : P.SelectChain
  pub transaction_pool : P.Pool
  pub block_import : P.BlockImport
  pub grandpa_link : P.GrandpaLink
  pub telemetry : Option P.Telemetry

module _ {P : Parts} (X : Substrate P) where
  abbrev pub call : {A : Type 0} → Action P → A → Node P A
  call a v log = if X.succeeds a then (ok v, log ++ (a ∷ [])) else (err (failed a), log)

  -- Endpoints that are not empty.
  abbrev pub telemetry_of : Option (List String) → Node P (Option P.Telemetry)
  telemetry_of none = done none
  telemetry_of (some []) = done none
  telemetry_of (some (e ∷ es)) = call (telemetry_worker (e ∷ es)) (some (X.new_telemetry (e ∷ es)))

  unfoldable pub new_partial : Configuration → Node P (PartialComponents P)
  new_partial config = do
    when (is_some config.keystore_remote) (stop (other "Remote Keystores are not supported."))
    telemetry ← telemetry_of config.telemetry_endpoints
    (client, backend, keystore) ← call (new_full_parts telemetry) (X.full_parts telemetry)
    when (is_some telemetry) (act (spawn "telemetry"))
    let select_chain = X.longest_chain backend
    let pool = X.basic_pool config.is_authority client
    act (transaction_pool config.is_authority client)
    (import, link) ←
        call (block_import client select_chain telemetry) (X.grandpa client select_chain telemetry)
    duration ← call (slot_duration client) (X.aura_slot_duration client)
    queue ←
        call (import_queue import client duration telemetry)
          (X.aura_queue import client duration telemetry)
    done (record {
      client = client;
      backend = backend;
      import_queue = queue;
      keystore_container = keystore;
      select_chain = select_chain;
      transaction_pool = pool;
      block_import = import;
      grandpa_link = link;
      telemetry = telemetry;
    })

  -- `client.block_hash(0)…expect(…)`
  abbrev pub genesis : P.Client → Node P P.Hash
  genesis client log = elim (X.block_hash client) [
    | some hash ↦ (ok hash, log)
    | none ↦ (panic, log)
  ]

  -- `remote_keystore` has no keystore to give.
  abbrev pub remote_keystore : Option String → Node P (Unit {0})
  remote_keystore none = done tt
  remote_keystore (some url) = stop (hooking_up_keystore url "Remote Keystore not supported.")

  abbrev pub author : Configuration → PartialComponents P → P.Network → Node P (Unit {0})
  author config c network = do
    let proposer = X.proposer_factory c.client c.transaction_pool c.telemetry
    duration ← call (slot_duration c.client) (X.aura_slot_duration c.client)
    call
        (start_aura duration c.client c.select_chain c.block_import proposer config.force_authoring
          c.keystore_container network c.telemetry)
        tt
    act (spawn "aura")

  abbrev pub voter :
      Configuration → PartialComponents P → P.ProtocolName → P.Network → Node P (Unit {0})
  voter config c name network = do
    let keystore = if config.is_authority then some c.keystore_container else none
    call
        (grandpa_voter config.node_name keystore config.is_authority name c.grandpa_link network
          c.telemetry)
        tt
    act (spawn "grandpa-voter")

  unfoldable pub new_full : Configuration → Node P (Unit {0})
  new_full config = do
    c ← new_partial config
    remote_keystore config.keystore_remote
    hash ← genesis c.client
    let name = X.protocol_standard_name hash
    act (peers_set name)
    let warp_sync = X.network_provider c.backend c.grandpa_link
    network ←
        call (build_network c.client c.transaction_pool c.import_queue warp_sync)
          (X.network c.client c.transaction_pool c.import_queue warp_sync)
    when config.offchain_worker (act (build_offchain_workers c.client network))
    call
        (spawn_tasks network c.client c.keystore_container c.transaction_pool c.backend c.telemetry)
        tt
    when config.is_authority (author config c network)
    when (not config.disable_grandpa) (voter config c name network)
    act start_network
