-- ===== src/Node/Service/Started.antt =====
-- What a node consists of, and what it has started once it runs, as functions of its configuration.
use kontracts.Prelude.{Bool, not, Option, none, some, List, [], ◌∷◌, ◌++◌, String, if◌then◌else◌}
use kontracts.Node.Service.{
  Configuration, Parts, Action, telemetry_worker, new_full_parts, transaction_pool, block_import,
  slot_duration, import_queue, peers_set, build_network, build_offchain_workers, spawn_tasks,
  start_aura, grandpa_voter, start_network, spawn, Substrate, is_some, PartialComponents,
}

abbrev pub only_if : {A : Type 0} → Bool → List A → List A
only_if b l = if b then l else []

module _ {P : Parts} (X : Substrate P) (config : Configuration) where
  -- The parts of a node, as a function of its configuration.
  abbrev pub telemetry_given : Option (List String) → Option P.Telemetry
  telemetry_given none = none
  telemetry_given (some []) = none
  telemetry_given (some (e ∷ es)) = some (X.new_telemetry (e ∷ es))

  abbrev pub telemetry_started : Option (List String) → List (Action P)
  telemetry_started none = []
  telemetry_started (some []) = []
  telemetry_started (some (e ∷ es)) = telemetry_worker (e ∷ es) ∷ []

  abbrev pub the_parts : PartialComponents P
  the_parts =
      let telemetry = telemetry_given config.telemetry_endpoints in
      let (client, backend, keystore) = X.full_parts telemetry in
      let select_chain = X.longest_chain backend in
      let (import, link) = X.grandpa client select_chain telemetry in
      record {
        client = client;
        backend = backend;
        import_queue = X.aura_queue import client (X.aura_slot_duration client) telemetry;
        keystore_container = keystore;
        select_chain = select_chain;
        transaction_pool = X.basic_pool config.is_authority client;
        block_import = import;
        grandpa_link = link;
        telemetry = telemetry;
      }

  abbrev pub parts_started : List (Action P)
  parts_started =
      let c = the_parts in
      telemetry_started config.telemetry_endpoints
      ++ ((new_full_parts c.telemetry ∷ [])
          ++ (only_if (is_some c.telemetry) (spawn "telemetry" ∷ [])
              ++ (transaction_pool config.is_authority c.client
                  ∷ block_import c.client c.select_chain c.telemetry
                  ∷ slot_duration c.client
                  ∷ import_queue c.block_import c.client (X.aura_slot_duration c.client) c.telemetry
                  ∷ [])))

  abbrev pub authoring : PartialComponents P → P.Network → List (Action P)
  authoring c network =
      slot_duration c.client
      ∷ start_aura (X.aura_slot_duration c.client) c.client c.select_chain c.block_import
          (X.proposer_factory c.client c.transaction_pool c.telemetry) config.force_authoring
          c.keystore_container network c.telemetry
      ∷ spawn "aura"
      ∷ []

  abbrev pub voting : PartialComponents P → P.ProtocolName → P.Network → List (Action P)
  voting c name network =
      grandpa_voter config.node_name
        (if config.is_authority then some c.keystore_container else none) config.is_authority name
        c.grandpa_link network c.telemetry
      ∷ spawn "grandpa-voter"
      ∷ []

  -- Every part is given the same client, pool, keystore and network.
  abbrev pub started : P.Hash → List (Action P)
  started hash =
      let c = the_parts in
      let name = X.protocol_standard_name hash in
      let warp_sync = X.network_provider c.backend c.grandpa_link in
      let network = X.network c.client c.transaction_pool c.import_queue warp_sync in
      parts_started
      ++ (peers_set name
          ∷ build_network c.client c.transaction_pool c.import_queue warp_sync
          ∷ (only_if config.offchain_worker (build_offchain_workers c.client network ∷ [])
              ++ (spawn_tasks network c.client c.keystore_container c.transaction_pool c.backend
                    c.telemetry
                  ∷ (only_if config.is_authority (authoring c network)
                      ++ (only_if (not config.disable_grandpa) (voting c name network)
                          ++ (start_network ∷ []))))))
