-- ===== src/Node/Service/Starts.antt =====
-- The order in which a node starts, and where it stops when something fails.
use mathlib.Core.List.{append-nil}
use kontracts.Prelude.{
  ◌≡◌, ◌⊎◌, refl, sym, ap, inl, not, Option, none, some, List, [], ◌∷◌, ◌++◌, String, if◌then◌else◌,
}
use kontracts.Prelude.Outcome.{ok, err}
use kontracts.Node.Service.{
  Configuration, Parts, Action, telemetry_worker, new_full_parts, transaction_pool, block_import,
  slot_duration, import_queue, peers_set, build_network, build_offchain_workers, spawn_tasks,
  start_aura, grandpa_voter, start_network, spawn, ServiceError, other, hooking_up_keystore, ◌>>=◌,
  stop, when, act, Substrate, is_some, PartialComponents, telemetry_of, new_partial, genesis,
  remote_keystore, author, voter, new_full,
}
use kontracts.Node.Service.Started.{
  telemetry_given, telemetry_started, the_parts, parts_started, authoring, voting, started,
}
use kontracts.Node.Service.Runs.{
  Stops, Runs, call-Runs, act-Runs, done-Runs, when-Runs, bind-Runs, then-call, then-act, stop-Runs,
}

module _ {P : Parts} (X : Substrate P) (config : Configuration) where
  refuse-Runs :
      (remote : Option String)
      → config.keystore_remote ≡ remote
      → Runs X config
          (when (is_some remote) (stop (other "Remote Keystores are not supported.")))
          []
          tt
  refuse-Runs none e = done-Runs X config tt
  refuse-Runs (some url) e = stop-Runs X config (other "Remote Keystores are not supported.") url e

  remote_keystore-Runs :
      (remote : Option String)
      → config.keystore_remote ≡ remote
      → Runs X config (remote_keystore X remote) [] tt
  remote_keystore-Runs none e = done-Runs X config tt
  remote_keystore-Runs (some url) e =
      stop-Runs X config (hooking_up_keystore url "Remote Keystore not supported.") url e

  telemetry_of-Runs :
      (endpoints : Option (List String))
      → Runs X config
          (telemetry_of X endpoints)
          (telemetry_started X config endpoints)
          (telemetry_given X config endpoints)
  telemetry_of-Runs none = done-Runs X config none
  telemetry_of-Runs (some []) = done-Runs X config none
  telemetry_of-Runs (some (e ∷ es)) = call-Runs X config (telemetry_worker (e ∷ es)) _

  pub new_partial-Runs :
      Runs X config (new_partial X config) (parts_started X config) (the_parts X config)
  unfolding new_partial
  new_partial-Runs =
      let c = the_parts X config in
      let t = c.telemetry in
      let endpoints = config.telemetry_endpoints in
      let duration = X.aura_slot_duration c.client in
      bind-Runs X config
        (when (is_some config.keystore_remote) (stop (other "Remote Keystores are not supported.")))
        _ tt (refuse-Runs config.keystore_remote refl)
        (bind-Runs X config (telemetry_of X endpoints) _ t (telemetry_of-Runs endpoints) (
          then-call X config (new_full_parts t) (X.full_parts t) _ (
            bind-Runs X config (when (is_some t) (act (spawn "telemetry"))) _ tt
              (when-Runs X config (is_some t) (act-Runs X config (spawn "telemetry")))
              (then-act X config (transaction_pool config.is_authority c.client) _ (
                then-call X config (block_import c.client c.select_chain t)
                  (X.grandpa c.client c.select_chain t) _
                  (then-call X config (slot_duration c.client) duration _ (
                    then-call X config (import_queue c.block_import c.client duration t)
                      c.import_queue _ (done-Runs X config c))))))))

  genesis-Runs :
      (hash : P.Hash)
      → X.block_hash (the_parts X config).client ≡ some hash
      → Runs X config (genesis X (the_parts X config).client) [] hash
  genesis-Runs hash exists log =
      inl (rw (exists, genesis) (ap (λ l. (ok hash, l)) (sym (append-nil log))))

  author-Runs :
      (c : PartialComponents P) (network : P.Network)
      → Runs X config (author X config c network) (authoring X config c network) tt
  author-Runs c network =
      let proposer = X.proposer_factory c.client c.transaction_pool c.telemetry in
      let duration = X.aura_slot_duration c.client in
      then-call X config (slot_duration c.client) duration _ (
        then-call X config
          (start_aura duration c.client c.select_chain c.block_import proposer
            config.force_authoring c.keystore_container network c.telemetry)
          tt _ (act-Runs X config (spawn "aura")))

  voter-Runs :
      (c : PartialComponents P) (name : P.ProtocolName) (network : P.Network)
      → Runs X config (voter X config c name network) (voting X config c name network) tt
  voter-Runs c name network =
      then-call X config
        (grandpa_voter config.node_name
          (if config.is_authority then some c.keystore_container else none) config.is_authority name
          c.grandpa_link network c.telemetry)
        tt _ (act-Runs X config (spawn "grandpa-voter"))

  pub new_full-Runs :
      (hash : P.Hash)
      → X.block_hash (the_parts X config).client ≡ some hash
      → Runs X config (new_full X config) (started X config hash) tt
  unfolding new_full
  new_full-Runs hash exists =
      let c = the_parts X config in
      let name = X.protocol_standard_name hash in
      let warp_sync = X.network_provider c.backend c.grandpa_link in
      let network = X.network c.client c.transaction_pool c.import_queue warp_sync in
      bind-Runs X config (new_partial X config) _ c new_partial-Runs (
        bind-Runs X config (remote_keystore X config.keystore_remote) _ tt
          (remote_keystore-Runs config.keystore_remote refl)
          (bind-Runs X config (genesis X c.client) _ hash (genesis-Runs hash exists) (
            then-act X config (peers_set name) _ (
              then-call X config
                (build_network c.client c.transaction_pool c.import_queue warp_sync) network _
                (bind-Runs X config
                  (when config.offchain_worker (act (build_offchain_workers c.client network))) _ tt
                  (when-Runs X config config.offchain_worker
                    (act-Runs X config (build_offchain_workers c.client network)))
                  (then-call X config
                    (spawn_tasks network c.client c.keystore_container c.transaction_pool c.backend
                      c.telemetry)
                    tt _
                    (bind-Runs X config (when config.is_authority (author X config c network)) _ tt
                      (when-Runs X config config.is_authority (author-Runs c network))
                      (bind-Runs X config
                        (when (not config.disable_grandpa) (voter X config c name network)) _ tt
                        (when-Runs X config (not config.disable_grandpa)
                          (voter-Runs c name network))
                        (act-Runs X config start_network)))))))))

  -- Where the genesis block exists, building a node from its configuration either succeeds, and has
  -- then done exactly what `started` lists, in that order: the parts of the node, its network, the
  -- offchain workers if they are enabled, the tasks, block authoring for an authority only, the
  -- voter unless it is disabled, with the keystore for an authority only, and the network's start;
  -- all of them work on the same client, pool, keystore, telemetry and network. Or it gives an error
  -- after a first part of that list, where the next action is a call that fails and the error is
  -- that call's, or a remote keystore is configured.
  pub new_full_starts :
      (hash : P.Hash)
      → X.block_hash (the_parts X config).client ≡ some hash
      → (new_full X config [] ≡ (ok tt, started X config hash))
        ⊎ ((before : List (Action P)) × (rest : List (Action P)) × (e : ServiceError P) × (before
                ++ rest
              ≡ started X config hash)
            × (new_full X config [] ≡ (err e, before))
            × Stops X config e rest)
  new_full_starts hash exists = new_full-Runs hash exists []

  -- With a remote keystore nothing is started.
  pub new_full_refuses_remote :
      (url : String) (log : List (Action P))
      → config.keystore_remote ≡ some url
      → (new_partial X config log ≡ (err (other "Remote Keystores are not supported."), log))
        × (new_full X config log ≡ (err (other "Remote Keystores are not supported."), log))
  unfolding new_partial new_full ◌>>=◌
  new_full_refuses_remote url log remote = rw remote (refl, refl)
