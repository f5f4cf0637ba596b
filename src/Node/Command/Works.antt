-- ===== src/Node/Command/Works.antt =====
-- What each command of the node does, and on which of its parts.
use kontracts.Prelude.{◌≡◌, ◌⊎◌, Bool, true, Option, none, some, List, [], ◌∷◌, ◌++◌}
use kontracts.Prelude.Outcome.{ok, err}
use kontracts.Node.Service.{
  Configuration, Parts, Action, create_runner, run_command, task_manager, inherent_benchmark_data,
  ServiceError, Node, ◌>>=◌, ◌>>◌, Substrate, PartialComponents, call, new_partial,
}
use kontracts.Node.Service.Started.{the_parts, parts_started, started}
use kontracts.Node.Service.Runs.{Stops, Runs, call-Runs, bind-Runs, then-call}
use kontracts.Node.Service.Starts.{new_partial-Runs, new_full-Runs}
use kontracts.Node.Command.{
  BenchmarkCmd, pallet, block, storage, overhead, extrinsic, machine, Subcommand, key, build_spec,
  check_block, export_blocks, export_state, import_blocks, purge_chain, revert, benchmark,
  chain_info, Features, run_benchmark, run,
}

-- The commands that the features a node is built with allow.
abbrev pub allowed : Features → Option Subcommand → Bool
allowed F (some (benchmark pallet)) = F.runtime_benchmarks
allowed F (some (benchmark storage)) = F.runtime_benchmarks
allowed F (some Subcommand.try_runtime) = F.try_runtime
allowed F cmd = true

module _ {P : Parts} (X : Substrate P) (F : Features) (config : Configuration) where
  abbrev nothing : Action P
  nothing = run_command none none none

  abbrev client_only : Action P
  client_only = run_command (some (the_parts X config).client) none none

  abbrev client_queue : Action P
  client_queue =
      run_command (some (the_parts X config).client) (some (the_parts X config).import_queue) none

  abbrev client_backend : Action P
  client_backend =
      run_command (some (the_parts X config).client) none (some (the_parts X config).backend)

  -- On the parts of a node, once they are there.
  abbrev on_parts : List (Action P) → List (Action P)
  on_parts l = create_runner ∷ (parts_started X config ++ l)

  -- What a command does, where nothing fails.
  abbrev pub work : P.Hash → Option Subcommand → List (Action P)
  work hash none = create_runner ∷ started X config hash
  work hash (some key) = nothing ∷ []
  work hash (some build_spec) = create_runner ∷ nothing ∷ []
  work hash (some check_block) = on_parts (client_queue ∷ [])
  work hash (some export_blocks) = on_parts (client_only ∷ [])
  work hash (some export_state) = on_parts (client_only ∷ [])
  work hash (some import_blocks) = on_parts (client_queue ∷ [])
  work hash (some purge_chain) = create_runner ∷ nothing ∷ []
  work hash (some revert) = on_parts (client_backend ∷ [])
  work hash (some (benchmark pallet)) = create_runner ∷ nothing ∷ []
  work hash (some (benchmark block)) = on_parts (client_only ∷ [])
  work hash (some (benchmark storage)) = on_parts (client_backend ∷ [])
  work hash (some (benchmark overhead)) = on_parts (inherent_benchmark_data ∷ client_only ∷ [])
  work hash (some (benchmark extrinsic)) = on_parts (inherent_benchmark_data ∷ client_only ∷ [])
  work hash (some (benchmark machine)) = create_runner ∷ nothing ∷ []
  work hash (some Subcommand.try_runtime) = create_runner ∷ task_manager ∷ nothing ∷ []
  work hash (some chain_info) = create_runner ∷ nothing ∷ []

  -- A command in its runner, and one there on the parts of a node.
  in_runner-Runs :
      {m : Node P (Unit {0})} {es : List (Action P)}
      → Runs X config m es tt
      → Runs X config (call X create_runner tt >> m) (create_runner ∷ es) tt
  in_runner-Runs {m} runs = then-call X config create_runner tt (λ _. m) runs

  on_parts-Runs :
      (f : PartialComponents P → Node P (Unit {0})) {es : List (Action P)}
      → Runs X config (f (the_parts X config)) es tt
      → Runs X config (call X create_runner tt >> (new_partial X config >>= f)) (on_parts es) tt
  on_parts-Runs f runs = in_runner-Runs (
      bind-Runs X config (new_partial X config) f (the_parts X config) (new_partial-Runs X config)
        runs)

  client_only-Runs : Runs X config (call X client_only tt) (client_only ∷ []) tt
  client_only-Runs = call-Runs X config client_only tt

  nothing-Runs :
      Runs X config (call X create_runner tt >> call X nothing tt) (create_runner ∷ nothing ∷ []) tt
  nothing-Runs = in_runner-Runs (call-Runs X config nothing tt)

  data-Runs :
      Runs X config
        (call X inherent_benchmark_data tt >> call X client_only tt)
        (inherent_benchmark_data ∷ client_only ∷ [])
        tt
  data-Runs = then-call X config inherent_benchmark_data tt _ client_only-Runs

  run_benchmark-Runs :
      (hash : P.Hash) (cmd : BenchmarkCmd)
      → allowed F (some (benchmark cmd)) ≡ true
      → Runs X config
          (call X create_runner tt >> run_benchmark X F config cmd)
          (work hash (some (benchmark cmd)))
          tt
  unfolding run_benchmark
  run_benchmark-Runs hash pallet may = rw may nothing-Runs
  run_benchmark-Runs hash block may = on_parts-Runs _ client_only-Runs
  run_benchmark-Runs hash storage may =
      rw may (on_parts-Runs _ (call-Runs X config client_backend tt))
  run_benchmark-Runs hash overhead may = on_parts-Runs _ data-Runs
  run_benchmark-Runs hash extrinsic may = on_parts-Runs _ data-Runs
  run_benchmark-Runs hash machine may = nothing-Runs

  run-Runs :
      (hash : P.Hash) (cmd : Option Subcommand)
      → X.block_hash (the_parts X config).client ≡ some hash
      → allowed F cmd ≡ true
      → Runs X config (run X F config cmd) (work hash cmd) tt
  unfolding run
  run-Runs hash none exists may = in_runner-Runs (new_full-Runs X config hash exists)
  run-Runs hash (some key) exists may = call-Runs X config nothing tt
  run-Runs hash (some build_spec) exists may = nothing-Runs
  run-Runs hash (some check_block) exists may = on_parts-Runs _ (call-Runs X config client_queue tt)
  run-Runs hash (some export_blocks) exists may = on_parts-Runs _ client_only-Runs
  run-Runs hash (some export_state) exists may = on_parts-Runs _ client_only-Runs
  run-Runs hash (some import_blocks) exists may =
      on_parts-Runs _ (call-Runs X config client_queue tt)
  run-Runs hash (some purge_chain) exists may = nothing-Runs
  run-Runs hash (some revert) exists may = on_parts-Runs _ (call-Runs X config client_backend tt)
  run-Runs hash (some (benchmark cmd)) exists may = run_benchmark-Runs hash cmd may
  run-Runs hash (some Subcommand.try_runtime) exists may =
      rw may (in_runner-Runs (then-call X config task_manager tt _ (call-Runs X config nothing tt)))
  run-Runs hash (some chain_info) exists may = nothing-Runs

  -- Where the genesis block exists, a command that the node's features allow, the one to run the
  -- node included, either succeeds, and has then done exactly what `work` lists, in that order:
  -- but for the key commands a runner is created first; the commands that need them build the
  -- parts of the node, and what follows is on the client, import queue or backend of these
  -- parts; running the node builds the network, the offchain workers if they are enabled, the
  -- tasks, block authoring for an authority only and the voter unless it is disabled, all on the
  -- same parts, and starts the network last. Or it gives an error after a first part of that
  -- list, where the next action is a call that fails and the error is that call's, or a remote
  -- keystore is configured.
  pub run_works :
      (hash : P.Hash) (cmd : Option Subcommand)
      → X.block_hash (the_parts X config).client ≡ some hash
      → allowed F cmd ≡ true
      → (run X F config cmd [] ≡ (ok tt, work hash cmd))
        ⊎ ((before : List (Action P)) × (rest : List (Action P)) × (e : ServiceError P) × (before
                ++ rest
              ≡ work hash cmd)
            × (run X F config cmd [] ≡ (err e, before))
            × Stops X config e rest)
  run_works hash cmd exists may = run-Runs hash cmd exists may []
