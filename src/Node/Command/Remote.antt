-- ===== src/Node/Command/Remote.antt =====
-- Which commands a remote keystore stops.
use kontracts.Prelude.{
  ◌≡◌, refl, ap, ◌∙◌, Bool, true, false, Option, none, some, List, [], ◌∷◌, String,
}
use kontracts.Prelude.Outcome.{Outcome, ok, err, panic}
use kontracts.Node.Service.{
  Configuration, Parts, Action, create_runner, ServiceError, other, Node, ◌>>=◌, ◌>>◌, Substrate,
  PartialComponents, call, new_partial, new_full,
}
use kontracts.Node.Service.Starts.{new_full_refuses_remote}
use kontracts.Node.Command.{
  BenchmarkCmd, pallet, block, storage, overhead, extrinsic, machine, Subcommand, key, build_spec,
  check_block, export_blocks, export_state, import_blocks, purge_chain, revert, benchmark,
  chain_info, Features, run_benchmark, run,
}

-- The commands that work on the parts of a node.
abbrev pub uses_parts : Features → Option Subcommand → Bool
uses_parts F none = true
uses_parts F (some key) = false
uses_parts F (some build_spec) = false
uses_parts F (some check_block) = true
uses_parts F (some export_blocks) = true
uses_parts F (some export_state) = true
uses_parts F (some import_blocks) = true
uses_parts F (some purge_chain) = false
uses_parts F (some revert) = true
uses_parts F (some (benchmark pallet)) = false
uses_parts F (some (benchmark block)) = true
uses_parts F (some (benchmark storage)) = F.runtime_benchmarks
uses_parts F (some (benchmark overhead)) = true
uses_parts F (some (benchmark extrinsic)) = true
uses_parts F (some (benchmark machine)) = false
uses_parts F (some Subcommand.try_runtime) = false
uses_parts F (some chain_info) = false

module _ {P : Parts} (X : Substrate P) (F : Features) (config : Configuration) where
  abbrev continued :
      {A B : Type 0}
      → (A → Node P B)
      → Outcome (ServiceError P) A × List (Action P)
      → Outcome (ServiceError P) B × List (Action P)
  continued f p = elim p.0 [ ok a ↦ f a p.1 | err e ↦ (err e, p.1) | panic ↦ (panic, p.1) ]

  -- A command whose runner is there goes on.
  after_runner :
      (m : Node P (Unit {0})) {r : Outcome (ServiceError P) (Unit {0}) × List (Action P)}
      → X.succeeds create_runner ≡ true
      → m (create_runner ∷ []) ≡ r
      → (call X create_runner tt >> m) [] ≡ r
  unfolding ◌>>=◌
  after_runner m runner e =
      let created : call X create_runner tt [] ≡ (ok tt, create_runner ∷ []) = rw runner refl in
      ap (continued λ _. m) created ∙ e

  abbrev refused : {A : Type 0} → Outcome (ServiceError P) A × List (Action P)
  refused = (err (other "Remote Keystores are not supported."), create_runner ∷ [])

  -- What works on the parts is refused with them.
  refused_parts :
      (f : PartialComponents P → Node P (Unit {0}))
      → new_partial X config (create_runner ∷ []) ≡ refused
      → (new_partial X config >>= f) (create_runner ∷ []) ≡ refused
  unfolding ◌>>=◌
  refused_parts f e = ap (continued f) e

  benchmark_refused :
      (cmd : BenchmarkCmd)
      → new_partial X config (create_runner ∷ []) ≡ refused
      → uses_parts F (some (benchmark cmd)) ≡ true
      → run_benchmark X F config cmd (create_runner ∷ []) ≡ refused
  unfolding run_benchmark
  benchmark_refused pallet e uses = cc
  benchmark_refused block e uses = refused_parts _ e
  benchmark_refused storage e uses = rw uses (refused_parts _ e)
  benchmark_refused overhead e uses = refused_parts _ e
  benchmark_refused extrinsic e uses = refused_parts _ e
  benchmark_refused machine e uses = cc

  each_refused :
      (cmd : Option Subcommand)
      → X.succeeds create_runner ≡ true
      → new_partial X config (create_runner ∷ []) ≡ refused
      → new_full X config (create_runner ∷ []) ≡ refused
      → uses_parts F cmd ≡ true
      → run X F config cmd [] ≡ refused
  unfolding run
  each_refused none runner e full uses = after_runner _ runner full
  each_refused (some check_block) runner e full uses = after_runner _ runner (refused_parts _ e)
  each_refused (some export_blocks) runner e full uses = after_runner _ runner (refused_parts _ e)
  each_refused (some export_state) runner e full uses = after_runner _ runner (refused_parts _ e)
  each_refused (some import_blocks) runner e full uses = after_runner _ runner (refused_parts _ e)
  each_refused (some revert) runner e full uses = after_runner _ runner (refused_parts _ e)
  each_refused (some (benchmark b)) runner e full uses =
      after_runner _ runner (benchmark_refused b e uses)
  each_refused (some key) runner e full uses = cc
  each_refused (some build_spec) runner e full uses = cc
  each_refused (some purge_chain) runner e full uses = cc
  each_refused (some Subcommand.try_runtime) runner e full uses = cc
  each_refused (some chain_info) runner e full uses = cc

  -- With a remote keystore, a command that needs the parts of a node fails with the error that
  -- says so, once its runner is created, and does nothing else.
  pub run_refuses_remote :
      (cmd : Option Subcommand) (url : String)
      → config.keystore_remote ≡ some url
      → X.succeeds create_runner ≡ true
      → uses_parts F cmd ≡ true
      → run X F config cmd []
        ≡ (err (other "Remote Keystores are not supported."), create_runner ∷ [])
  run_refuses_remote cmd url remote runner uses =
      let (partial, full) = new_full_refuses_remote X config url (create_runner ∷ []) remote in
      each_refused cmd runner partial full uses
