-- ===== src/Node/Command.antt =====
-- kontracs/node/src/command.rs and cli.rs: which subcommand runs on what. A command's own work is
-- Substrate's, and one action here, with the parts of the node that it is given.
pub mod Specs
pub mod Remote
pub mod Works
use kontracts.Prelude.{
  ◌≡◌, ℕ, ◌^◌, ◌<◌, ◌⊎◌, subst, refl, ap, ◌∙◌, Bool, true, false, Option, none, some, List, [], ◌∷◌,
  String, if◌then◌else◌, inl, inr, arith,
}
use kontracts.Prelude.Outcome.{Outcome, ok, err, panic}
use kontracts.Bytes.{Bytes}
use kontracts.Runtime.{RuntimeVersion, version}
use kontracts.Node.ChainSpec.{
  Keys, ChainSpec, development_config, local_testnet_config, issuance, configs_fund_root,
}
use kontracts.Node.Service.{
  Configuration, Parts, Action, create_runner, run_command, task_manager, inherent_benchmark_data,
  ServiceError, other, Node, ◌>>=◌, ◌>>◌, stop, Substrate, PartialComponents, call, new_partial,
  new_full,
}
use text.Mathlib.Text.{◌==◌}

pub data BenchmarkCmd : Type 0 where
  pallet block storage overhead extrinsic machine : BenchmarkCmd

pub data Subcommand : Type 0 where
  key build_spec check_block export_blocks export_state import_blocks purge_chain revert :
      Subcommand
  benchmark : BenchmarkCmd → Subcommand
  try_runtime chain_info : Subcommand

-- The features that the node is built with.
pub record Features : Type 0 where
  pub runtime_benchmarks : Bool
  pub try_runtime : Bool

-- What the command line says of the program. The version, the description and the authors come from
-- the build.
abbrev impl_name : String
impl_name = "Substrate Node"

abbrev support_url : String
support_url = "support.anonymous.an"

abbrev copyright_start_year : ℕ
copyright_start_year = 2017

abbrev native_runtime_version : RuntimeVersion
native_runtime_version = version

-- `load_spec`: two names, the empty one for the local chain, or else a file's path.
unfoldable pub load_spec :
    (K : Keys)
    → Option Bytes
    → (String → Outcome String (ChainSpec K))
    → String
    → Outcome String (ChainSpec K)
load_spec K wasm_binary from_json_file id =
    if id == "dev"
    then development_config K wasm_binary
    else if id == ""
    then local_testnet_config K wasm_binary
    else if id == "local"
    then local_testnet_config K wasm_binary
    else from_json_file id

module _ {P : Parts} (X : Substrate P) (F : Features) (config : Configuration) where
  -- `cmd.run`, on the parts of a node that it is given.
  abbrev cmd_run : Option P.Client → Option P.ImportQueue → Option P.Backend → Node P (Unit {0})
  cmd_run client queue backend = call X (run_command client queue backend) tt

  -- `let PartialComponents { client, … } = service::new_partial(&config)?`
  abbrev on_client : Node P (Unit {0})
  on_client = do c ← new_partial X config; cmd_run (some c.client) none none

  abbrev on_client_queue : Node P (Unit {0})
  on_client_queue = do c ← new_partial X config; cmd_run (some c.client) (some c.import_queue) none

  abbrev on_client_backend : Node P (Unit {0})
  on_client_backend = do c ← new_partial X config; cmd_run (some c.client) none (some c.backend)

  abbrev on_client_data : Node P (Unit {0})
  on_client_data = do
    c ← new_partial X config
    call X inherent_benchmark_data tt
    cmd_run (some c.client) none none

  -- The closure under `runner.sync_run`, for the benchmarks.
  unfoldable pub run_benchmark : BenchmarkCmd → Node P (Unit {0})
  run_benchmark pallet =
      if F.runtime_benchmarks
      then cmd_run none none none
      else stop (
          other
            "Runtime benchmarking wasn't enabled when building the node. You can enable it with `--features runtime-benchmarks`.")
  run_benchmark block = on_client
  run_benchmark storage =
      if F.runtime_benchmarks
      then on_client_backend
      else stop (other "Storage benchmarking can be enabled with `--features runtime-benchmarks`.")
  run_benchmark overhead = on_client_data
  run_benchmark extrinsic = on_client_data
  run_benchmark machine = cmd_run none none none

  -- `let runner = cli.create_runner(cmd)?; runner.….run(|config| …)`
  abbrev in_runner : Node P (Unit {0}) → Node P (Unit {0})
  in_runner m = do call X create_runner tt; m

  unfoldable pub run : Option Subcommand → Node P (Unit {0})
  run none = in_runner (new_full X config)
  run (some key) = cmd_run none none none
  run (some build_spec) = in_runner (cmd_run none none none)
  run (some check_block) = in_runner on_client_queue
  run (some export_blocks) = in_runner on_client
  run (some export_state) = in_runner on_client
  run (some import_blocks) = in_runner on_client_queue
  run (some purge_chain) = in_runner (cmd_run none none none)
  run (some revert) = in_runner on_client_backend
  run (some (benchmark cmd)) = in_runner (run_benchmark cmd)
  run (some Subcommand.try_runtime) =
      if F.try_runtime
      then in_runner (call X task_manager tt >> cmd_run none none none)
      else stop (
          other
            "TryRuntime wasn't enabled when building the node. You can enable it with `--features try-runtime`.")
  run (some chain_info) = in_runner (cmd_run none none none)
