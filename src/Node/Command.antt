-- ===== src/Node/Command.antt =====
-- The subcommands of node/src/cli.rs, and `run` of node/src/command.rs.
use substrate_demo.Prelude.{
  ◌≡◌, Bool, Option, none, some, Bytes, Result, ok, err, fail, pure, ◌>>=◌, if◌then◌else◌,
}
use substrate_demo.Offchain.Text.{str}
use substrate_demo.Node.Startup.{Handles, Configuration, Framework, failed, Boot, Starting}
use substrate_demo.Node.Service.{new_partial, new_full, new_light}

-- The crate `sc_cli` and the benchmarks: the arguments of the commands, what they run, and the
-- runner, which makes the node's configuration of a command's arguments.
pub record Shell {H : Handles} (F : Framework H) : Type 1 where
  pub Cmd : Type 0
  pub ChainSpecs : Type 0
  pub NetworkConfiguration : Type 0
  pub Database : Type 0
  pub chain_spec : Configuration H → ChainSpecs
  pub network : Configuration H → NetworkConfiguration
  pub database : Configuration H → Database
  pub Future : Type 0
  pub build_spec :
      Cmd → ChainSpecs → NetworkConfiguration → F.World → Result F.Error (Unit {0}) × F.World
  pub check_block : Cmd → H.Client → H.ImportQueue → Future
  pub export_blocks : Cmd → H.Client → Database → Future
  pub export_state : Cmd → H.Client → ChainSpecs → Future
  pub import_blocks : Cmd → H.Client → H.ImportQueue → Future
  pub purge_chain : Cmd → Database → F.World → Result F.Error (Unit {0}) × F.World
  pub revert : Cmd → H.Client → H.Backend → Future
  pub benchmark : Cmd → Configuration H → F.World → Result F.Error (Unit {0}) × F.World
  pub Runner : Type 0
  pub configuration : Runner → Configuration H
  pub create_runner : Cmd → F.World → Result F.Error Runner × F.World
  pub sync_run : Runner → (Configuration H → Starting F (Unit {0})) → Starting F (Unit {0})
  pub async_run :
      Runner → (Configuration H → Starting F (Future × H.TaskManager)) → Starting F (Unit {0})
  pub run_node_until_exit :
      Runner → (Configuration H → Starting F H.TaskManager) → Starting F (Unit {0})
  -- `cfg!(feature = "runtime-benchmarks")`
  pub runtime_benchmarks : Bool
  pub error_of_message : Bytes → F.Error

-- A runner calls the closure that it is given once, with its own configuration; what it does
-- itself, before and after, is no request of the node.
pub record IsLawfulShell {H : Handles} {F : Framework H} (C : Shell F) : Type 0 where
  pub sync_run-log :
      (r : C.Runner) (f : Configuration H → Starting F (Unit {0})) (s : Boot F)
      → (C.sync_run r f s).1.log ≡ (f (C.configuration r) s).1.log
  pub async_run-log :
      (r : C.Runner) (f : Configuration H → Starting F (C.Future × H.TaskManager)) (s : Boot F)
      → (C.async_run r f s).1.log ≡ (f (C.configuration r) s).1.log
  pub run_node_until_exit-log :
      (r : C.Runner) (f : Configuration H → Starting F H.TaskManager) (s : Boot F)
      → (C.run_node_until_exit r f s).1.log ≡ (f (C.configuration r) s).1.log

module _ {H : Handles} {F : Framework H} (C : Shell F) where
  pub data Subcommand : Type 0 where
    build_spec check_block export_blocks export_state import_blocks purge_chain revert benchmark :
        (cmd : C.Cmd) → Subcommand

  pub record Cli : Type 0 where
    pub subcommand : Option Subcommand
    pub run : C.Cmd

  -- A call of the command line's crate, with `?` on its error.
  abbrev pub outside : {A : Type 0} → (F.World → Result F.Error A × F.World) → Starting F A
  outside f s =
      let (r, w) = f s.world in
      elim r [
        | ok a ↦ (ok a, record s { world = w })
        | err e ↦ (err (failed e), record s { world = w })
      ]

  unfoldable pub run_subcommand : Subcommand → Starting F (Unit {0})
  run_subcommand (build_spec cmd) = do
    runner ← outside (C.create_runner cmd)
    C.sync_run runner λ config. outside (C.build_spec cmd (C.chain_spec config) (C.network config))
  run_subcommand (check_block cmd) = do
    runner ← outside (C.create_runner cmd)
    C.async_run runner λ config. new_partial F config >>= λ parts.
        pure (C.check_block cmd parts.client parts.import_queue, parts.task_manager)
  run_subcommand (export_blocks cmd) = do
    runner ← outside (C.create_runner cmd)
    C.async_run runner λ config. new_partial F config >>= λ parts.
        pure (C.export_blocks cmd parts.client (C.database config), parts.task_manager)
  run_subcommand (export_state cmd) = do
    runner ← outside (C.create_runner cmd)
    C.async_run runner λ config. new_partial F config >>= λ parts.
        pure (C.export_state cmd parts.client (C.chain_spec config), parts.task_manager)
  run_subcommand (import_blocks cmd) = do
    runner ← outside (C.create_runner cmd)
    C.async_run runner λ config. new_partial F config >>= λ parts.
        pure (C.import_blocks cmd parts.client parts.import_queue, parts.task_manager)
  run_subcommand (purge_chain cmd) = do
    runner ← outside (C.create_runner cmd)
    C.sync_run runner λ config. outside (C.purge_chain cmd (C.database config))
  run_subcommand (revert cmd) = do
    runner ← outside (C.create_runner cmd)
    C.async_run runner λ config. new_partial F config >>= λ parts.
        pure (C.revert cmd parts.client parts.backend, parts.task_manager)
  run_subcommand (benchmark cmd) =
      if C.runtime_benchmarks
      then (outside (C.create_runner cmd) >>= λ runner.
          C.sync_run runner λ config. outside (C.benchmark cmd config))
      else fail (
          failed (
            C.error_of_message (
              str
                "Benchmarking wasn't enabled when building the node. You can enable it with `--features runtime-benchmarks`.")))

  -- The kind of node that is started without a subcommand.
  unfoldable pub start_node : Configuration H → Starting F H.TaskManager
  start_node config = if H.is_light config.role then new_light F config else new_full F config

  unfoldable pub run : Cli → Starting F (Unit {0})
  run cli = elim cli.subcommand [
    | some subcommand ↦ run_subcommand subcommand
    | none ↦ outside (C.create_runner cli.run) >>= λ runner. C.run_node_until_exit runner start_node
  ]
