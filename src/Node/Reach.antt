-- ===== src/Node/Reach.antt =====
-- How far each subcommand of the command line goes in starting a node.
use substrate_demo.Prelude.{◌≡◌, Option, none, some, ◌⊎◌, List, [], ◌∷◌, ◌++◌, ok, err, false}
use substrate_demo.Node.Startup.{Handles, Configuration, Framework, boot, Starting}
use substrate_demo.Node.Service.{new_partial}
use substrate_demo.Node.Stages.{Stage, joined, stages}
use substrate_demo.Node.Order.{partial_stages}
use substrate_demo.Node.Start.{node_stages}
use substrate_demo.Node.Command.{
  Shell, IsLawfulShell, Subcommand, build_spec, check_block, export_blocks, export_state,
  import_blocks, purge_chain, revert, benchmark, Cli, start_node, run,
}

module _ {H : Handles} (F : Framework H) where
  -- From the first request on, `m` takes no stages but the first ones of `ys`.
  record Within {A : Type 0} (ys : List Stage) (m : Starting F A) : Type 0 where
    pub reaches : (w : F.World) → (left : List Stage) × (ys ≡ stages F (m (boot F w)).1 ++ left)

module _ {H : Handles} {F : Framework H} (C : Shell F) where
  abbrev pub argument_of : Subcommand C → C.Cmd
  argument_of (build_spec cmd) = cmd
  argument_of (check_block cmd) = cmd
  argument_of (export_blocks cmd) = cmd
  argument_of (export_state cmd) = cmd
  argument_of (import_blocks cmd) = cmd
  argument_of (purge_chain cmd) = cmd
  argument_of (revert cmd) = cmd
  argument_of (benchmark cmd) = cmd

  -- The command whose arguments the runner is made of.
  abbrev pub command_of : Cli C → C.Cmd
  command_of cli = elim cli.subcommand [ none ↦ cli.run | some sub ↦ argument_of sub ]

  -- How far a subcommand may go; without one, a node is started as its role says.
  abbrev pub command_stages : Option (Subcommand C) → Configuration H → List Stage
  command_stages none config = node_stages config ++ joined ∷ []
  command_stages (some (build_spec _)) config = []
  command_stages (some (check_block _)) config = partial_stages
  command_stages (some (export_blocks _)) config = partial_stages
  command_stages (some (export_state _)) config = partial_stages
  command_stages (some (import_blocks _)) config = partial_stages
  command_stages (some (purge_chain _)) config = []
  command_stages (some (revert _)) config = partial_stages
  command_stages (some (benchmark _)) config = []

  -- What a command asks of the framework once it has a runner: the node for its role is started,
  -- the partial components are made, or nothing at all.
  abbrev pub asked : Option (Subcommand C) → Configuration H → F.World → List Stage
  asked none config w = stages F (start_node C config (boot F w)).1
  asked (some (build_spec _)) config w = []
  asked (some (check_block _)) config w = stages F (new_partial F config (boot F w)).1
  asked (some (export_blocks _)) config w = stages F (new_partial F config (boot F w)).1
  asked (some (export_state _)) config w = stages F (new_partial F config (boot F w)).1
  asked (some (import_blocks _)) config w = stages F (new_partial F config (boot F w)).1
  asked (some (purge_chain _)) config w = []
  asked (some (revert _)) config w = stages F (new_partial F config (boot F w)).1
  asked (some (benchmark _)) config w = []

  -- The command has no runner, or it is a benchmark and the node was built without them.
  abbrev pub IsNotBegun : Cli C → F.World → Type 0
  IsNotBegun cli w =
      ((e : F.Error) × ((C.create_runner (command_of cli) w).0 ≡ err e))
      ⊎ ((C.runtime_benchmarks ≡ false) × (cmd : C.Cmd) × (cli.subcommand ≡ some (benchmark cmd)))

  module _ (L : IsLawfulShell C) where
    abbrev Outcome : Cli C → Starting F (Unit {0}) → Type 0
    Outcome cli m =
        (w : F.World)
        → ((runner : C.Runner) × ((C.create_runner (command_of cli) w).0 ≡ ok runner)
            × (stages F (m (boot F w)).1
                ≡ asked cli.subcommand (C.configuration runner)
                    (C.create_runner (command_of cli) w).1)
            × (left : List Stage) × (command_stages cli.subcommand (C.configuration runner)
                ≡ stages F (m (boot F w)).1 ++ left))
          ⊎ (IsNotBegun cli w × (stages F (m (boot F w)).1 ≡ []))
