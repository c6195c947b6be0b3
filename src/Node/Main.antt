-- ===== src/Node/Main.antt =====
-- node/src/main.rs, and what `SubstrateCli` of node/src/command.rs tells about the program.
use substrate_demo.Prelude.{ℕ, Bytes}
use substrate_demo.Offchain.Text.{str}
use substrate_demo.Runtime.Constants.{RuntimeVersion, version}
use substrate_demo.Node.Startup.{Handles, Framework, Starting}
use substrate_demo.Node.Command.{Shell, Cli, run}

-- `env!`: the variables of the build.
pub record BuildEnv : Type 0 where
  pub env : Bytes → Bytes

abbrev impl_name : Bytes
impl_name = str "Substrate Node"

abbrev impl_version : BuildEnv → Bytes
impl_version b = b.env (str "SUBSTRATE_CLI_IMPL_VERSION")

abbrev description : BuildEnv → Bytes
description b = b.env (str "CARGO_PKG_DESCRIPTION")

abbrev author : BuildEnv → Bytes
author b = b.env (str "CARGO_PKG_AUTHORS")

abbrev support_url : Bytes
support_url = str "support.anonymous.an"

abbrev copyright_start_year : ℕ
copyright_start_year = 2017

-- The same for every chain specification.
abbrev native_runtime_version : {ChainSpecs Apis : Type 0} → Apis → ChainSpecs → RuntimeVersion Apis
native_runtime_version runtime_api_versions _ = version runtime_api_versions

module _ {H : Handles} {F : Framework H} (C : Shell F) where
  -- The arguments of the program, once they are parsed.
  abbrev main : Cli C → Starting F (Unit {0})
  main = run C
