-- ===== src/Tests/StartupWitnesses.antt =====
-- The theorems about the start of a node at concrete inputs.
use substrate_demo.Prelude.{
  ℕ, zero, suc, ◌≡◌, ◌⊎◌, refl, true, false, none, some, List, [], ◌∷◌, ◌++◌, nat_eq, Result, ok,
  err, is_ok, Bytes, eqb,
}
use substrate_demo.Node.Startup.{
  Handles, Configuration, Framework, Request, Reply, call, effect, expect, boot, new_full_parts,
  new_light_parts, new_inherent_data_providers, new_full_pool, new_light_pool, grandpa_block_import,
  light_block_import, get_slot_duration, new_import_queue, build_network, build_offchain_workers,
  insert_ephemeral_from_seed, spawn_tasks, start_aura, run_grandpa_voter, setup_disabled_grandpa,
  spawn_essential, start_network,
}
use substrate_demo.Node.Service.{
  new_full, new_partial, start_offchain_workers, insert_dev_key, start_authoring, run_aura,
  start_grandpa, run_voter, grandpa_config,
}
use substrate_demo.Node.Stages.{Stage, joined, stages}
use substrate_demo.Node.Command.{Shell, Cli, start_node, run}
use substrate_demo.Node.Panics.{is_panic}
use substrate_demo.Node.Start.{node_stages, start_node-stages}

-- Parts without content. Role 0 is a light node, and role 1 an authority.
abbrev handles : Handles
handles = record {
  Role = ℕ;
  is_authority = λ r. eqb r 1;
  is_network_authority = λ r. eqb r 1;
  is_light = λ r. eqb r 0;
  Settings = Unit {0};
  Client = Unit {0};
  Backend = Unit {0};
  Keystore = Unit {0};
  TaskManager = Unit {0};
  SelectChain = Unit {0};
  longest_chain = λ b. tt;
  TransactionPool = Unit {0};
  GrandpaBlockImport = Unit {0};
  GrandpaLink = Unit {0};
  BlockImport = Unit {0};
  from_grandpa = λ g. tt;
  aura_block_import = λ g c. tt;
  ImportQueue = Unit {0};
  InherentDataProviders = Unit {0};
  FinalityProofProvider = Unit {0};
  finality_proof_provider = λ b c. tt;
  ProofRequestBuilder = Unit {0};
  create_finality_proof_request_builder = λ g. tt;
  Network = Unit {0};
  NetworkTasks = Unit {0};
  NetworkStarter = Unit {0};
  OnDemand = Unit {0};
  RemoteBlockchain = Unit {0};
  remote_blockchain = λ b. tt;
  SlotDuration = Unit {0};
  Task = Unit {0};
}

reply : (q : Request handles) → Reply handles q
reply (new_full_parts _) = (tt, tt, tt, tt)
reply (new_light_parts _) = (tt, tt, tt, tt, tt)
reply new_inherent_data_providers = tt
reply (new_full_pool _ _ _) = tt
reply (new_light_pool _ _ _ _) = tt
reply (grandpa_block_import _ _) = (tt, tt)
reply (light_block_import _ _ _) = tt
reply (get_slot_duration _) = tt
reply (new_import_queue _) = tt
reply (build_network _) = (tt, tt, tt)
reply (build_offchain_workers _ _ _ _ _) = tt
reply (insert_ephemeral_from_seed _ _ _) = tt
reply (spawn_tasks _) = tt
reply (start_aura _) = tt
reply (run_grandpa_voter _) = tt
reply (setup_disabled_grandpa _ _ _) = tt
reply (spawn_essential _ _ _) = tt
reply (start_network _) = tt

-- The world counts the calls that will still succeed.
abbrev countdown : (q : Request handles) → ℕ → Result ℕ (Reply handles q) × ℕ
countdown q zero = (err 0, 0)
countdown q (suc n) = (ok (reply q), n)

abbrev framework : Framework handles
framework = record { World = ℕ; Error = ℕ; attempt = countdown; perform = λ q w. (reply q, w) }

abbrev settings : ℕ → Configuration handles
settings role = record {
  role = role;
  offchain_worker_enabled = true;
  force_authoring = false;
  node_name = 7 ∷ [];
  disable_grandpa = false;
  dev_key_seed = some (3 ∷ []);
  settings = tt;
}

-- Commands are the roles of the nodes that they run.
abbrev shell : Shell framework
shell = record {
  Cmd = ℕ;
  ChainSpecs = Unit {0};
  NetworkConfiguration = Unit {0};
  Database = Unit {0};
  chain_spec = λ c. tt;
  network = λ c. tt;
  database = λ c. tt;
  Future = Unit {0};
  build_spec = λ c s n w. (ok tt, w);
  check_block = λ c k q. tt;
  export_blocks = λ c k d. tt;
  export_state = λ c k s. tt;
  import_blocks = λ c k q. tt;
  purge_chain = λ c d w. (ok tt, w);
  revert = λ c k b. tt;
  benchmark = λ c k w. (ok tt, w);
  Runner = ℕ;
  configuration = settings;
  create_runner = λ c w. (ok c, w);
  sync_run = λ r f. f (settings r);
  async_run = λ r f s.
      let (result, s') = f (settings r) s in
      elim result [ ok _ ↦ (ok tt, s') | err e ↦ (err e, s') ];
  run_node_until_exit = λ r f s.
      let (result, s') = f (settings r) s in
      elim result [ ok _ ↦ (ok tt, s') | err e ↦ (err e, s') ];
  runtime_benchmarks = false;
  error_of_message = λ m. 1;
}

-- An authority that gets every call answered joins the network; one call fewer, and it does not.
authority_starts :
    (is_ok (new_full framework (settings 1) (boot framework 10)).0 ≡ true)
    × (is_ok (new_full framework (settings 1) (boot framework 9)).0 ≡ false)
unfolding new_full new_partial start_offchain_workers insert_dev_key start_authoring run_aura
    start_grandpa run_voter grandpa_config call effect expect
authority_starts = (refl, refl)

start_node-stages_example :
    let (r, s) = start_node shell (settings 1) (boot framework 20) in
    (((is_ok r ≡ true) × (stages framework s ≡ node_stages (settings 1) ++ joined ∷ []))
      ⊎ ((is_ok r ≡ false)
          × (left : List Stage) × (node_stages (settings 1) ≡ stages framework s ++ left)))
    × ((is_panic r ≡ false)
        ⊎ ((handles.is_light 1 ≡ false) × (seed : Bytes) × ((settings 1).dev_key_seed ≡ some seed)))
start_node-stages_example = start_node-stages shell (settings 1) 20

-- No subcommand, with the command of a light node.
abbrev lightly : Cli shell
lightly = record { subcommand = none; run = 0 }
