-- ===== src/Node/Service.antt =====
-- node/src/service.rs: `new_partial`, `new_full` and `new_light`.
use substrate_demo.Prelude.{true, false, not, none, some, [], pure, ◌>>=◌, ◌>>◌, if◌then◌else◌}
use substrate_demo.Offchain.Text.{str}
use substrate_demo.Node.Startup.{
  Handles, key_type, Configuration, GrandpaConfig, Framework, Starting, call, effect, expect,
  new_full_parts, new_light_parts, new_inherent_data_providers, new_full_pool, new_light_pool,
  grandpa_block_import, light_block_import, get_slot_duration, new_import_queue, build_network,
  build_offchain_workers, insert_ephemeral_from_seed, spawn_tasks, start_aura, run_grandpa_voter,
  setup_disabled_grandpa, spawn_essential, start_network,
}
use substrate_demo.Node.Rpc.{create_full}

pub record PartialComponents (H : Handles) : Type 0 where
  pub client : H.Client
  pub backend : H.Backend
  pub task_manager : H.TaskManager
  pub import_queue : H.ImportQueue
  pub keystore : H.Keystore
  pub select_chain : H.SelectChain
  pub transaction_pool : H.TransactionPool
  pub inherent_data_providers : H.InherentDataProviders
  pub block_import : H.BlockImport
  pub grandpa_link : H.GrandpaLink

module _ {H : Handles} (F : Framework H) (config : Configuration H) where
  unfoldable pub new_partial : Starting F (PartialComponents H)
  new_partial = do
    inherent_data_providers ← effect F new_inherent_data_providers
    (client, backend, keystore, task_manager) ← call F (new_full_parts config)
    let select_chain = H.longest_chain backend
    transaction_pool ← effect F (new_full_pool config task_manager client)
    (grandpa_import, grandpa_link) ← call F (grandpa_block_import client select_chain)
    let block_import = H.aura_block_import grandpa_import client
    slot_duration ← call F (get_slot_duration client)
    import_queue ← call F (
        new_import_queue (record {
          slot_duration = slot_duration;
          block_import = block_import;
          justification_import = some grandpa_import;
          finality_proof_import = none;
          client = client;
          inherent_data_providers = inherent_data_providers;
          task_manager = task_manager;
          config = config;
          can_author = true;
        }))
    pure (record {
      client = client;
      backend = backend;
      task_manager = task_manager;
      import_queue = import_queue;
      keystore = keystore;
      select_chain = select_chain;
      transaction_pool = transaction_pool;
      inherent_data_providers = inherent_data_providers;
      block_import = block_import;
      grandpa_link = grandpa_link;
    })

  -- The key of a development node: a panic when it cannot be inserted.
  unfoldable pub insert_dev_key : H.Keystore → Starting F (Unit {0})
  insert_dev_key keystore = elim config.dev_key_seed [
    | none ↦ pure tt
    | some seed ↦ expect F (insert_ephemeral_from_seed keystore seed key_type)
  ]

  -- The off-chain workers, in both kinds of node.
  unfoldable pub start_offchain_workers :
      H.Backend → H.TaskManager → H.Client → H.Network → Starting F (Unit {0})
  start_offchain_workers backend task_manager client network =
      if config.offchain_worker_enabled
      then effect F (build_offchain_workers config backend task_manager client network)
      else pure tt

  unfoldable pub run_aura : PartialComponents H → H.Network → Starting F (Unit {0})
  run_aura parts network = do
    slot_duration ← call F (get_slot_duration parts.client)
    aura ← call F (
        start_aura (record {
          slot_duration = slot_duration;
          client = parts.client;
          select_chain = parts.select_chain;
          block_import = parts.block_import;
          transaction_pool = parts.transaction_pool;
          network = network;
          inherent_data_providers = parts.inherent_data_providers;
          force_authoring = config.force_authoring;
          keystore = parts.keystore;
        }))
    effect F (spawn_essential parts.task_manager (str "aura") aura)

  -- The authoring of blocks.
  unfoldable pub start_authoring : PartialComponents H → H.Network → Starting F (Unit {0})
  start_authoring parts network =
      if H.is_authority config.role then run_aura parts network else pure tt

  -- A node that takes no part in the consensus needs no keystore for it.
  unfoldable pub grandpa_config : H.Keystore → GrandpaConfig H
  grandpa_config keystore = record {
    gossip_duration = 333;
    justification_period = 512;
    name = some config.node_name;
    observer_enabled = false;
    keystore = if H.is_authority config.role then some keystore else none;
    is_authority = H.is_network_authority config.role;
  }

  unfoldable pub run_voter : PartialComponents H → H.Network → Starting F (Unit {0})
  run_voter parts network = do
    voter ← call F (
        run_grandpa_voter (record {
          config = grandpa_config parts.keystore;
          link = parts.grandpa_link;
          network = network;
          inherent_data_providers = parts.inherent_data_providers;
        }))
    effect F (spawn_essential parts.task_manager (str "grandpa-voter") voter)

  -- The finality of blocks.
  unfoldable pub start_grandpa : PartialComponents H → H.Network → Starting F (Unit {0})
  start_grandpa parts network =
      if not config.disable_grandpa
      then run_voter parts network
      else call F (setup_disabled_grandpa parts.client parts.inherent_data_providers network)

  unfoldable pub new_full : Starting F H.TaskManager
  new_full = do
    parts ← new_partial
    (network, network_tasks, network_starter) ← call F (
        build_network (record {
          config = config;
          client = parts.client;
          transaction_pool = parts.transaction_pool;
          task_manager = parts.task_manager;
          import_queue = parts.import_queue;
          on_demand = none;
          finality_proof_request_builder = none;
          finality_proof_provider = some (H.finality_proof_provider parts.backend parts.client);
        }))
    start_offchain_workers parts.backend parts.task_manager parts.client network
    insert_dev_key parts.keystore
    call F (
        spawn_tasks (record {
          network = network;
          client = parts.client;
          keystore = parts.keystore;
          task_manager = parts.task_manager;
          transaction_pool = parts.transaction_pool;
          rpc_extensions_builder = λ deny_unsafe. create_full (record {
            client = parts.client;
            pool = parts.transaction_pool;
            deny_unsafe = deny_unsafe;
          });
          on_demand = none;
          remote_blockchain = none;
          backend = parts.backend;
          network_tasks = network_tasks;
          config = config;
        }))
    start_authoring parts network
    start_grandpa parts network
    effect F (start_network network_starter)
    pure parts.task_manager

  unfoldable pub new_light : Starting F H.TaskManager
  new_light = do
    (client, backend, keystore, task_manager, on_demand) ← call F (new_light_parts config)
    transaction_pool ← effect F (new_light_pool config task_manager client on_demand)
    grandpa_import ← call F (light_block_import client backend on_demand)
    slot_duration ← call F (get_slot_duration client)
    inherent_data_providers ← effect F new_inherent_data_providers
    import_queue ← call F (
        new_import_queue (record {
          slot_duration = slot_duration;
          block_import = H.from_grandpa grandpa_import;
          justification_import = none;
          finality_proof_import = some grandpa_import;
          client = client;
          inherent_data_providers = inherent_data_providers;
          task_manager = task_manager;
          config = config;
          can_author = false;
        }))
    (network, network_tasks, network_starter) ← call F (
        build_network (record {
          config = config;
          client = client;
          transaction_pool = transaction_pool;
          task_manager = task_manager;
          import_queue = import_queue;
          on_demand = some on_demand;
          finality_proof_request_builder =
              some (H.create_finality_proof_request_builder grandpa_import);
          finality_proof_provider = some (H.finality_proof_provider backend client);
        }))
    start_offchain_workers backend task_manager client network
    call F (
        spawn_tasks (record {
          network = network;
          client = client;
          keystore = keystore;
          task_manager = task_manager;
          transaction_pool = transaction_pool;
          rpc_extensions_builder = λ deny_unsafe. [];
          on_demand = some on_demand;
          remote_blockchain = some (H.remote_blockchain backend);
          backend = backend;
          network_tasks = network_tasks;
          config = config;
        }))
    effect F (start_network network_starter)
    pure task_manager
