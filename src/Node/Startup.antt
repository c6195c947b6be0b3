-- ===== src/Node/Startup.antt =====
-- What starting a node asks of the framework, with the arguments that node/src/service.rs gives:
-- the framework's parts are opaque, and every call of it that may fail or that has an effect is a
-- request, which is kept in a log. Of the arguments, the telemetry connections, the registry of
-- metrics, the default voting rule and the empty voter state are left out; the proposer of blocks
-- stands as the pool that it is made of.
use substrate_demo.Prelude.{ℕ, Bool, Option, List, [], ◌∷◌, ◌++◌, Bytes, Result, ok, err, Action}

-- The types of the framework's parts, and its functions without effects.
pub record Handles : Type 1 where
  pub Role : Type 0
  pub is_authority : Role → Bool
  pub is_network_authority : Role → Bool
  pub is_light : Role → Bool
  pub Settings : Type 0
  pub Client : Type 0
  pub Backend : Type 0
  pub Keystore : Type 0
  pub TaskManager : Type 0
  pub SelectChain : Type 0
  pub longest_chain : Backend → SelectChain
  pub TransactionPool : Type 0
  pub GrandpaBlockImport : Type 0
  pub GrandpaLink : Type 0
  pub BlockImport : Type 0
  pub from_grandpa : GrandpaBlockImport → BlockImport
  pub aura_block_import : GrandpaBlockImport → Client → BlockImport
  pub ImportQueue : Type 0
  pub InherentDataProviders : Type 0
  pub FinalityProofProvider : Type 0
  pub finality_proof_provider : Backend → Client → FinalityProofProvider
  pub ProofRequestBuilder : Type 0
  pub create_finality_proof_request_builder : GrandpaBlockImport → ProofRequestBuilder
  pub Network : Type 0
  pub NetworkTasks : Type 0
  pub NetworkStarter : Type 0
  pub OnDemand : Type 0
  pub RemoteBlockchain : Type 0
  pub remote_blockchain : Backend → RemoteBlockchain
  pub SlotDuration : Type 0
  pub Task : Type 0

-- `KEY_TYPE` of pallets/abc-demo/src/lib.rs: `*b"demo"`
abbrev pub key_type : Bytes
key_type = 0x64 ∷ 0x65 ∷ 0x6d ∷ 0x6f ∷ []

module _ (H : Handles) where
  -- The fields of the configuration that the node reads; `settings` are those that only the
  -- framework reads.
  pub record Configuration : Type 0 where
    pub role : H.Role
    pub offchain_worker_enabled : Bool
    pub force_authoring : Bool
    pub node_name : Bytes
    pub disable_grandpa : Bool
    pub dev_key_seed : Option Bytes
    pub settings : H.Settings

  -- A handler of remote calls.
  pub data RpcHandler : Type 0 where
    full_system : (client : H.Client) (pool : H.TransactionPool) (deny_unsafe : Bool) → RpcHandler
    transaction_payment : (client : H.Client) → RpcHandler

  pub record ImportQueueParams : Type 0 where
    pub slot_duration : H.SlotDuration
    pub block_import : H.BlockImport
    pub justification_import : Option H.GrandpaBlockImport
    pub finality_proof_import : Option H.GrandpaBlockImport
    pub client : H.Client
    pub inherent_data_providers : H.InherentDataProviders
    pub task_manager : H.TaskManager
    pub config : Configuration
    -- `CanAuthorWithNativeVersion`, or `NeverCanAuthor`
    pub can_author : Bool

  pub record BuildNetworkParams : Type 0 where
    pub config : Configuration
    pub client : H.Client
    pub transaction_pool : H.TransactionPool
    pub task_manager : H.TaskManager
    pub import_queue : H.ImportQueue
    pub on_demand : Option H.OnDemand
    pub finality_proof_request_builder : Option H.ProofRequestBuilder
    pub finality_proof_provider : Option H.FinalityProofProvider

  pub record SpawnTasksParams : Type 0 where
    pub network : H.Network
    pub client : H.Client
    pub keystore : H.Keystore
    pub task_manager : H.TaskManager
    pub transaction_pool : H.TransactionPool
    pub rpc_extensions_builder : Bool → List RpcHandler
    pub on_demand : Option H.OnDemand
    pub remote_blockchain : Option H.RemoteBlockchain
    pub backend : H.Backend
    pub network_tasks : H.NetworkTasks
    pub config : Configuration

  pub record StartAuraParams : Type 0 where
    pub slot_duration : H.SlotDuration
    pub client : H.Client
    pub select_chain : H.SelectChain
    pub block_import : H.BlockImport
    pub transaction_pool : H.TransactionPool
    pub network : H.Network
    pub inherent_data_providers : H.InherentDataProviders
    pub force_authoring : Bool
    pub keystore : H.Keystore

  pub record GrandpaConfig : Type 0 where
    pub gossip_duration : ℕ
    pub justification_period : ℕ
    pub name : Option Bytes
    pub observer_enabled : Bool
    pub keystore : Option H.Keystore
    pub is_authority : Bool

  pub record GrandpaParams : Type 0 where
    pub config : GrandpaConfig
    pub link : H.GrandpaLink
    pub network : H.Network
    pub inherent_data_providers : H.InherentDataProviders

  pub data Request : Type 0 where
    new_full_parts new_light_parts : (config : Configuration) → Request
    new_inherent_data_providers : Request
    new_full_pool :
        (config : Configuration) (task_manager : H.TaskManager) (client : H.Client) → Request
    new_light_pool :
        (config : Configuration) (task_manager : H.TaskManager) (client : H.Client)
        (on_demand : H.OnDemand)
        → Request
    grandpa_block_import : (client : H.Client) (select_chain : H.SelectChain) → Request
    light_block_import : (client : H.Client) (backend : H.Backend) (checker : H.OnDemand) → Request
    get_slot_duration : (client : H.Client) → Request
    new_import_queue : (params : ImportQueueParams) → Request
    build_network : (params : BuildNetworkParams) → Request
    build_offchain_workers :
        (config : Configuration) (backend : H.Backend) (task_manager : H.TaskManager)
        (client : H.Client) (network : H.Network)
        → Request
    insert_ephemeral_from_seed : (keystore : H.Keystore) (seed kind : Bytes) → Request
    spawn_tasks : (params : SpawnTasksParams) → Request
    start_aura : (params : StartAuraParams) → Request
    run_grandpa_voter : (params : GrandpaParams) → Request
    setup_disabled_grandpa :
        (client : H.Client) (providers : H.InherentDataProviders) (network : H.Network) → Request
    spawn_essential : (task_manager : H.TaskManager) (name : Bytes) (task : H.Task) → Request
    start_network : (starter : H.NetworkStarter) → Request

  -- What the framework gives back.
  abbrev pub Reply : Request → Type 0
  Reply (new_full_parts config) = H.Client × H.Backend × H.Keystore × H.TaskManager
  Reply (new_light_parts config) = H.Client × H.Backend × H.Keystore × H.TaskManager × H.OnDemand
  Reply new_inherent_data_providers = H.InherentDataProviders
  Reply (new_full_pool config task_manager client) = H.TransactionPool
  Reply (new_light_pool config task_manager client on_demand) = H.TransactionPool
  Reply (grandpa_block_import client select_chain) = H.GrandpaBlockImport × H.GrandpaLink
  Reply (light_block_import client backend checker) = H.GrandpaBlockImport
  Reply (get_slot_duration client) = H.SlotDuration
  Reply (new_import_queue params) = H.ImportQueue
  Reply (build_network params) = H.Network × H.NetworkTasks × H.NetworkStarter
  Reply (build_offchain_workers config backend task_manager client network) = Unit {0}
  Reply (insert_ephemeral_from_seed keystore seed kind) = Unit {0}
  Reply (spawn_tasks params) = Unit {0}
  Reply (start_aura params) = H.Task
  Reply (run_grandpa_voter params) = H.Task
  Reply (setup_disabled_grandpa client providers network) = Unit {0}
  Reply (spawn_essential task_manager name task) = Unit {0}
  Reply (start_network starter) = Unit {0}

-- How the framework answers: calls that may fail, and calls that may not.
pub record Framework (H : Handles) : Type 1 where
  pub World : Type 0
  pub Error : Type 0
  pub attempt : (q : Request H) → World → Result Error (Reply H q) × World
  pub perform : (q : Request H) → World → Reply H q × World

-- The start of a node fails with an error of the framework, or panics.
pub data Failure (E : Type 0) : Type 0 where
  failed : E → Failure E
  panicked : Failure E

pub record Boot {H : Handles} (F : Framework H) : Type 0 where
  pub world : F.World
  pub log : List (Request H)

module _ {H : Handles} (F : Framework H) where
  abbrev pub Starting : Type 0 → Type 0
  Starting A = Action (Boot F) (Failure F.Error) A

  abbrev pub boot : F.World → Boot F
  boot w = record { world = w; log = [] }

  abbrev pub logged : Request H → F.World → Boot F → Boot F
  logged q w s = record { world = w; log = s.log ++ q ∷ [] }

  -- A call with `?`.
  unfoldable pub call : (q : Request H) → Starting (Reply H q)
  call q s =
      let (r, w) = F.attempt q s.world in
      elim r [ ok a ↦ (ok a, logged q w s) | err e ↦ (err (failed e), logged q w s) ]

  -- A call that cannot fail.
  unfoldable pub effect : (q : Request H) → Starting (Reply H q)
  effect q s = let (a, w) = F.perform q s.world in (ok a, logged q w s)

  -- A call with `expect`.
  unfoldable pub expect : (q : Request H) → Starting (Reply H q)
  expect q s =
      let (r, w) = F.attempt q s.world in
      elim r [ ok a ↦ (ok a, logged q w s) | err e ↦ (err panicked, logged q w s) ]
