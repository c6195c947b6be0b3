-- ===== src/Node/ChainSpec.antt =====
-- node/src/chain_spec.rs. `none` for a genesis is the panic of `expect` in `get_from_seed`.
use substrate_demo.Prelude.{
  ℕ, ◌^◌, Bool, true, false, Option, none, some, List, [], ◌∷◌, ◌++◌, map, Bytes, Result, ok, err,
  ◌==◌, ◌||◌, bytes_eq, if◌then◌else◌,
}
use substrate_demo.Pallet.Types.{AccountId32}
use substrate_demo.Pallet.Store.{GenesisConfig}
use substrate_demo.Offchain.Text.{str}

-- The keys of the crates `sp_core`, `sp_consensus_aura` and `sp_finality_grandpa`, the conversion
-- of a public key to its account, and the constant that the build script makes.
pub record Crypto : Type 1 where
  pub Sr25519 : Type 0
  pub AuraId : Type 0
  pub GrandpaId : Type 0
  pub sr25519_from_string : Bytes → Option Sr25519
  pub aura_from_string : Bytes → Option AuraId
  pub grandpa_from_string : Bytes → Option GrandpaId
  pub into_account : Sr25519 → AccountId32
  pub wasm_binary : Option Bytes

pub data ChainType : Type 0 where
  development local : ChainType

-- The genesis of the pallets that the runtime is composed of.
pub record RuntimeGenesis (C : Crypto) : Type 0 where
  pub frame_system_code : Bytes
  pub pallet_balances : List (AccountId32 × ℕ)
  pub pallet_aura : List C.AuraId
  pub pallet_grandpa : List (C.GrandpaId × ℕ)
  pub pallet_sudo_key : AccountId32
  pub pallet_abc : GenesisConfig

-- The arguments of `ChainSpec::from_genesis` that are given: there are no boot nodes, and no
-- telemetry, protocol id, properties or extensions.
pub record ChainSpec (C : Crypto) : Type 0 where
  pub name : Bytes
  pub id : Bytes
  pub chain_type : ChainType
  pub genesis : Option (RuntimeGenesis C)

-- Code that may panic: `none`.
infixl 5 ◌>>=◌
abbrev pub ◌>>=◌ : {A B : Type 0} → Option A → (A → Option B) → Option B
none >>= f = none
some a >>= f = f a

-- A `vec!` of elements that may panic.
abbrev pub vec : {A : Type 0} → List (Option A) → Option (List A)
vec [] = some []
vec (x ∷ xs) = let rest = vec xs in x >>= λ a. rest >>= λ more. some (a ∷ more)

unfoldable pub get_from_seed : {Public : Type 0} → (Bytes → Option Public) → Bytes → Option Public
get_from_seed from_string seed = from_string (str "//" ++ seed)

-- `1 << 60`
abbrev pub endowment : ℕ
endowment = 2 ^ 60

abbrev pub local_testnet_endowed : List Bytes
local_testnet_endowed =
    str "Alice"
    ∷ str "Bob"
    ∷ str "Charlie"
    ∷ str "Dave"
    ∷ str "Jzh"
    ∷ str "Eve"
    ∷ str "Ferdie"
    ∷ str "Alice//stash"
    ∷ str "Bob//stash"
    ∷ str "Charlie//stash"
    ∷ str "Dave//stash"
    ∷ str "Eve//stash"
    ∷ str "Ferdie//stash"
    ∷ str "Jzh//stash"
    ∷ []

abbrev pub local_testnet_reporters : List Bytes
local_testnet_reporters = str "Alice" ∷ str "Bob" ∷ str "Charlie" ∷ str "Dave" ∷ []

abbrev wasm_missing : Bytes
wasm_missing = str "Development wasm binary not available"

module _ (C : Crypto) where
  unfoldable pub get_account_id_from_seed : Bytes → Option AccountId32
  unfolding get_from_seed
  get_account_id_from_seed seed =
      get_from_seed C.sr25519_from_string seed >>= λ public. some (C.into_account public)

  unfoldable pub authority_keys_from_seed : Bytes → Option (C.AuraId × C.GrandpaId)
  authority_keys_from_seed s = do
    aura ← get_from_seed C.aura_from_string s
    grandpa ← get_from_seed C.grandpa_from_string s
    some (aura, grandpa)

  unfoldable pub testnet_genesis :
      Bytes
      → List (C.AuraId × C.GrandpaId)
      → AccountId32
      → List AccountId32
      → Bool
      → Bool
      → List AccountId32
      → RuntimeGenesis C
  testnet_genesis wasm_binary initial_authorities root_key endowed_accounts _enable_println dev_mode
        accounts =
      record {
        frame_system_code = wasm_binary;
        pallet_balances = map (λ k. (k, endowment)) endowed_accounts;
        pallet_aura = map (λ x. x.0) initial_authorities;
        pallet_grandpa = map (λ x. (x.1, 1)) initial_authorities;
        pallet_sudo_key = root_key;
        pallet_abc = record { development_mode = dev_mode; update_result_accounts = accounts };
      }

  -- The closure given to `from_genesis`: its arguments are computed first, in their order.
  unfoldable pub genesis_of :
      Bytes → List Bytes → Bytes → List Bytes → Bool → List Bytes → Option (RuntimeGenesis C)
  genesis_of wasm_binary authorities root endowed dev_mode reporters = do
    initial_authorities ← vec (map authority_keys_from_seed authorities)
    root_key ← get_account_id_from_seed root
    endowed_accounts ← vec (map get_account_id_from_seed endowed)
    accounts ← vec (map get_account_id_from_seed reporters)
    some (
        testnet_genesis wasm_binary initial_authorities root_key endowed_accounts true dev_mode
          accounts)

  unfoldable pub development_config : Result Bytes (ChainSpec C)
  development_config = elim C.wasm_binary [
    | none ↦ err wasm_missing
    | some wasm_binary ↦ ok (record {
      name = str "Development";
      id = str "dev";
      chain_type = development;
      genesis =
          genesis_of wasm_binary (str "Alice" ∷ []) (str "Alice")
            (str "Alice" ∷ str "Bob" ∷ str "Alice//stash" ∷ str "Bob//stash" ∷ []) true
            (str "Alice" ∷ []);
    })
  ]

  unfoldable pub local_testnet_config : Result Bytes (ChainSpec C)
  local_testnet_config = elim C.wasm_binary [
    | none ↦ err wasm_missing
    | some wasm_binary ↦ ok (record {
      name = str "Local Testnet";
      id = str "local_testnet";
      chain_type = local;
      genesis =
          genesis_of wasm_binary (str "Alice" ∷ str "Bob" ∷ []) (str "Alice") local_testnet_endowed
            false local_testnet_reporters;
    })
  ]

  -- `load_spec` of node/src/command.rs. Reading a file is a parameter.
  unfoldable pub load_spec :
      (Bytes → Result Bytes (ChainSpec C)) → Bytes → Result Bytes (ChainSpec C)
  load_spec from_json_file id =
      if id == str "dev"
      then development_config
      else if id == [] || id == str "local"
      then local_testnet_config
      else from_json_file id
