-- ===== src/Tests/NodeWitnesses.antt =====
-- The theorems about the chain specifications at concrete inputs.
use substrate_demo.Prelude.{◌≡◌, refl, true, false, some, List, [], ◌∷◌, Bytes, bytes_eq, contains}
use substrate_demo.Pallet.Store.{build}
use substrate_demo.Pallet.Genesis.{empty_store}
use substrate_demo.Pallet.Accounts.{allow_to_update_result}
use substrate_demo.Offchain.Text.{str}
use substrate_demo.Node.ChainSpec.{
  Crypto, RuntimeGenesis, ChainSpec, local, development, development_config,
  get_account_id_from_seed, authority_keys_from_seed, genesis_of, testnet_genesis,
  local_testnet_config, local_testnet_endowed, local_testnet_reporters,
}
use substrate_demo.Node.Genesis.{local_testnet_config-reporters}
use substrate_demo.Runtime.Genesis.{dev_genesis, dev_genesis-development_config}
use substrate_demo.Tests.Mock.{mock}
use substrate_demo.Tests.Samples.{purse}

-- Keys are their seeds.
abbrev crypto : Crypto
crypto = record {
  Sr25519 = Bytes;
  AuraId = Bytes;
  GrandpaId = Bytes;
  sr25519_from_string = λ s. some s;
  aura_from_string = λ s. some s;
  grandpa_from_string = λ s. some s;
  into_account = λ k. k;
  wasm_binary = some [];
}

abbrev accounts_of_seeds : List Bytes → List Bytes
accounts_of_seeds [] = []
accounts_of_seeds (s ∷ ss) = (0x2f ∷ 0x2f ∷ s) ∷ accounts_of_seeds ss

abbrev local_genesis : RuntimeGenesis crypto
local_genesis =
    testnet_genesis crypto [] ((str "//Alice", str "//Alice") ∷ (str "//Bob", str "//Bob") ∷ [])
      (str "//Alice") (accounts_of_seeds local_testnet_endowed) true false
      (accounts_of_seeds local_testnet_reporters)

abbrev local_spec : ChainSpec crypto
local_spec = record {
  name = str "Local Testnet";
  id = str "local_testnet";
  chain_type = local;
  genesis = some local_genesis;
}

local_testnet_config-reporters_example :
    (seed : Bytes) × (contains seed (str "Alice" ∷ str "Bob" ∷ str "Charlie" ∷ str "Dave" ∷ [])
      ≡ true)
    × (get_account_id_from_seed crypto seed ≡ some (str "//Dave"))
unfolding local_testnet_config genesis_of get_account_id_from_seed authority_keys_from_seed
    testnet_genesis allow_to_update_result build bytes_eq
local_testnet_config-reporters_example =
    local_testnet_config-reporters crypto {spec = local_spec} {g = local_genesis} refl refl
      {T = mock} (empty_store purse) (str "//Dave") refl

abbrev development_genesis : RuntimeGenesis crypto
development_genesis =
    testnet_genesis crypto [] ((str "//Alice", str "//Alice") ∷ []) (str "//Alice")
      (accounts_of_seeds (str "Alice" ∷ str "Bob" ∷ str "Alice//stash" ∷ str "Bob//stash" ∷ []))
      true true (accounts_of_seeds (str "Alice" ∷ []))

abbrev development_spec : ChainSpec crypto
development_spec = record {
  name = str "Development";
  id = str "dev";
  chain_type = development;
  genesis = some development_genesis;
}

dev_genesis-development_config_example :
    dev_genesis crypto
    ≡ some (record {
      frame_system_code = [];
      pallet_balances = development_genesis.pallet_balances;
      pallet_sudo_key = str "//Alice";
    })
unfolding development_config genesis_of get_account_id_from_seed authority_keys_from_seed
    testnet_genesis
dev_genesis-development_config_example =
    dev_genesis-development_config crypto {spec = development_spec} {g = development_genesis} refl
      refl
