-- ===== src/Runtime/Genesis.antt =====
-- runtime/src/genesis.rs, a genesis that no module of the runtime names, beside the one of
-- node/src/chain_spec.rs. `none` is the panic of an `expect`.
use mathlib.Core.Option.{some-injective}
use substrate_demo.Prelude.{
  ℕ, ◌^◌, ◌++◌, ◌≡◌, ◌∙◌, ap, refl, true, Option, Option-cases, some, List, [], ◌∷◌, map, inl, inr,
  Bytes, ok, arith,
}
use substrate_demo.Pallet.Types.{AccountId32}
use substrate_demo.Offchain.Text.{str}
use substrate_demo.Node.ChainSpec.{
  Crypto, ChainSpec, RuntimeGenesis, vec, ◌>>=◌, endowment, get_from_seed, get_account_id_from_seed,
  authority_keys_from_seed, genesis_of, development_config,
}
use substrate_demo.Node.ChainSpec
use substrate_demo.Node.Genesis.{bind-some}

-- `GenesisConfig` with the fields that this file gives.
pub record GenesisConfig : Type 0 where
  pub frame_system_code : Bytes
  pub pallet_balances : List (AccountId32 × ℕ)
  pub pallet_sudo_key : AccountId32

abbrev dev_endowed : List Bytes
dev_endowed = str "Alice" ∷ str "Bob" ∷ str "Alice//stash" ∷ str "Bob//stash" ∷ []

-- The helper of this file, beside that of the node.
unfoldable seed_public : {Public : Type 0} → (Bytes → Option Public) → Bytes → Option Public
seed_public from_string seed = from_string (str "//" ++ seed)

-- `1 << 60`
abbrev helper_endowment : ℕ
helper_endowment = 2 ^ 60

module _ (C : Crypto) where
  unfoldable pub account_id_from_seed : Bytes → Option AccountId32
  unfolding seed_public
  account_id_from_seed seed =
      seed_public C.sr25519_from_string seed >>= λ public. some (C.into_account public)

  unfoldable pub testnet_genesis : AccountId32 → List AccountId32 → Option GenesisConfig
  testnet_genesis root_key endowed_accounts = C.wasm_binary >>= λ code. some (record {
    frame_system_code = code;
    pallet_balances = map (λ k. (k, helper_endowment)) endowed_accounts;
    pallet_sudo_key = root_key;
  })

  unfoldable pub dev_genesis : Option GenesisConfig
  dev_genesis = do
    root_key ← account_id_from_seed (str "Alice")
    endowed_accounts ← vec (map account_id_from_seed dev_endowed)
    testnet_genesis root_key endowed_accounts

  abbrev of_development : RuntimeGenesis C → GenesisConfig
  of_development g = record {
    frame_system_code = g.frame_system_code;
    pallet_balances = g.pallet_balances;
    pallet_sudo_key = g.pallet_sudo_key;
  }

  account_id_from_seed_lem : account_id_from_seed ≡ get_account_id_from_seed C
  unfolding account_id_from_seed get_account_id_from_seed get_from_seed
  account_id_from_seed_lem = refl

  dev_genesis-some :
      {wasm : Bytes} {root : AccountId32} {endowed : List AccountId32}
      → C.wasm_binary ≡ some wasm
      → get_account_id_from_seed C (str "Alice") ≡ some root
      → vec (map (get_account_id_from_seed C) dev_endowed) ≡ some endowed
      → dev_genesis
        ≡ some (record {
          frame_system_code = wasm;
          pallet_balances = map (λ k. (k, endowment)) endowed;
          pallet_sudo_key = root;
        })
  unfolding dev_genesis testnet_genesis
  dev_genesis-some {wasm} {root} {endowed} built rooted funded = rw (account_id_from_seed_lem) (
      ap
        (λ o.
          o >>= λ root. vec (map (get_account_id_from_seed C) dev_endowed) >>= testnet_genesis root)
        rooted
      ∙ ap (λ o. o >>= testnet_genesis root) funded
      ∙ rw built refl)

  -- When the development specification has a genesis, the genesis of the runtime's helper is the
  -- part of it that gives the code, the balances and the key of the superuser.
  pub dev_genesis-development_config :
      {spec : ChainSpec C} {g : RuntimeGenesis C}
      → development_config C ≡ ok spec
      → spec.genesis ≡ some g
      → dev_genesis ≡ some (of_development g)
  unfolding development_config genesis_of ChainSpec.testnet_genesis
  dev_genesis-development_config {spec} {g} made given = elim (Option-cases C.wasm_binary) [
    | inl missing ↦ absurd (ground (arith, made, missing))
    | inr (wasm, built) ↦
        let h : genesis_of C wasm (str "Alice" ∷ []) (str "Alice") dev_endowed true
              (str "Alice" ∷ [])
            ≡ some g =
          ground (arith, made, built, given) in
        let (authorities, _, h₁) =
          bind-some (vec (map (authority_keys_from_seed C) (str "Alice" ∷ []))) _ h in
        let (root, rooted, h₂) = bind-some (get_account_id_from_seed C (str "Alice")) _ h₁ in
        let (accounts, funded, h₃) =
          bind-some (vec (map (get_account_id_from_seed C) dev_endowed)) _ h₂ in
        let (reporting, _, h₄) =
          bind-some (vec (map (get_account_id_from_seed C) (str "Alice" ∷ []))) _ h₃ in
        dev_genesis-some built rooted funded
        ∙ ap (λ g. some (of_development g)) (some-injective _ _ h₄)
  ]
