-- ===== src/Node/Genesis.antt =====
-- What the chain specifications of node/src/chain_spec.rs give to the pallets.
use substrate_demo.Prelude.{
  ℕ, ◌+◌, ◌*◌, ◌^◌, ◌<◌, ◌≡◌, refl, ap, sym, ◌∙◌, inl, inr, Bool, true, false, Bool-cases, ◌==◌,
  bytes_eq, Option, Option-cases, none, some, List, [], ◌∷◌, map, Bytes, Result, ok, arith, length,
  contains,
}
use substrate_demo.Pallet.Types.{AccountId32}
use substrate_demo.Pallet.Config.{Trait}
use substrate_demo.Pallet.Store.{Store, build}
use substrate_demo.Pallet.Accounts.{any_allowed, allow_to_update_result}
use substrate_demo.Offchain.Text.{str}
use substrate_demo.Node.ChainSpec.{
  Crypto, RuntimeGenesis, ChainSpec, vec, ◌>>=◌, endowment, get_account_id_from_seed,
  authority_keys_from_seed, testnet_genesis, genesis_of, development_config, local_testnet_config,
  local_testnet_endowed, local_testnet_reporters, load_spec,
}

vec-length :
    {A B : Type 0} (f : A → Option B) (xs : List A) {ys : List B}
    → vec (map f xs) ≡ some ys
    → length ys ≡ length xs
vec-length f [] {ys} h = ground (arith, h)
vec-length f (x ∷ xs) {ys} h = elim (Option-cases (f x)) [
  | inl panics ↦ absurd (ground (arith, h, panics))
  | inr (y, one) ↦ elim (Option-cases (vec (map f xs))) [
    | inl panics ↦ absurd (ground (arith, h, one, panics))
    | inr (rest, more) ↦ ground (arith, h, one, more, vec-length f xs more)
  ]
]

-- Whom the list admits comes from one of the seeds.
vec-any_allowed :
    (f : Bytes → Option AccountId32) (seeds : List Bytes) {accounts : List AccountId32}
    (a : AccountId32)
    → vec (map f seeds) ≡ some accounts
    → any_allowed accounts (a ∷ []) ≡ true
    → (seed : Bytes) × (contains seed seeds ≡ true) × (f seed ≡ some a)
unfolding any_allowed
vec-any_allowed f [] {accounts} a h allowed = absurd (ground (arith, h, allowed))
vec-any_allowed f (seed ∷ seeds) {accounts} a h allowed = elim (Option-cases (f seed)) [
  | inl panics ↦ absurd (ground (arith, h, panics))
  | inr (y, one) ↦ elim (Option-cases (vec (map f seeds))) [
    | inl panics ↦ absurd (ground (arith, h, one, panics))
    | inr (rest, more) ↦ elim (Bool-cases (any_allowed rest (a ∷ []))) [
      | inl later ↦
          let (s, there, maps) = vec-any_allowed f seeds a more later in
          (s, ground (arith, there), maps)
      | inr here ↦ (seed, ground arith, ground (arith, h, one, more, allowed, here))
    ]
  ]
]

abbrev pub total : {A : Type 0} → List (A × ℕ) → ℕ
total [] = 0
total ((_, v) ∷ rest) = v + total rest

total-endowed :
    {A : Type 0} (xs : List A) → total (map (λ k. (k, endowment)) xs) ≡ length xs * endowment
total-endowed [] = omega arith
total-endowed (x ∷ xs) = omega (arith, total-endowed xs)

pub bind-some :
    {A B : Type 0} (o : Option A) (f : A → Option B) {b : B}
    → (o >>= f) ≡ some b
    → (a : A) × (o ≡ some a) × (f a ≡ some b)
bind-some none f h = absurd (ground (arith, h))
bind-some (some a) f h = (a, refl, h)

module _ (C : Crypto) where
  genesis_of-some :
      (wasm : Bytes) (authorities : List Bytes) (root : Bytes) (endowed : List Bytes)
      (dev_mode : Bool) (reporters : List Bytes) {g : RuntimeGenesis C}
      → genesis_of C wasm authorities root endowed dev_mode reporters ≡ some g
      → (accounts : List AccountId32) × (reporting : List AccountId32) × (vec
            (map (get_account_id_from_seed C) endowed)
          ≡ some accounts)
        × (vec (map (get_account_id_from_seed C) reporters) ≡ some reporting)
        × (g.pallet_balances ≡ map (λ k. (k, endowment)) accounts)
        × (g.pallet_abc.development_mode ≡ dev_mode)
        × (g.pallet_abc.update_result_accounts ≡ reporting)
  unfolding genesis_of testnet_genesis
  genesis_of-some wasm authorities root endowed dev_mode reporters h =
      let (authority_keys, _, h₁) =
        bind-some (vec (map (authority_keys_from_seed C) authorities)) _ h in
      let (root_key, _, h₂) = bind-some (get_account_id_from_seed C root) _ h₁ in
      let (accounts, funded, h₃) =
        bind-some (vec (map (get_account_id_from_seed C) endowed)) _ h₂ in
      let (reporting, named, h₄) =
        bind-some (vec (map (get_account_id_from_seed C) reporters)) _ h₃ in
      (
        accounts,
        reporting,
        funded,
        named,
        ground (arith, h₄),
        ground (arith, h₄),
        ground (arith, h₄),
      )

  local_testnet_config-genesis :
      {spec : ChainSpec C} {g : RuntimeGenesis C}
      → local_testnet_config C ≡ ok spec
      → spec.genesis ≡ some g
      → (wasm : Bytes) × (genesis_of C wasm
            (str "Alice" ∷ str "Bob" ∷ [])
            (str "Alice")
            local_testnet_endowed
            false
            local_testnet_reporters
          ≡ some g)
  unfolding local_testnet_config
  local_testnet_config-genesis {spec} {g} made starts = elim (Option-cases C.wasm_binary) [
    | inl missing ↦ absurd (ground (arith, made, missing))
    | inr (wasm, built) ↦ (wasm, ground (arith, made, built, starts))
  ]

  development_config-genesis :
      {spec : ChainSpec C} {g : RuntimeGenesis C}
      → development_config C ≡ ok spec
      → spec.genesis ≡ some g
      → (wasm : Bytes) × (genesis_of C wasm
            (str "Alice" ∷ [])
            (str "Alice")
            (str "Alice" ∷ str "Bob" ∷ str "Alice//stash" ∷ str "Bob//stash" ∷ [])
            true
            (str "Alice" ∷ [])
          ≡ some g)
  unfolding development_config
  development_config-genesis {spec} {g} made starts = elim (Option-cases C.wasm_binary) [
    | inl missing ↦ absurd (ground (arith, made, missing))
    | inr (wasm, built) ↦ (wasm, ground (arith, made, built, starts))
  ]

  -- Whoever may report results in a storage that is built from the genesis of the local test network
  -- is the account of one of the seeds Alice, Bob, Charlie and Dave.
  pub local_testnet_config-reporters :
      {spec : ChainSpec C} {g : RuntimeGenesis C}
      → local_testnet_config C ≡ ok spec
      → spec.genesis ≡ some g
      → {T : Trait} (s : Store T) (account : AccountId32)
      → allow_to_update_result (build g.pallet_abc s) (account ∷ []) ≡ true
      → (seed : Bytes) × (contains seed (str "Alice" ∷ str "Bob" ∷ str "Charlie" ∷ str "Dave" ∷ [])
          ≡ true)
        × (get_account_id_from_seed C seed ≡ some account)
  unfolding local_testnet_config allow_to_update_result build
  local_testnet_config-reporters {spec} {g} made starts s account allowed =
      let (wasm, h) = local_testnet_config-genesis made starts in
      let (_, reporting, _, named, _, _, listed) = genesis_of-some _ _ _ _ _ _ h in
      vec-any_allowed (get_account_id_from_seed C) local_testnet_reporters account named
        (rw (sym listed) allowed)

  -- The endowments in a genesis of the local test network are 14 times 2^60 in all, which is less than 2^64.
  local_testnet_config-total :
      {spec : ChainSpec C} {g : RuntimeGenesis C}
      → local_testnet_config C ≡ ok spec
      → spec.genesis ≡ some g
      → (total g.pallet_balances ≡ 14 * 2 ^ 60) × (total g.pallet_balances < 2 ^ 64)
  unfolding local_testnet_config
  local_testnet_config-total {spec} {g} made starts =
      let (wasm, h) = local_testnet_config-genesis made starts in
      let (accounts, _, funded, _, endowed, _, _) = genesis_of-some _ _ _ _ _ _ h in
      let n = vec-length (get_account_id_from_seed C) local_testnet_endowed funded in
      let t = ap total endowed ∙ total-endowed accounts in
      (omega (arith, n, t), omega (arith, n, t))

  -- When the id is `dev`, empty or `local` and its specification has a genesis, that genesis is in the
  -- development mode just if the id is `dev`.
  load_spec-development_mode :
      (from_json_file : Bytes → Result Bytes (ChainSpec C)) (id : Bytes) {spec : ChainSpec C}
      {g : RuntimeGenesis C}
      → contains id (str "dev" ∷ [] ∷ str "local" ∷ []) ≡ true
      → load_spec C from_json_file id ≡ ok spec
      → spec.genesis ≡ some g
      → g.pallet_abc.development_mode ≡ (id == str "dev")
  unfolding load_spec
  load_spec-development_mode from_json_file id {spec} {g} known made starts =
      elim (Bool-cases (id == str "dev")) [
        | inl dev ↦
            let (_, h) =
              development_config-genesis {spec = spec} (ground (arith, made, dev)) starts in
            let (_, _, _, _, _, mode, _) = genesis_of-some _ _ _ _ _ _ h in rw dev mode
        | inr other ↦
            let (_, h) =
              local_testnet_config-genesis {spec = spec} (ground (arith, made, other, known))
                starts in
            let (_, _, _, _, _, mode, _) = genesis_of-some _ _ _ _ _ _ h in rw other mode
      ]
