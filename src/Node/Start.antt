-- ===== src/Node/Start.antt =====
-- The start of a node without a subcommand.
use substrate_demo.Prelude.{
  ◌≡◌, Bool-cases, Option-cases, true, false, some, ◌⊎◌, inl, inr, List, [], ◌∷◌, ◌++◌, Bytes,
  is_ok, if◌then◌else◌,
}
use substrate_demo.Node.Startup.{Handles, Configuration, Framework, boot}
use substrate_demo.Node.Stages.{Stage, joined, stages}
use substrate_demo.Node.Order.{full_stages, light_stages, new_full-stages, new_light-stages}
use substrate_demo.Node.Panics.{is_panic, new_full-Calm, new_light-Calm}
use substrate_demo.Node.Command.{Shell, start_node}

-- What a node goes through before it joins the network, by its role.
abbrev pub node_stages : {H : Handles} → Configuration H → List Stage
node_stages {H} config = if H.is_light config.role then light_stages config else full_stages config

module _ {H : Handles} {F : Framework H} (C : Shell F) (config : Configuration H)
    (w : F.World) where
  start_node-is_panic :
      (is_panic (start_node C config (boot F w)).0 ≡ false)
      ⊎ ((H.is_light config.role ≡ false) × (seed : Bytes) × (config.dev_key_seed ≡ some seed))
  unfolding start_node
  start_node-is_panic = elim (Bool-cases (H.is_light config.role)) [
    | inl light ↦ inl (rw light ((new_light-Calm F config).calm (boot F w)))
    | inr full ↦ elim (Option-cases config.dev_key_seed) [
      | inl unseeded ↦ inl (simp full ((new_full-Calm F config unseeded).calm (boot F w)))
      | inr (seed, seeded) ↦ inr (full, seed, seeded)
    ]
  ]

  -- A node that starts has gone through the stages of its role in their order and has then joined
  -- the network. One whose start fails or panics has gone through the first of these stages only,
  -- and has not joined the network; a panic happens only in a node that is not light and has a
  -- development seed. For a light role the stages have no development key, no authoring and no
  -- finality votes. For any other role they are: the partial components, the network, the off-chain
  -- workers when they are enabled, the development key under the key type of the pallet when a seed
  -- is given, the tasks, the authoring of blocks for an authority, and the finality: a voter with
  -- the name of the node, and with a keystore for an authority only, or none when it is disabled.
  pub start_node-stages :
      let (r, s) = start_node C config (boot F w) in
      (((is_ok r ≡ true) × (stages F s ≡ node_stages config ++ joined ∷ []))
        ⊎ ((is_ok r ≡ false) × (left : List Stage) × (node_stages config ≡ stages F s ++ left)))
      × ((is_panic r ≡ false)
          ⊎ ((H.is_light config.role ≡ false) × (seed : Bytes) × (config.dev_key_seed ≡ some seed)))
  unfolding start_node
  start_node-stages = elim (Bool-cases (H.is_light config.role)) [
    | inl e ↦ (simp e (new_light-stages F config w), start_node-is_panic)
    | inr e ↦ (simp e (new_full-stages F config w), start_node-is_panic)
  ]
