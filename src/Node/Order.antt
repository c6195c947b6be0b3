-- ===== src/Node/Order.antt =====
-- In which order a node is started, and what happens when a part of it fails.
use mathlib.Core.List.{append-nil, append_assoc}
use substrate_demo.Prelude.{
  ◌≡◌, ap, sym, ◌∙◌, Bool, Bool-cases, Option-cases, true, false, none, some, ◌⊎◌, inl, inr, List,
  [], ◌∷◌, ◌++◌, is_ok, pure, if◌then◌else◌,
}
use substrate_demo.Offchain.Text.{str}
use substrate_demo.Node.Startup.{
  Handles, Framework, boot, Starting, Configuration, build_offchain_workers,
  insert_ephemeral_from_seed, spawn_essential, setup_disabled_grandpa, key_type,
}
use substrate_demo.Node.Service.{
  PartialComponents, new_partial, insert_dev_key, start_offchain_workers, run_aura, start_authoring,
  run_voter, grandpa_config, start_grandpa, new_full, new_light,
}
use substrate_demo.Node.Stages.{
  Stage, full_parts, light_parts, providers, pool, block_import, slot, network, offchain_workers,
  tasks, import_queue, key, aura, voter, no_finality, joined, essential, stages, Takes, pure-Takes,
  call-Takes, expect-Takes, does-Takes, last-Takes, >>=-Takes,
}

abbrev pub partial_stages : List Stage
partial_stages = providers ∷ full_parts ∷ pool ∷ block_import ∷ slot ∷ import_queue true ∷ []

module _ {H : Handles} (config : Configuration H) where
  abbrev worker_stages : List Stage
  worker_stages = if config.offchain_worker_enabled then offchain_workers ∷ [] else []

  abbrev key_stages : List Stage
  key_stages = elim config.dev_key_seed [ none ↦ [] | some seed ↦ key seed key_type ∷ [] ]

  abbrev authoring_stages : List Stage
  authoring_stages =
      if H.is_authority config.role
      then slot ∷ aura config.force_authoring ∷ essential (str "aura") ∷ []
      else []

  abbrev finality_stages : List Stage
  finality_stages =
      if config.disable_grandpa
      then no_finality ∷ []
      else voter (some config.node_name) (H.is_authority config.role)
          (H.is_network_authority config.role)
        ∷ essential (str "grandpa-voter")
        ∷ []

  -- The stages of a full node before it joins the network.
  unfoldable pub full_stages : List Stage
  full_stages =
      partial_stages
      ++ network ∷ []
      ++ worker_stages
      ++ key_stages
      ++ tasks ∷ []
      ++ authoring_stages
      ++ finality_stages

  unfoldable pub light_stages : List Stage
  light_stages =
      light_parts ∷ pool ∷ block_import ∷ slot ∷ providers ∷ import_queue false ∷ network ∷ []
      ++ worker_stages
      ++ tasks ∷ []

module _ {H : Handles} (F : Framework H) (config : Configuration H) where
  pub new_partial-Takes : Takes F partial_stages partial_stages (new_partial F config)
  unfolding new_partial
  new_partial-Takes = >>=-Takes F (does-Takes F _) λ providers.
      >>=-Takes F (call-Takes F _) λ parts. >>=-Takes F (does-Takes F _) λ pool.
        >>=-Takes F (call-Takes F _) λ grandpa.
          >>=-Takes F (call-Takes F _) λ slot. >>=-Takes F (call-Takes F _) λ queue. pure-Takes F _

  -- A step that is taken under a condition.
  when-Takes :
      {m : Starting F (Unit {0})} {xs : List Stage} (c : Bool)
      → Takes F xs xs m
      → Takes F (if c then xs else []) (if c then xs else []) (if c then m else pure tt)
  when-Takes true t = t
  when-Takes false t = pure-Takes F tt

  workers-Takes :
      (b : H.Backend) (t : H.TaskManager) (c : H.Client) (n : H.Network)
      → Takes F
          (worker_stages config)
          (worker_stages config)
          (start_offchain_workers F config b t c n)
  unfolding start_offchain_workers
  workers-Takes b t c n =
      when-Takes config.offchain_worker_enabled
        (does-Takes F (build_offchain_workers config b t c n))

  key-Takes :
      (k : H.Keystore) → Takes F (key_stages config) (key_stages config) (insert_dev_key F config k)
  unfolding insert_dev_key
  key-Takes k = elim (Option-cases config.dev_key_seed) [
    | inl e ↦ rw e (pure-Takes F tt)
    | inr (seed, e) ↦ rw e (expect-Takes F (insert_ephemeral_from_seed k seed key_type))
  ]

  authoring-Takes :
      (parts : PartialComponents H) (n : H.Network)
      → Takes F
          (authoring_stages config)
          (authoring_stages config)
          (start_authoring F config parts n)
  unfolding start_authoring run_aura
  authoring-Takes parts n = when-Takes (H.is_authority config.role) (
      >>=-Takes F (call-Takes F _) λ slot.
        >>=-Takes F (call-Takes F _)
          λ task. does-Takes F (spawn_essential parts.task_manager (str "aura") task))

  finality-Takes :
      (parts : PartialComponents H) (n : H.Network)
      → Takes F (finality_stages config) (finality_stages config) (start_grandpa F config parts n)
  unfolding start_grandpa run_voter grandpa_config
  finality-Takes parts n = elim (Bool-cases config.disable_grandpa) [
    | inl e ↦
        rw e (call-Takes F (setup_disabled_grandpa parts.client parts.inherent_data_providers n))
    | inr e ↦ elim (Bool-cases (H.is_authority config.role)) [
      | inl a ↦
          rw (e, a)
            (>>=-Takes F (call-Takes F _)
              λ task. does-Takes F (spawn_essential parts.task_manager (str "grandpa-voter") task))
      | inr a ↦
          rw (e, a)
            (>>=-Takes F (call-Takes F _)
              λ task. does-Takes F (spawn_essential parts.task_manager (str "grandpa-voter") task))
    ]
  ]

  unfoldable full_then : List Stage → List Stage
  full_then rest =
      partial_stages
      ++ (network
          ∷ (worker_stages config
              ++ (key_stages config
                  ++ (tasks ∷ (authoring_stages config ++ (finality_stages config ++ rest))))))

  full_then-append : (rest : List Stage) → full_then rest ≡ full_stages config ++ rest
  unfolding full_then full_stages
  full_then-append rest = simp append_assoc

  new_full-Takes : Takes F (full_then (joined ∷ [])) (full_then []) (new_full F config)
  unfolding new_full full_then
  new_full-Takes = >>=-Takes F new_partial-Takes λ parts. >>=-Takes F (call-Takes F _) λ net.
      >>=-Takes F (workers-Takes _ _ _ _) λ _. >>=-Takes F (key-Takes _) λ _.
        >>=-Takes F (call-Takes F _) λ _.
          >>=-Takes F (authoring-Takes parts _)
            λ _. >>=-Takes F (finality-Takes parts _) λ _. last-Takes F _ _

  unfoldable light_then : List Stage → List Stage
  light_then rest =
      light_parts ∷ pool ∷ block_import ∷ slot ∷ providers ∷ import_queue false ∷ network ∷ []
      ++ (worker_stages config ++ (tasks ∷ rest))

  light_then-append : (rest : List Stage) → light_then rest ≡ light_stages config ++ rest
  unfolding light_then light_stages
  light_then-append rest = simp append_assoc

  new_light-Takes : Takes F (light_then (joined ∷ [])) (light_then []) (new_light F config)
  unfolding new_light light_then
  new_light-Takes = >>=-Takes F (call-Takes F _) λ parts. >>=-Takes F (does-Takes F _) λ pool.
      >>=-Takes F (call-Takes F _) λ import. >>=-Takes F (call-Takes F _) λ slot.
        >>=-Takes F (does-Takes F _) λ providers. >>=-Takes F (call-Takes F _) λ queue.
          >>=-Takes F (call-Takes F _) λ net.
            >>=-Takes F (workers-Takes _ _ _ _)
              λ _. >>=-Takes F (call-Takes F _) λ _. last-Takes F _ _

  -- A full node that starts has gone through its stages in order and has then joined the network.
  -- One that fails has gone through the first of these stages only, and has not joined the network.
  -- The stages are: the parts of a node, the network, the off-chain workers when they are enabled,
  -- the insertion of the development key under the key type of the pallet when a seed is given, the
  -- tasks, then for an authority the authoring of blocks, and last the finality of blocks: a voter
  -- with the node's name, which has a keystore for an authority only, or none when it is disabled.
  pub new_full-stages :
      (w : F.World)
      → let (r, s) = new_full F config (boot F w) in
        ((is_ok r ≡ true) × (stages F s ≡ full_stages config ++ joined ∷ []))
        ⊎ ((is_ok r ≡ false) × (left : List Stage) × (full_stages config ≡ stages F s ++ left))
  unfolding stages
  new_full-stages w = elim ((new_full-Takes).ends (boot F w)) [
    | inl (fine, log) ↦ inl (fine, log ∙ full_then-append (joined ∷ []))
    | inr (failed, ran, left, part, log) ↦ inr (
      failed,
      left,
      sym (append-nil (full_stages config))
          ∙ sym (full_then-append [])
          ∙ part
          ∙ ap (λ l. l ++ left) (sym log),
    )
  ]

  -- A light node that starts has gone through its stages in order and has then joined the network;
  -- one that fails has gone through the first of them only, and has not joined it. Among the stages
  -- are no development key, no authoring and no finality votes; the off-chain workers are, when they
  -- are enabled.
  pub new_light-stages :
      (w : F.World)
      → let (r, s) = new_light F config (boot F w) in
        ((is_ok r ≡ true) × (stages F s ≡ light_stages config ++ joined ∷ []))
        ⊎ ((is_ok r ≡ false) × (left : List Stage) × (light_stages config ≡ stages F s ++ left))
  unfolding stages
  new_light-stages w = elim ((new_light-Takes).ends (boot F w)) [
    | inl (fine, log) ↦ inl (fine, log ∙ light_then-append (joined ∷ []))
    | inr (failed, ran, left, part, log) ↦ inr (
      failed,
      left,
      sym (append-nil (light_stages config))
          ∙ sym (light_then-append [])
          ∙ part
          ∙ ap (λ l. l ++ left) (sym log),
    )
  ]
