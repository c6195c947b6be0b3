-- ===== src/Node/Panics.antt =====
-- Which starts of a node cannot panic.
use substrate_demo.Prelude.{
  ◌≡◌, refl, ap, sym, ◌∙◌, Bool, true, false, none, inl, inr, Result, ok, err, Result-cases, pure,
  ◌>>=◌, Bool-cases, if◌then◌else◌,
}
use substrate_demo.Offchain.Text.{str}
use substrate_demo.Node.Startup.{
  Handles, Configuration, Framework, Boot, Starting, Request, Failure, failed, panicked, call,
  effect, build_offchain_workers, spawn_essential, setup_disabled_grandpa,
}
use substrate_demo.Node.Service.{
  PartialComponents, new_partial, insert_dev_key, start_offchain_workers, run_aura, start_authoring,
  run_voter, start_grandpa, new_full, new_light,
}

abbrev is_panicked : {E : Type 0} → Failure E → Bool
is_panicked (failed _) = false
is_panicked panicked = true

abbrev pub is_panic : {E A : Type 0} → Result (Failure E) A → Bool
is_panic (ok _) = false
is_panic (err e) = is_panicked e

module _ {H : Handles} (F : Framework H) where
  pub record Calm {A : Type 0} (m : Starting F A) : Type 0 where
    pub calm : (s : Boot F) → is_panic (m s).0 ≡ false

  pure-Calm : {A : Type 0} (a : A) → Calm (pure a)
  pure-Calm a = record { calm = λ s. refl }

  effect-Calm : (q : Request H) → Calm (effect F q)
  unfolding effect
  effect-Calm q = record { calm = λ s. refl }

  call-Calm : (q : Request H) → Calm (call F q)
  unfolding call
  call-Calm q = record {
    calm = λ s. elim (Result-cases (F.attempt q s.world).0) [
      | inl (e, refused) ↦ rw (refused, call) refl
      | inr (a, fine) ↦ rw (fine, call) refl
    ];
  }

  >>=-Calm :
      {A B : Type 0} {m : Starting F A} {f : A → Starting F B}
      → Calm m
      → ((a : A) → Calm (f a))
      → Calm (m >>= f)
  >>=-Calm {A} {B} {m} {f} first second = record {
    calm = λ s. elim (Result-cases (m s).0) [
      | inl (e, stopped) ↦ rw (stopped, ◌>>=◌) (sym (ap is_panic stopped) ∙ first.calm s)
      | inr (a, fine) ↦ rw (fine, ◌>>=◌) ((second a).calm (m s).1)
    ];
  }

  when-Calm : {m : Starting F (Unit {0})} (c : Bool) → Calm m → Calm (if c then m else pure tt)
  when-Calm true t = t
  when-Calm false t = pure-Calm tt

  module _ (config : Configuration H) where
    new_partial-Calm : Calm (new_partial F config)
    unfolding new_partial
    new_partial-Calm = >>=-Calm (effect-Calm _) λ providers. >>=-Calm (call-Calm _) λ parts.
        >>=-Calm (effect-Calm _) λ pool.
          >>=-Calm (call-Calm _)
            λ grandpa. >>=-Calm (call-Calm _) λ slot. >>=-Calm (call-Calm _) λ queue. pure-Calm _

    workers-Calm :
        (b : H.Backend) (t : H.TaskManager) (c : H.Client) (n : H.Network)
        → Calm (start_offchain_workers F config b t c n)
    unfolding start_offchain_workers
    workers-Calm b t c n =
        when-Calm config.offchain_worker_enabled
          (effect-Calm (build_offchain_workers config b t c n))

    authoring-Calm :
        (parts : PartialComponents H) (n : H.Network) → Calm (start_authoring F config parts n)
    unfolding start_authoring run_aura
    authoring-Calm parts n = when-Calm (H.is_authority config.role) (
        >>=-Calm (call-Calm _) λ slot.
          >>=-Calm (call-Calm _)
            λ task. effect-Calm (spawn_essential parts.task_manager (str "aura") task))

    finality-Calm :
        (parts : PartialComponents H) (n : H.Network) → Calm (start_grandpa F config parts n)
    unfolding start_grandpa run_voter
    finality-Calm parts n = elim (Bool-cases config.disable_grandpa) [
      | inl e ↦
          simp e (call-Calm (setup_disabled_grandpa parts.client parts.inherent_data_providers n))
      | inr e ↦ simp e (
          >>=-Calm (call-Calm _)
            λ task. effect-Calm (spawn_essential parts.task_manager (str "grandpa-voter") task))
    ]

    key-Calm : (k : H.Keystore) → config.dev_key_seed ≡ none → Calm (insert_dev_key F config k)
    unfolding insert_dev_key
    key-Calm k e = rw e (pure-Calm tt)

    -- Only the insertion of the development key may panic.
    pub new_full-Calm : config.dev_key_seed ≡ none → Calm (new_full F config)
    unfolding new_full
    new_full-Calm unseeded = >>=-Calm new_partial-Calm λ parts. >>=-Calm (call-Calm _) λ net.
        >>=-Calm (workers-Calm _ _ _ _) λ _. >>=-Calm (key-Calm _ unseeded) λ _.
          >>=-Calm (call-Calm _) λ _.
            >>=-Calm (authoring-Calm parts _)
              λ _. >>=-Calm (finality-Calm parts _) λ _. >>=-Calm (effect-Calm _) λ _. pure-Calm _

    pub new_light-Calm : Calm (new_light F config)
    unfolding new_light
    new_light-Calm = >>=-Calm (call-Calm _) λ parts. >>=-Calm (effect-Calm _) λ pool.
        >>=-Calm (call-Calm _) λ import. >>=-Calm (call-Calm _) λ slot.
          >>=-Calm (effect-Calm _) λ providers. >>=-Calm (call-Calm _) λ queue.
            >>=-Calm (call-Calm _) λ net.
              >>=-Calm (workers-Calm _ _ _ _)
                λ _. >>=-Calm (call-Calm _) λ _. >>=-Calm (effect-Calm _) λ _. pure-Calm _
