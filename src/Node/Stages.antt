-- ===== src/Node/Stages.antt =====
-- The stages of a node's start, read off the log of its requests, and how they add up.
use mathlib.Core.List.{append-nil, append_assoc, map-append}
use substrate_demo.Prelude.{
  ◌≡◌, refl, ap, sym, ◌∙◌, Bool, true, false, Option, none, some, ◌⊎◌, inl, inr, List, [], ◌∷◌,
  ◌++◌, map, Bytes, is_ok, pure, ◌>>=◌, ◌>>◌, Result-cases, arith,
}
use substrate_demo.Node.Startup.{
  Handles, Framework, Boot, Starting, Request, call, effect, expect, new_full_parts,
  new_light_parts, new_inherent_data_providers, new_full_pool, new_light_pool, grandpa_block_import,
  light_block_import, get_slot_duration, new_import_queue, build_network, build_offchain_workers,
  insert_ephemeral_from_seed, spawn_tasks, start_aura, run_grandpa_voter, setup_disabled_grandpa,
  spawn_essential, start_network,
}

-- The requests less the framework's parts.
pub data Stage : Type 0 where
  full_parts light_parts providers pool block_import slot network offchain_workers tasks : Stage
  import_queue : (can_author : Bool) → Stage
  key : (seed kind : Bytes) → Stage
  aura : (force_authoring : Bool) → Stage
  voter : (name : Option Bytes) (has_keystore is_authority : Bool) → Stage
  no_finality joined : Stage
  essential : (name : Bytes) → Stage

abbrev is_some : {A : Type 0} → Option A → Bool
is_some none = false
is_some (some _) = true

module _ {H : Handles} where
  abbrev pub stage_of : Request H → Stage
  stage_of (new_full_parts _) = full_parts
  stage_of (new_light_parts _) = light_parts
  stage_of new_inherent_data_providers = providers
  stage_of (new_full_pool _ _ _) = pool
  stage_of (new_light_pool _ _ _ _) = pool
  stage_of (grandpa_block_import _ _) = block_import
  stage_of (light_block_import _ _ _) = block_import
  stage_of (get_slot_duration _) = slot
  stage_of (new_import_queue params) = import_queue params.can_author
  stage_of (build_network _) = network
  stage_of (build_offchain_workers _ _ _ _ _) = offchain_workers
  stage_of (insert_ephemeral_from_seed _ seed kind) = key seed kind
  stage_of (spawn_tasks _) = tasks
  stage_of (start_aura params) = aura params.force_authoring
  stage_of (run_grandpa_voter params) =
      voter params.config.name (is_some params.config.keystore) params.config.is_authority
  stage_of (setup_disabled_grandpa _ _ _) = no_finality
  stage_of (spawn_essential _ name _) = essential name
  stage_of (start_network _) = joined

module _ {H : Handles} (F : Framework H) where
  unfoldable pub stages : Boot F → List Stage
  stages s = map stage_of s.log

  -- `m` succeeds after the stages `xs`, or fails after the first ones of `ys`.
  pub record Takes {A : Type 0} (xs ys : List Stage) (m : Starting F A) : Type 0 where
    pub ends :
        (s : Boot F)
        → ((is_ok (m s).0 ≡ true) × (stages (m s).1 ≡ stages s ++ xs))
          ⊎ ((is_ok (m s).0 ≡ false)
              × (ran : List Stage) × (left : List Stage) × (ys ≡ ran ++ left)
              × (stages (m s).1 ≡ stages s ++ ran))

  pub pure-Takes : {A : Type 0} (a : A) → Takes [] [] (pure a)
  pure-Takes a = record { ends = λ s. inl (refl, sym (append-nil (stages s))) }

  pub effect-Takes : (q : Request H) → Takes (stage_of q ∷ []) [] (effect F q)
  unfolding effect stages
  effect-Takes q = record { ends = λ s. inl (refl, map-append stage_of s.log (q ∷ [])) }

  pub call-Takes : (q : Request H) → Takes (stage_of q ∷ []) (stage_of q ∷ []) (call F q)
  unfolding call stages
  call-Takes q = record {
    ends = λ s. elim (Result-cases (F.attempt q s.world).0) [
      | inl (e, failed) ↦
          rw (failed, call)
            (inr (refl, stage_of q ∷ [], [], refl, map-append stage_of s.log (q ∷ [])))
      | inr (a, fine) ↦ rw (fine, call) (inl (refl, map-append stage_of s.log (q ∷ [])))
    ];
  }

  pub expect-Takes : (q : Request H) → Takes (stage_of q ∷ []) (stage_of q ∷ []) (expect F q)
  unfolding expect stages
  expect-Takes q = record {
    ends = λ s. elim (Result-cases (F.attempt q s.world).0) [
      | inl (e, failed) ↦
          rw (failed, expect)
            (inr (refl, stage_of q ∷ [], [], refl, map-append stage_of s.log (q ∷ [])))
      | inr (a, fine) ↦ rw (fine, expect) (inl (refl, map-append stage_of s.log (q ∷ [])))
    ];
  }

  -- A failure may stop short of more stages.
  pub Takes-more :
      {A : Type 0} {m : Starting F A} {xs ys : List Stage} (zs : List Stage)
      → Takes xs ys m
      → Takes xs (ys ++ zs) m
  Takes-more zs t = record {
    ends = λ s. elim (t.ends s) [
      | inl done ↦ inl done
      | inr (failed, ran, left, part, log) ↦
          inr (failed, ran, left ++ zs, ap (λ l. l ++ zs) part ∙ append_assoc ran left zs, log)
    ];
  }

  -- One after the other.
  pub >>=-Takes :
      {A B : Type 0} {m : Starting F A} {f : A → Starting F B} {xs ys zs : List Stage}
      → Takes xs xs m
      → ((a : A) → Takes ys zs (f a))
      → Takes (xs ++ ys) (xs ++ zs) (m >>= f)
  >>=-Takes {A} {B} {m} {f} {xs} {ys} {zs} first second = record {
    ends = λ s. elim (Result-cases (m s).0) [
      | inl (e, failed) ↦ elim (first.ends s) [
        | inl (fine, log) ↦ absurd (ground (arith, failed, fine))
        | inr (_, ran, left, part, log) ↦
            rw (failed, ◌>>=◌)
              (inr (refl, ran, left ++ zs, ap (λ l. l ++ zs) part ∙ append_assoc ran left zs, log))
      ]
      | inr (a, fine) ↦ elim (first.ends s) [
        | inr (failed, _, _, _, _) ↦ absurd (ground (arith, failed, fine))
        | inl (_, log) ↦
            rw (fine, ◌>>=◌)
              (elim ((second a).ends (m s).1) [
                | inl (done, log') ↦
                    inl (done, log' ∙ ap (λ l. l ++ ys) log ∙ append_assoc (stages s) xs ys)
                | inr (failed, ran, left, part, log') ↦ inr (
                  failed,
                  xs ++ ran,
                  left,
                  ap (λ l. xs ++ l) part ∙ sym (append_assoc xs ran left),
                  log' ∙ ap (λ l. l ++ ran) log ∙ append_assoc (stages s) xs ran,
                )
              ])
      ]
    ];
  }

  pub does-Takes : (q : Request H) → Takes (stage_of q ∷ []) (stage_of q ∷ []) (effect F q)
  does-Takes q = Takes-more (stage_of q ∷ []) (effect-Takes q)

  -- A last step that cannot fail.
  pub last-Takes :
      {A : Type 0} (q : Request H) (a : A) → Takes (stage_of q ∷ []) [] (effect F q >> pure a)
  unfolding effect stages
  last-Takes q a = record { ends = λ s. inl (refl, map-append stage_of s.log (q ∷ [])) }
