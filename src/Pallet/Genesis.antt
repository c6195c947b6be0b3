-- ===== src/Pallet/Genesis.antt =====
-- The storage that a chain starts with, and what holds of every storage that it comes to.
use substrate_demo.Prelude.{◌≡◌, ◌∙◌, refl, ap, false, none, []}
use substrate_demo.Prelude.StorageMap
use substrate_demo.Pallet.Config.{Trait, IsLawful}
use substrate_demo.Pallet.Store.{Store, GenesisConfig, build}
use substrate_demo.Pallet.Books.{
  ErrandBook, errand_book, task_book, ErrandStep, unchanged, opened, reported, voted, decided,
}
use substrate_demo.Pallet.Call.{Reach, here, next}
use substrate_demo.Pallet.Refines.{Step-ErrandStep}
use substrate_demo.Pallet.Invariant.{IsErrandBook, Reach-IsErrandBook}
use substrate_demo.Pallet.TaskInvariant.{IsTaskBook, Reach-IsTaskBook}

-- Every map and list of `decl_storage!` empty, with the balances that the other pallets set up.
abbrev pub empty_store : {T : Trait} → T.Balances → Store T
empty_store b = record {
  errands = StorageMap.empty;
  delegates = StorageMap.empty;
  completed_errands = StorageMap.empty;
  client_task_fee = StorageMap.empty;
  client_delegate = StorageMap.empty;
  delegate_net_address = StorageMap.empty;
  delegate_accounts = StorageMap.empty;
  tasks = StorageMap.empty;
  delegates_applys = StorageMap.empty;
  processing_errands = [];
  development_mode = false;
  update_result_accounts = [];
  block_number = 0;
  random_seed = [];
  extrinsic_index = none;
  balances = b;
  events = [];
}

module _ {T : Trait} where
  genesis-IsErrandBook :
      (config : GenesisConfig) (b : T.Balances)
      → IsErrandBook (errand_book {T = T} (build config (empty_store b)))
  unfolding build
  genesis-IsErrandBook config b = record {
    keyed = λ c e h. cc;
    listed = λ c. refl;
    pending = λ c e h p. cc;
    owned = λ c e h. absurd (cc h);
    votes = λ c. tt;
    voted_on = λ c h. cc;
    quorum = λ c e d h f. absurd (cc h);
  }

  genesis-IsTaskBook :
      (config : GenesisConfig) (b : T.Balances)
      → IsTaskBook (task_book {T = T} (build config (empty_store b)))
  unfolding build
  genesis-IsTaskBook config b = record {
    distinct = λ n. tt;
    filled = λ n h. absurd (cc h);
    funded = λ n. tt;
    fees = λ a f h. absurd (cc h);
    delegated = λ a h. cc;
  }

  ErrandStep-settings :
      {b b' : ErrandBook T}
      → ErrandStep b b'
      → (b'.development_mode ≡ b.development_mode)
        × (b'.update_result_accounts ≡ b.update_result_accounts)
  ErrandStep-settings (unchanged e) =
      (ap (λ b. b.development_mode) e, ap (λ b. b.update_result_accounts) e)
  ErrandStep-settings (opened a i c e) =
      (ap (λ b. b.development_mode) e, ap (λ b. b.update_result_accounts) e)
  ErrandStep-settings (reported a c x r rep dev found e) =
      (ap (λ b. b.development_mode) e, ap (λ b. b.update_result_accounts) e)
  ErrandStep-settings (voted a c x rep prod found e) =
      (ap (λ b. b.development_mode) e, ap (λ b. b.update_result_accounts) e)
  ErrandStep-settings (decided a c x r rep prod found running enough e) =
      (ap (λ b. b.development_mode) e, ap (λ b. b.update_result_accounts) e)

  -- No execution of the chain changes the development mode or the accounts that may report.
  Reach-settings :
      {s t : Store T}
      → Reach T s t
      → (t.development_mode ≡ s.development_mode)
        × (t.update_result_accounts ≡ s.update_result_accounts)
  Reach-settings here = (refl, refl)
  Reach-settings (next r st) =
      let (mode, accounts) = Reach-settings r in
      let (mode', accounts') = ErrandStep-settings (Step-ErrandStep st) in
      (mode' ∙ mode, accounts' ∙ accounts)

  -- Every storage that a chain comes to from its genesis has its errands and its tasks in order, and
  -- the development mode and the reporting accounts of the genesis configuration.
  pub genesis_chain :
      IsLawful T
      → (config : GenesisConfig) (b : T.Balances) {t : Store T}
      → Reach T (build config (empty_store b)) t
      → IsErrandBook (errand_book t)
        × IsTaskBook (task_book t)
        × (t.development_mode ≡ config.development_mode)
        × (t.update_result_accounts ≡ config.update_result_accounts)
  unfolding build
  genesis_chain law config b r = (
    Reach-IsErrandBook r (genesis-IsErrandBook config b),
    Reach-IsTaskBook T law r (genesis-IsTaskBook config b),
    (Reach-settings r).0,
    (Reach-settings r).1,
  )
