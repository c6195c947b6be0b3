-- ===== src/Offchain/Worker/Round.antt =====
-- One run of the whole worker, from the question to the report, and the runs of two nodes.
use substrate_demo.Prelude.{
  ℕ, ◌+◌, ◌%◌, ◌≡◌, sym, ap, ◌∙◌, true, false, some, none, [], ◌∷◌, ◌++◌, Bytes, bytes_eq, ok,
  arith, contains,
}
use substrate_demo.Pallet.Types.{
  Call, Cid, Errand, ErrandResultInfo, processing, local_storage_error,
}
use substrate_demo.Pallet.Config.{Trait, IsLawful}
use substrate_demo.Pallet.Store.{Store}
use substrate_demo.Pallet.Call.{dispatch}
use substrate_demo.Pallet.Books.{finished}
use substrate_demo.Pallet.Branches.{MayReport}
use substrate_demo.Pallet.Voting.{two_reports}
use substrate_demo.Pallet.Reward.{two_reports_pay}
use Prim.Native.Nat.{min}
use substrate_demo.Offchain.Text.{from_utf8}
use substrate_demo.Offchain.World.{Offchain, IsLawfulStorage}
use substrate_demo.Offchain.Storage.{
  acquire, local_storage_tasks_results_key, local_storage_tasks_results_lock,
}
use substrate_demo.Offchain.Locking.{IsFree, tasks_results_key-ne-lock}
use substrate_demo.Offchain.Task.{
  http_query_task_result, fetch_errand_result_info, fetch_single_task_result,
}
use substrate_demo.Offchain.Fetching.{results_in, fetch_errand_result_info_adds}
use substrate_demo.Offchain.Signing.{Node}
use substrate_demo.Offchain.Worker.Results.{
  may_report, query_one, query_errand_task_results, update_errand_task_results,
}
use substrate_demo.Offchain.Worker.Apply.{apply_delegates}
use substrate_demo.Offchain.Worker.Send.{send_errand_tasks}
use substrate_demo.Offchain.Worker.Reports.{load_tasks_results_info_sends}
use substrate_demo.Offchain.Worker.Querying.{address_of}
use substrate_demo.Offchain.Worker.Entry.{offchain_worker}

module _ {T : Trait} (O : Offchain T) where
  -- No other thread of the node takes the lock: where it is free, the attempt succeeds.
  pub record IsUncontended : Type 1 where
    pub wins :
        {E : Type 0} (e : E) (w : O.World)
        → IsFree O local_storage_tasks_results_lock w
        → O.mutate O.bool_codec local_storage_tasks_results_lock (acquire e) w
          ≡ (ok (ok true), O.set O.bool_codec local_storage_tasks_results_lock true w)

  -- The node runs at a height that is a multiple of ten, with no applications and tasks at it; it
  -- may report, before it asks and after; one errand is open; and the machine of the client's
  -- delegate answers that it is completed, when no results are stored and the lock is free.
  pub record FindsResult (height : ℕ) (n : Node O) (cid : Cid) (info : ErrandResultInfo)
      : Type 0 where
    pub errand : Errand
    pub client : T.AccountId
    pub response : Bytes
    pub answered : O.World
    pub tenth : height % 10 ≡ 0
    pub no_application : n.chain.delegates_applys height ≡ none
    pub no_task : n.chain.tasks height ≡ none
    pub may : may_report O n ≡ true
    pub may_after : may_report O (query_errand_task_results O height n) ≡ true
    pub listed : n.chain.processing_errands ≡ cid ∷ []
    pub found : n.chain.errands cid ≡ some errand
    pub described : errand.description_cid ≡ cid
    pub decoded : T.decode errand.account_id ≡ some client
    pub answer :
        http_query_task_result O errand.errand_id (address_of n.chain client) n.world
        ≡ (ok response, answered)
    pub text : from_utf8 response ≡ some response
    pub parsed : O.parse_result_info response ≡ ok info
    pub completed : info.completed ≡ true
    pub free : IsFree O local_storage_tasks_results_lock answered
    pub unset : O.get O.results_codec local_storage_tasks_results_key answered ≡ none

module _ {T : Trait} (O : Offchain T) (L : IsLawfulStorage O) (alone : IsUncontended O) where
  module _ (height : ℕ) (n : Node O) (cid : Cid) (info : ErrandResultInfo)
      (h : FindsResult O height n cid info) where
    abbrev world_after : O.World
    world_after =
        (fetch_errand_result_info O h.errand.errand_id cid (address_of n.chain h.client) n.world).1

    queried : query_errand_task_results O height n ≡ record n { world = world_after }
    unfolding query_errand_task_results query_one fetch_single_task_result
    queried = ground (arith, h.tenth, h.may, h.listed, h.found, h.decoded, h.described)

    idle : send_errand_tasks O height (apply_delegates O height n) ≡ n
    unfolding send_errand_tasks apply_delegates
    idle = ground (arith, h.no_application, h.no_task)

    -- The run ends with one report more, of the result that the delegate's machine gave.
    one_report :
        (offchain_worker O height n).submitted
        ≡ n.submitted ++ (none, Call.update_errand cid info.result_cid) ∷ []
    unfolding offchain_worker update_errand_task_results
    one_report =
        let lock = local_storage_tasks_results_lock in
        let m : Node O = record n { world = world_after } in
        let (_, results, free) =
          fetch_errand_result_info_adds O L h.errand.errand_id cid (address_of n.chain h.client)
            n.world h.answer h.text h.parsed h.completed (alone.wins _ h.answered h.free) in
        let one : results_in O h.answered ≡ [] = ground (arith, h.unset) in
        let stored =
          L.get-set_other O.results_codec O.bool_codec local_storage_tasks_results_key lock true
            world_after tasks_results_key-ne-lock
          ∙ results
          ∙ ap (λ r. some (some (r ++ (cid, info) ∷ []))) one in
        let (_, sent, _, _, _) =
          load_tasks_results_info_sends O L none m (alone.wins local_storage_error world_after free)
            stored in
        let may : may_report O m ≡ true = sym (ap (may_report O) queried) ∙ h.may_after in
        rw (idle, queried, may) sent

  -- Two nodes run their workers, each at a height that is a multiple of ten and has no applications
  -- and no tasks. Each holds keys that may report, no results are stored on it, and no other thread
  -- of it takes the lock. When one errand is listed as open and the machine of its client's delegate
  -- answers with a text that says it is completed, each node sends one call. Let these calls be
  -- executed one after the other on a chain in the production mode, where nobody has reported on the
  -- errand, signed by accounts that may report: both succeed; the first leaves all errands and
  -- balances as they were, and after the second the errand is finished with the result that the
  -- second node was given and no longer listed as open, and the delegate of its client has been paid
  -- the fee on record, or what the client has reserved if that is less, if the repatriation
  -- succeeds.
  pub two_nodes_finish :
      (h₁ h₂ : ℕ) (n₁ n₂ : Node O) (cid : Cid) (x y : ErrandResultInfo) (o₁ o₂ : T.Origin)
      (s : Store T) (first : MayReport T o₁ cid s) (second : MayReport T o₂ cid s)
      {a d : T.AccountId} {fee rest : ℕ}
      → IsLawful T
      → FindsResult O h₁ n₁ cid x
      → FindsResult O h₂ n₂ cid y
      → s.development_mode ≡ false
      → first.errand.status ≡ processing
      → s.completed_errands cid ≡ none
      → T.decode first.errand.account_id ≡ some a
      → s.client_delegate a ≡ some d
      → s.client_task_fee a ≡ some fee
      → (T.repatriate_reserved a d fee s.balances).0 ≡ ok rest
      → (c₁ c₂ : Call T.AccountId) × ((offchain_worker O h₁ n₁).submitted
          ≡ n₁.submitted ++ (none, c₁) ∷ [])
        × ((offchain_worker O h₂ n₂).submitted ≡ n₂.submitted ++ (none, c₂) ∷ [])
        × (let (r, t) = dispatch T c₁ o₁ s in
            let (r', u) = dispatch T c₂ o₂ t in
            (r ≡ ok tt)
            × (t.errands ≡ s.errands)
            × (t.balances ≡ s.balances)
            × (r' ≡ ok tt)
            × (u.errands cid ≡ some (finished y.result_cid first.errand))
            × (contains cid u.processing_errands ≡ false)
            × (T.free_balance u.balances d
                ≡ T.free_balance s.balances d + min fee (T.reserved_balance s.balances a)))
  unfolding dispatch
  two_nodes_finish h₁ h₂ n₁ n₂ cid x y o₁ o₂ s first second law f₁ f₂ prod running unvoted decoded
        delegated noted moved =
      let (once, same, twice, closed, unlisted) =
        two_reports T o₁ o₂ cid x.result_cid y.result_cid s first second prod running unvoted in
      let (kept, paid) =
        two_reports_pay T law o₁ o₂ cid x.result_cid y.result_cid s first second prod running
          unvoted decoded delegated noted moved in
      (
        Call.update_errand cid x.result_cid,
        Call.update_errand cid y.result_cid,
        one_report h₁ n₁ cid x f₁,
        one_report h₂ n₂ cid y f₂,
        (once, same, kept, twice, closed, unlisted, paid),
      )
