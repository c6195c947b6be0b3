-- ===== src/Offchain/Task.antt =====
-- pallets/abc-demo/src/task.rs
use substrate_demo.Prelude.{
  Bool, true, false, not, Option, none, some, List, [], ◌∷◌, ◌++◌, Bytes, bytes_eq, contains,
  Action, ok, err, is_ok, pure, lift, ◌>>=◌, ◌>>◌, if◌then◌else◌,
}
use mathlib.Core.Option
use substrate_demo.Pallet.Types.{Cid, ErrandId, NetAddress, AccountId32, ErrandResultInfo}
use substrate_demo.Pallet.Config.{Trait}
use substrate_demo.Offchain.Text.{str, from_utf8}
use substrate_demo.Offchain.World.{Offchain}
use substrate_demo.Offchain.Storage.{
  WorkerError, utf8_error, operate_local_storage, local_storage_tasks_results_key,
  local_storage_tasks_results_lock,
}
use substrate_demo.Offchain.Http.{http_post, or_error, or_common}
use substrate_demo.Offchain.Delegate.{get_url, load_delegate_info}

abbrev pub query_errand_result_action : Bytes
query_errand_result_action = str "/api/query_errand_execution_result_by_uuid"

abbrev pub send_errand_task_action : Bytes
send_errand_task_action = str "/api/service"

module _ {T : Trait} (O : Offchain T) where
  unfoldable pub http_query_task_result : ErrandId → NetAddress → Action O.World WorkerError Bytes
  http_query_task_result errand_id net_address = do
    service_url ← lift (get_url net_address)
    id ← lift (or_error utf8_error (from_utf8 errand_id))
    http_post O (service_url ++ (query_errand_result_action ++ (str "/" ++ id)))

  -- The closure of `fetch_errand_result_info`: the result is added to those that are stored.
  unfoldable pub add_result : Cid → ErrandResultInfo → Bytes → O.World → Unit {0} × O.World
  add_result description_cid info key w = elim (O.get O.results_codec key w) [
    | some (some results) ↦
        (tt, O.set O.results_codec key (results ++ (description_cid, info) ∷ []) w)
    | some none ↦ (tt, O.set O.results_codec key ((description_cid, info) ∷ []) w)
    | none ↦ (tt, O.set O.results_codec key ((description_cid, info) ∷ []) w)
  ]

  unfoldable pub fetch_errand_result_info :
      ErrandId → Cid → NetAddress → Action O.World WorkerError Bool
  unfolding add_result
  fetch_errand_result_info errand_id description_cid net_address = do
    resp_bytes ← http_query_task_result errand_id net_address
    resp_str ← lift (or_error utf8_error (from_utf8 resp_bytes))
    result_info ← lift (or_common (O.parse_result_info resp_str))
    if not result_info.completed then pure true else (do
      operate_local_storage O local_storage_tasks_results_key local_storage_tasks_results_lock
          (add_result description_cid result_info)
      pure true)

  unfoldable pub fetch_single_task_result : ErrandId → Cid → NetAddress → O.World → Bool × O.World
  fetch_single_task_result errand_id description_cid net_address w =
      let (res, w') = fetch_errand_result_info errand_id description_cid net_address w in
      (elim res [ ok result ↦ result | err _ ↦ false ], w')

  unfoldable pub send_task_internal :
      Bytes → Cid → ErrandId → NetAddress → Action O.World WorkerError (Unit {0})
  send_task_internal client description_cid errand_id net_address = do
    info ← load_delegate_info O client
    cid ← lift (or_error utf8_error (from_utf8 description_cid))
    service_url ← lift (get_url net_address)
    id ← lift (or_error utf8_error (from_utf8 errand_id))
    res ← http_post O (
        service_url
        ++ (send_errand_task_action
            ++ (str "/"
                ++ (client
                    ++ (str "/"
                        ++ (id
                            ++ (str "/"
                                ++ (O.hex_encode info.sig ++ (str "?content=" ++ cid)))))))))
    if O.logs_info then (do lift (or_error utf8_error (from_utf8 res)); pure tt) else pure tt

  unfoldable pub send_task_to_tea_network :
      AccountId32 → Cid → ErrandId → NetAddress → O.World → Bool × O.World
  send_task_to_tea_network account description_cid errand_id net_address w =
      let (res, w') =
        send_task_internal (O.display_account account) description_cid errand_id net_address w in
      (is_ok res, w')

  -- `none` is the panic of `expect`.
  unfoldable pub account_from_seed : Bytes → Option AccountId32
  account_from_seed seed = O.public_from_string (str "//" ++ seed)

  unfoldable pub account_from_seed_in_accounts : Bytes → List AccountId32 → Option Bool
  unfolding account_from_seed
  account_from_seed_in_accounts seed accounts =
      Option.map (λ account. contains account accounts) (account_from_seed seed)
