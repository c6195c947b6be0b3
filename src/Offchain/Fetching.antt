-- ===== src/Offchain/Fetching.antt =====
-- What the requests of pallets/abc-demo/src/http.rs and pallets/abc-demo/src/task.rs accept, and
-- what they leave in the local storage.
use substrate_demo.Prelude.{
  ℕ, ◌+◌, ◌≡◌, refl, ap, ◌∙◌, inl, inr, true, false, none, Option-cases, Bool-cases, some, [], ◌∷◌,
  ◌++◌, Bytes, Result-cases, ok, arith, eqb,
}
use substrate_demo.Pallet.Types.{Cid, ErrandId, NetAddress, ErrandResultInfo}
use substrate_demo.Pallet.Config.{Trait}
use substrate_demo.Offchain.Text.{str, from_utf8}
use substrate_demo.Offchain.World.{Offchain, IsLawfulStorage, TaskResults, PostRequest, Response}
use substrate_demo.Offchain.Storage.{
  local_storage_tasks_results_key, local_storage_tasks_results_lock,
}
use substrate_demo.Offchain.Http.{http_post, http_post_timeout, user_agent}
use substrate_demo.Offchain.Task.{http_query_task_result, add_result, fetch_errand_result_info}
use substrate_demo.Offchain.Locking.{
  IsFree, IsTaken, tasks_results_key-ne-lock, operate_local_storage_taken,
}

module _ {T : Trait} (O : Offchain T) where
  -- The request to a url that is sent at a time.
  abbrev pub request_at : Bytes → ℕ → PostRequest
  request_at url now = record {
    url = url;
    post_body = str "post body" ∷ [];
    header = (str "User-Agent", user_agent);
    deadline = now + http_post_timeout;
  }

  -- A text comes back only if the request was sent, the response came in time with the status 200,
  -- and the text is what its body parses to.
  pub http_post_accepted :
      (url : Bytes) (w : O.World) {text : Bytes}
      → (http_post O url w).0 ≡ ok text
      → let deadline = O.timestamp w + http_post_timeout in
        let (sent, w') = O.send (request_at url (O.timestamp w)) w in
        (pending : O.Pending) × (response : Response) × (sent ≡ ok pending)
        × ((O.try_wait pending deadline w').0 ≡ ok (ok response))
        × (response.code ≡ 200)
        × (res_body : Bytes) × (from_utf8 response.body ≡ some res_body)
        × (O.parse_response res_body ≡ ok text)
  unfolding http_post
  http_post_accepted url w {text} accepted =
      let deadline = O.timestamp w + http_post_timeout in
      let (sent, w') = O.send (request_at url (O.timestamp w)) w in
      elim (Result-cases sent) [
        | inl (e, refused) ↦ absurd (ground (arith, accepted, refused))
        | inr (pending, p) ↦ elim (Result-cases (O.try_wait pending deadline w').0) [
          | inl (e, late) ↦ absurd (ground (arith, accepted, p, late))
          | inr (answer, q) ↦ elim (Result-cases answer) [
            | inl (e, unknown) ↦ absurd (ground (arith, accepted, p, q, unknown))
            | inr (response, r) ↦ elim (Bool-cases (eqb response.code 200)) [
              | inr other ↦ absurd (ground (arith, accepted, p, q, r, other))
              | inl status ↦ elim (Option-cases (from_utf8 response.body)) [
                | inl garbled ↦ absurd (ground (arith, accepted, p, q, r, status, garbled))
                | inr (res_body, readable) ↦ (
                  pending,
                  response,
                  p,
                  q ∙ ap ok r,
                  ground (arith, status),
                  res_body,
                  readable,
                  ground (arith, accepted, p, q, r, status, readable),
                )
              ]
            ]
          ]
        ]
      ]

  -- The results that are stored; unset or unreadable ones are none.
  abbrev pub results_in : O.World → TaskResults
  results_in w = elim (O.get O.results_codec local_storage_tasks_results_key w) [
    | some (some results) ↦ results
    | some none ↦ []
    | none ↦ []
  ]

  add_result_lem :
      (cid : Cid) (info : ErrandResultInfo) (w : O.World)
      → add_result O cid info local_storage_tasks_results_key w ≡ (
        tt,
        O.set O.results_codec local_storage_tasks_results_key (results_in w ++ (cid, info) ∷ []) w,
      )
  unfolding add_result
  add_result_lem cid info w =
      elim (Option-cases (O.get O.results_codec local_storage_tasks_results_key w)) [
        | inl unset ↦ ground (arith, unset)
        | inr (o, set) ↦ elim (Option-cases o) [
          | inl garbled ↦ ground (arith, set, garbled)
          | inr (results, reads) ↦ ground (arith, set, reads)
        ]
      ]

  module _ (L : IsLawfulStorage O) where
    -- When the delegate's machine answers that the errand is completed and the lock is taken, the
    -- result is added once, behind the results that are stored, or as the only one when none are
    -- stored or they cannot be read; and the lock is free again.
    pub fetch_errand_result_info_adds :
        (errand_id : ErrandId) (description_cid : Cid) (net_address : NetAddress) (w : O.World)
        {resp : Bytes} {w₁ : O.World} {info : ErrandResultInfo}
        → http_query_task_result O errand_id net_address w ≡ (ok resp, w₁)
        → from_utf8 resp ≡ some resp
        → O.parse_result_info resp ≡ ok info
        → info.completed ≡ true
        → IsTaken O local_storage_tasks_results_key local_storage_tasks_results_lock w₁
        → let (r, w') = fetch_errand_result_info O errand_id description_cid net_address w in
          (r ≡ ok true)
          × (O.get O.results_codec local_storage_tasks_results_key w'
              ≡ some (some (results_in w₁ ++ (description_cid, info) ∷ [])))
          × IsFree O local_storage_tasks_results_lock w'
    unfolding fetch_errand_result_info
    fetch_errand_result_info_adds errand_id description_cid net_address w {resp} {w₁} {info}
          answered text parsed completed taken =
        let key = local_storage_tasks_results_key in
        let lock = local_storage_tasks_results_lock in
        let added = results_in w₁ ++ (description_cid, info) ∷ [] in
        let w₂ = O.set O.bool_codec lock true w₁ in
        let reads =
          L.get-set_other O.results_codec O.bool_codec key lock true w₁ tasks_results_key-ne-lock in
        let w₃ = O.set O.results_codec key added w₂ in
        let done =
          operate_local_storage_taken O key lock (add_result O description_cid info) w₁ taken in
        let p : fetch_errand_result_info O errand_id description_cid net_address w
            ≡ (ok true, O.set O.bool_codec lock false w₃) =
          ground (
            arith,
            answered,
            text,
            parsed,
            completed,
            done,
            reads,
            add_result_lem description_cid info w₂,
          ) in
        rw p (
          refl,
          L.get-set_other O.results_codec O.bool_codec key lock false w₃ tasks_results_key-ne-lock
              ∙ L.get-set O.results_codec key added w₂ (L.results_roundtrip added),
          inr (L.get-set O.bool_codec lock false w₃ (L.bool_roundtrip false)),
        )
