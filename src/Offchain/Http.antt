-- ===== src/Offchain/Http.antt =====
-- pallets/abc-demo/src/http.rs
use substrate_demo.Prelude.{
  ℕ, ◌+◌, Option, none, some, [], ◌∷◌, ◌++◌, Bytes, Action, Result, ok, err, eqb, gets, lift,
  ensure, ◌>>=◌, ◌>>◌,
}
use substrate_demo.Pallet.Config.{Trait}
use substrate_demo.Offchain.Text.{str, from_utf8}
use substrate_demo.Offchain.World.{Offchain, PostRequest, Response}
use substrate_demo.Offchain.Storage.{
  WorkerError, abc_error, message, common, http_request_error, http_response_error, request_details,
  utf8_error,
}

abbrev pub user_agent : Bytes
user_agent = str "tearust"

-- Three minutes.
abbrev pub http_post_timeout : ℕ
http_post_timeout = 180000

abbrev pub or_error : {A : Type 0} → WorkerError → Option A → Result WorkerError A
or_error e none = err e
or_error e (some a) = ok a

-- `map_err` of a parser's error, by its text.
abbrev pub or_common : {A : Type 0} → Result Bytes A → Result WorkerError A
or_common (ok a) = ok a
or_common (err e) = err (abc_error (common e))

module _ {T : Trait} (O : Offchain T) where
  abbrev send_request : PostRequest → Action O.World WorkerError O.Pending
  send_request request w =
      let (r, w') = O.send request w in
      (
        elim r [
          | err e ↦ err (abc_error (http_request_error (request_details e)))
          | ok pending ↦ ok pending
        ],
        w',
      )

  -- Both layers of the result of `try_wait`.
  abbrev await_response : O.Pending → ℕ → Action O.World WorkerError Response
  await_response pending timeout w =
      let (r, w') = O.try_wait pending timeout w in
      (
        elim r [
          | err late ↦ err (abc_error (http_response_error (O.display_number (O.request_id late))))
          | ok (err _) ↦ err (abc_error (http_response_error (str "unknown request error")))
          | ok (ok response) ↦ ok response
        ],
        w',
      )

  unfoldable pub http_post : Bytes → Action O.World WorkerError Bytes
  http_post url = do
    now ← gets O.timestamp
    let timeout = now + http_post_timeout
    pending ← send_request (record {
      url = url;
      post_body = str "post body" ∷ [];
      header = (str "User-Agent", user_agent);
      deadline = timeout;
    })
    response ← await_response pending timeout
    ensure (eqb response.code 200)
        (message (str "Unexpected http request status code: " ++ O.display_number response.code))
    res_body ← lift (or_error utf8_error (from_utf8 response.body))
    lift (or_common (O.parse_response res_body))
