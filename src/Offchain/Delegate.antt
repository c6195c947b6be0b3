-- ===== src/Offchain/Delegate.antt =====
-- pallets/abc-demo/src/delegate.rs
use substrate_demo.Prelude.{
  Bool, none, some, [], ◌++◌, Bytes, Action, Result, ok, err, is_ok, lift, ◌>>=◌,
}
use substrate_demo.Pallet.Types.{NetAddress, AccountId32}
use substrate_demo.Pallet.Config.{Trait}
use substrate_demo.Offchain.Text.{str, from_utf8}
use substrate_demo.Offchain.World.{Offchain, DelegateInfo, BeMyDelegateRequest}
use substrate_demo.Offchain.Storage.{
  WorkerError, utf8_error, protobuf_error, message, quoting, operate_local_storage,
}
use substrate_demo.Offchain.Http.{http_post, or_error, or_common}

abbrev pub service_base_url_prefix : Bytes
service_base_url_prefix = str "http://"

abbrev pub apply_delegate : Bytes
apply_delegate = str "/api/be_my_delegate"

abbrev pub local_storage_client_key_prefix : Bytes
local_storage_client_key_prefix = str "local-storage::client-"

abbrev pub local_storage_client_lock_prefix : Bytes
local_storage_client_lock_prefix = str "local-storage::client-lock-"

abbrev pub client_key : Bytes → Bytes
client_key client = local_storage_client_key_prefix ++ client

abbrev pub client_lock_key : Bytes → Bytes
client_lock_key client = local_storage_client_lock_prefix ++ client

unfoldable pub get_url : NetAddress → Result WorkerError Bytes
get_url net_address = elim (from_utf8 net_address) [
  | some text ↦ ok (service_base_url_prefix ++ text)
  | none ↦ err (quoting (str "get url from net address failed, error:") utf8_error)
]

unfoldable pub info_error : Bytes → WorkerError → WorkerError
info_error client e =
    quoting (str "get local storage about " ++ (client ++ str " error, details: ")) e

unfoldable pub info_missing : Bytes → WorkerError
info_missing client = message (str "get local storage about " ++ (client ++ str " error"))

module _ {T : Trait} (O : Offchain T) where
  unfoldable pub encode_protobuf : BeMyDelegateRequest → Result WorkerError Bytes
  encode_protobuf protobuf = or_error protobuf_error (O.prost_encode protobuf)

  unfoldable pub save_delegate_info : Bytes → DelegateInfo → Action O.World WorkerError (Unit {0})
  save_delegate_info client info =
      operate_local_storage O (client_key client) (client_lock_key client)
        (λ key w. (tt, O.set O.info_codec key info w))

  unfoldable pub load_delegate_info : Bytes → Action O.World WorkerError DelegateInfo
  load_delegate_info client w =
      let (res, w') =
        operate_local_storage O (client_key client) (client_lock_key client)
          (λ key w. (O.get O.info_codec key w, w)) w in
      elim res [
        | ok (some (some info)) ↦ (ok info, w')
        | ok (some none) ↦ (err (info_missing client), w')
        | ok none ↦ (err (info_missing client), w')
        | err e ↦ (err (info_error client e), w')
      ]

  unfoldable pub parse_delegate_response : Bytes → Bytes → Action O.World WorkerError (Unit {0})
  parse_delegate_response resp client = do
    resp_str ← lift (or_error utf8_error (from_utf8 resp))
    result_info ← lift (or_common (O.parse_delegate_info resp_str))
    save_delegate_info client result_info

  -- The steps of `request_single_delegate`; each of its error branches returns `false`.
  unfoldable pub request_delegate_steps :
      AccountId32 → NetAddress → Action O.World WorkerError (Unit {0})
  request_delegate_steps account net_address = do
    let client = O.display_account account
    service_url ← lift (get_url net_address)
    buf ← lift (encode_protobuf (record { layer1_account = client; nonce = [] }))
    resp ← http_post O (service_url ++ (apply_delegate ++ (str "?content=" ++ O.base64_encode buf)))
    parse_delegate_response resp client

  unfoldable pub request_single_delegate : AccountId32 → NetAddress → O.World → Bool × O.World
  unfolding request_delegate_steps
  request_single_delegate account net_address w =
      let (res, w') = request_delegate_steps account net_address w in (is_ok res, w')
