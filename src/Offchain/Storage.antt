-- ===== src/Offchain/Storage.antt =====
-- pallets/abc-demo/src/storage.rs, pallets/abc-demo/src/error.rs, and the keys of the local storage.
use substrate_demo.Prelude.{
  Bool, true, false, ◌++◌, Option, none, some, Bytes, Action, Result, ok, err,
}
use substrate_demo.Pallet.Config.{Trait}
use substrate_demo.Offchain.Text.{str, from_utf8}
use substrate_demo.Offchain.World.{Offchain, HttpError, deadline_reached, io_error, invalid}

-- The errors that the off-chain code passes on: `AbcError` of pallets/abc-demo/src/error.rs, and
-- `anyhow::Error`, which holds what `?` and `anyhow!` wrap: such an error, one of a crate, a message,
-- or a message that quotes an error.
mutual
  pub data AbcError : Type 0 where
    common http_request_error http_response_error : Bytes → AbcError
    other : WorkerError → AbcError

  pub data WorkerError : Type 0 where
    abc_error : AbcError → WorkerError
    utf8_error protobuf_error : WorkerError
    message : Bytes → WorkerError
    quoting : Bytes → WorkerError → WorkerError

-- The text of `HttpRequestError` for each error of the request.
abbrev pub request_details : HttpError → Bytes
request_details deadline_reached =
    str "The requested action couldn't been completed within a deadline"
request_details io_error = str "There was an IO Error while processing the request"
request_details invalid = str "ID of the request is invalid in this context"

unfoldable pub storage_locked : Bytes → WorkerError
storage_locked key = message (str "local storage key " ++ (key ++ str " locked"))

unfoldable pub storage_lock_error : Bytes → WorkerError
storage_lock_error key = message (str "local storage key " ++ (key ++ str " lock error"))

abbrev pub local_storage_tasks_results_key : Bytes
local_storage_tasks_results_key = str "local-storage::tasks_results"

abbrev pub local_storage_tasks_results_lock : Bytes
local_storage_tasks_results_lock = str "local-storage::tasks_results-lock"

-- An error that quotes a key, unless the key is no text.
abbrev pub with_key : Bytes → (Bytes → WorkerError) → WorkerError
with_key key e = elim (from_utf8 key) [ none ↦ utf8_error | some text ↦ e text ]

-- The closure given to `lock.mutate`: an unset lock and one that reads `false` are free.
abbrev pub acquire {ℓ} : {E : Type ℓ} → E → Option (Option Bool) → Result E Bool
acquire e none = ok true
acquire e (some none) = err e
acquire e (some (some false)) = ok true
acquire e (some (some true)) = err e

module _ {T : Trait} (O : Offchain T) where
  -- The callback gets the key, which stands for its `StorageValueRef`.
  unfoldable pub operate_local_storage :
      {R : Type 0} → Bytes → Bytes → (Bytes → O.World → R × O.World) → Action O.World WorkerError R
  operate_local_storage key lock_key callback w =
      let (res, w') = O.mutate O.bool_codec lock_key (acquire (with_key key storage_locked)) w in
      elim res [
        | err e ↦ (err e, w')
        | ok (ok true) ↦
            let (rtn, w'') = callback key w' in (ok rtn, O.set O.bool_codec lock_key false w'')
        | ok (ok false) ↦ (err (with_key key storage_lock_error), w')
        | ok (err _) ↦ (err (with_key key storage_lock_error), w')
      ]
