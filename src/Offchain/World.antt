-- ===== src/Offchain/World.antt =====
-- What the off-chain code takes from the crates that it calls: the local storage behind
-- `StorageValueRef`, http requests, formats and parsers, the keystore and the signer. None of these
-- is in the repository, so they are parameters over the state of the node, `World`.
use substrate_demo.Prelude.{ℕ, ◌≡◌, ◌≢◌, ◌⊎◌, Bool, Option, some, List, Bytes, Result, ok, err}
use substrate_demo.Pallet.Types.{Cid, ErrandResultInfo, Call, AccountId32}
use substrate_demo.Pallet.Config.{Trait}

-- `DelegateInfo` of pallets/abc-demo/src/delegate.rs.
pub record DelegateInfo : Type 0 where
  pub delegator_tea_id : Bytes
  pub delegator_ephemeral_id : Bytes
  pub sig : Bytes
  pub key3_rsa_pub_key : Bytes

-- `BeMyDelegateRequest`, generated from the protobuf description.
pub record BeMyDelegateRequest : Type 0 where
  pub layer1_account : Bytes
  pub nonce : Bytes

-- `sp_core::offchain::HttpError`
pub data HttpError : Type 0 where
  deadline_reached io_error invalid : HttpError

-- A request as the source builds it.
pub record PostRequest : Type 0 where
  pub url : Bytes
  pub post_body : List Bytes
  pub header : Bytes × Bytes
  pub deadline : ℕ

pub record Response : Type 0 where
  pub code : ℕ
  pub body : Bytes

-- `Encode` and `Decode` of one type.
pub record Codec (Encoded A : Type 0) : Type 0 where
  pub encode : A → Encoded
  pub decode : Encoded → Option A

abbrev pub TaskResults : Type 0
TaskResults = List (Cid × ErrandResultInfo)

pub record Offchain (T : Trait) : Type 1 where
  pub World : Type 0
  pub Encoded : Type 0
  pub bool_codec : Codec Encoded Bool
  pub info_codec : Codec Encoded DelegateInfo
  pub results_codec : Codec Encoded TaskResults
  -- `StorageValueRef::persistent(key)` and its `get`, `set` and `mutate`. The closure of `mutate`
  -- gets the old value, and its new value is written unless another thread wrote in between.
  pub get : {A : Type 0} → Codec Encoded A → Bytes → World → Option (Option A)
  pub set : {A : Type 0} → Codec Encoded A → Bytes → A → World → World
  pub mutate :
      {A E : Type 0}
      → Codec Encoded A
      → Bytes
      → (Option (Option A) → Result E A)
      → World
      → Result E (Result A A) × World
  -- `sp_io::offchain::timestamp`, `send` and `try_wait`
  pub timestamp : World → ℕ
  pub Pending : Type 0
  pub request_id : Pending → ℕ
  pub display_number : ℕ → Bytes
  pub send : PostRequest → World → Result HttpError Pending × World
  pub try_wait : Pending → ℕ → World → Result Pending (Result (Unit {0}) Response) × World
  -- `serde_json::from_str` at three types, with the text of its error, and the other formats
  pub parse_response : Bytes → Result Bytes Bytes
  pub parse_delegate_info : Bytes → Result Bytes DelegateInfo
  pub parse_result_info : Bytes → Result Bytes ErrandResultInfo
  pub display_account : AccountId32 → Bytes
  pub base64_encode : Bytes → Bytes
  pub hex_encode : Bytes → Bytes
  pub prost_encode : BeMyDelegateRequest → Option Bytes
  -- Whether the info level is logged: only then are the arguments of `debug::info!` evaluated.
  pub logs_info : Bool
  -- `sr25519::Pair::from_string(…).public()`
  pub public_from_string : Bytes → Option AccountId32
  -- The keystore: `RuntimeAppPublic::all`, the conversions to `T::Public`, and `into_account`
  pub AppPublic : Type 0
  pub GenericPublic : Type 0
  pub Public : Type 0
  pub all_keys : World → List AppPublic
  pub generic_public : AppPublic → GenericPublic
  pub into_public : GenericPublic → Public
  pub into_account : Public → T.AccountId
  -- `Signer::all_accounts()`: `can_sign`, and `send_signed_transaction` for all accounts (`none`) or
  -- for those of `with_filter`. Each account that signs comes back with whether it was accepted.
  pub can_sign : World → Bool
  pub send_signed : Option (List Public) → Call T.AccountId → World → List (Public × Bool) × World

-- The documented behaviour of `StorageValueRef`.
pub record IsLawfulStorage {T : Trait} (O : Offchain T) : Type 1 where
  pub get-set :
      {A : Type 0} (c : Codec O.Encoded A) (k : Bytes) (v : A) (w : O.World)
      → c.decode (c.encode v) ≡ some v
      → O.get c k (O.set c k v w) ≡ some (some v)
  pub get-set_other :
      {A B : Type 0} (c : Codec O.Encoded A) (d : Codec O.Encoded B) (j k : Bytes) (v : B)
      (w : O.World)
      → j ≢ k
      → O.get c j (O.set d k v w) ≡ O.get c j w
  pub mutate_refused :
      {A E : Type 0} (c : Codec O.Encoded A) (k : Bytes) (f : Option (Option A) → Result E A)
      (w : O.World) (e : E)
      → f (O.get c k w) ≡ err e
      → O.mutate c k f w ≡ (err e, w)
  -- An accepted value is written, or another thread was faster and nothing is.
  pub mutate_accepted :
      {A E : Type 0} (c : Codec O.Encoded A) (k : Bytes) (f : Option (Option A) → Result E A)
      (w : O.World) (v : A)
      → f (O.get c k w) ≡ ok v
      → (O.mutate c k f w ≡ (ok (ok v), O.set c k v w)) ⊎ (O.mutate c k f w ≡ (ok (err v), w))
  pub bool_roundtrip : (b : Bool) → O.bool_codec.decode (O.bool_codec.encode b) ≡ some b
  pub info_roundtrip : (i : DelegateInfo) → O.info_codec.decode (O.info_codec.encode i) ≡ some i
  pub results_roundtrip :
      (r : TaskResults) → O.results_codec.decode (O.results_codec.encode r) ≡ some r
