-- ===== src/Tests/NodeMock.antt =====
-- A node for the worker: local storage by its keys, and a network that answers every request.
use substrate_demo.Prelude.{
  ℕ, refl, inl, true, false, Option, none, some, Bool, List, [], ◌∷◌, Bytes, bytes_eq, Result, ok,
  err, arith,
}
use substrate_demo.Prelude.StorageMap
use substrate_demo.Prelude.StorageMap.{StorageMap}
use substrate_demo.Pallet.Types.{ErrandResultInfo}
use substrate_demo.Offchain.World.{Offchain, IsLawfulStorage, Codec, DelegateInfo, TaskResults}
use substrate_demo.Tests.Mock.{mock}

pub data Stored : Type 0 where
  flag : Bool → Stored
  info : DelegateInfo → Stored
  results : TaskResults → Stored

abbrev pub as_flag : Stored → Option Bool
as_flag (flag b) = some b
as_flag (info _) = none
as_flag (results _) = none

abbrev pub as_info : Stored → Option DelegateInfo
as_info (flag _) = none
as_info (info i) = some i
as_info (results _) = none

abbrev pub as_results : Stored → Option TaskResults
as_results (flag _) = none
as_results (info _) = none
as_results (results r) = some r

pub record NodeWorld : Type 0 where
  pub storage : StorageMap Bytes Stored
  pub keys : List ℕ

abbrev pub read : {A : Type 0} → Codec Stored A → Bytes → NodeWorld → Option (Option A)
read c k w = elim (w.storage k) [ none ↦ none | some e ↦ some (c.decode e) ]

abbrev pub write : {A : Type 0} → Codec Stored A → Bytes → A → NodeWorld → NodeWorld
write c k v w = record w { storage = StorageMap.insert k (c.encode v) w.storage }

abbrev pub mutate :
    {A E : Type 0}
    → Codec Stored A
    → Bytes
    → (Option (Option A) → Result E A)
    → NodeWorld
    → Result E (Result A A) × NodeWorld
mutate c k f w = elim (f (read c k w)) [ ok v ↦ (ok (ok v), write c k v w) | err e ↦ (err e, w) ]

abbrev has_key : List ℕ → Bool
has_key [] = false
has_key (_ ∷ _) = true

abbrev accept : List ℕ → List (ℕ × Bool)
accept [] = []
accept (k ∷ ks) = (k, true) ∷ accept ks

abbrev pub no_info : DelegateInfo
no_info = record {
  delegator_tea_id = [];
  delegator_ephemeral_id = [];
  sig = [];
  key3_rsa_pub_key = [];
}

abbrev pub result_info : ErrandResultInfo
result_info = record { completed = true; result_cid = 4 ∷ []; failed_count = 0 }

-- Keys are their accounts, the network answers 200 with an empty body, and parsers accept it.
abbrev pub node_mock : Offchain mock
node_mock = record {
  World = NodeWorld;
  Encoded = Stored;
  bool_codec = record { encode = flag; decode = as_flag };
  info_codec = record { encode = info; decode = as_info };
  results_codec = record { encode = results; decode = as_results };
  get = read;
  set = write;
  mutate = mutate;
  timestamp = λ _. 0;
  Pending = Unit;
  request_id = λ _. 0;
  display_number = λ k. k ∷ [];
  send = λ _ w. (ok tt, w);
  try_wait = λ _ _ w. (ok (ok (record { code = 200; body = [] })), w);
  parse_response = λ b. ok b;
  parse_delegate_info = λ _. ok no_info;
  parse_result_info = λ _. ok result_info;
  display_account = λ a. a;
  base64_encode = λ b. b;
  hex_encode = λ b. b;
  prost_encode = λ r. some r.layer1_account;
  logs_info = true;
  public_from_string = λ s. some s;
  AppPublic = ℕ;
  GenericPublic = ℕ;
  Public = ℕ;
  all_keys = λ w. w.keys;
  generic_public = λ k. k;
  into_public = λ k. k;
  into_account = λ k. k;
  can_sign = λ w. has_key w.keys;
  send_signed = λ filter _ w. (elim filter [ none ↦ accept w.keys | some ks ↦ accept ks ], w);
}

-- The node keeps the promises.
pub node_mock-IsLawfulStorage : IsLawfulStorage node_mock
node_mock-IsLawfulStorage = record {
  get-set = λ c k v w h. ground (arith, h);
  get-set_other = λ c d j k v w h. ground (arith, h);
  mutate_refused = λ c k f w e h. ground (arith, h);
  mutate_accepted = λ c k f w v h. inl (ground (arith, h));
  bool_roundtrip = λ b. refl;
  info_roundtrip = λ i. refl;
  results_roundtrip = λ r. refl;
}
