-- ===== src/Pallet/Accounts.antt =====
-- Accounts as bytes, and who may report results: `account_to_bytes`, `bytes_to_account`,
-- `allow_to_update_result` and `generate_errand_id` of pallets/abc-demo/src/lib.rs.
use substrate_demo.Prelude.{
  Bool, false, not, ◌||◌, none, some, List, [], ◌∷◌, Bytes, bytes_eq, length, contains, eqb, Result,
  ok, err, if◌then◌else◌,
}
use substrate_demo.Pallet.Types.{Error, account_id32_convertion_error, AccountId32, ErrandId}
use substrate_demo.Pallet.Config.{Trait}
use substrate_demo.Pallet.Store.{Store}

module _ (T : Trait) where
  -- An `AccountId32` stands for its 32 bytes, so `copy_from_slice` into an array of 32 zeros and
  -- `AccountId32::from` keep the bytes as they are.
  unfoldable pub account_to_bytes : T.AccountId → Result Error AccountId32
  account_to_bytes account =
      let account_vec = T.encode account in
      if not (eqb (length account_vec) 32)
      then err account_id32_convertion_error
      else ok account_vec

  unfoldable pub bytes_to_account : Bytes → Result Error T.AccountId
  bytes_to_account account_bytes = elim (T.decode account_bytes) [
    | some client ↦ ok client
    | none ↦ err account_id32_convertion_error
  ]

  unfoldable pub generate_errand_id : Store T → T.AccountId → ErrandId
  generate_errand_id s sender =
      let payload = T.encode_payload s.random_seed sender s.extrinsic_index in
      T.uuid_encode_lower
        (T.uuid_set_random (T.uuid_set_rfc4122 (T.uuid_from_bytes (T.blake2_128 payload))))

-- The two loops of `allow_to_update_result`.
unfoldable pub any_allowed : List AccountId32 → List AccountId32 → Bool
any_allowed [] accounts = false
any_allowed (a ∷ allowed) accounts = contains a accounts || any_allowed allowed accounts

unfoldable pub allow_to_update_result : {T : Trait} → Store T → List AccountId32 → Bool
unfolding any_allowed
allow_to_update_result s accounts = any_allowed s.update_result_accounts accounts
