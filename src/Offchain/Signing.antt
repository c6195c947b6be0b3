-- ===== src/Offchain/Signing.antt =====
-- The keys of the node and the calls that it sends: `get_accounts`, `get_account_ids`,
-- `update_single_errand` and `init_single_errand_task` of pallets/abc-demo/src/lib.rs.
use substrate_demo.Prelude.{
  Bool, true, ◌&&◌, Option, List, [], ◌∷◌, ◌++◌, Bytes, Eq, ◌==◌, ok, err, if◌then◌else◌,
}
use substrate_demo.Pallet.Types.{Cid, ErrandId, Call, AccountId32}
use substrate_demo.Pallet.Config.{Trait}
use substrate_demo.Pallet.Store.{Store}
use substrate_demo.Pallet.Accounts.{account_to_bytes}
use substrate_demo.Offchain.World.{Offchain}

-- The worker runs on the storage of the block, in the world of the node. `submitted` is the log of
-- the calls that it gave to a signer, with the filter of the signer's accounts.
pub record Node {T : Trait} (O : Offchain T) : Type 0 where
  pub chain : Store T
  pub world : O.World
  pub submitted : List (Option (List O.Public) × Call T.AccountId)

module _ {T : Trait} (O : Offchain T) where
  instance abbrev account_eq : Eq T.AccountId
  account_eq = T.account_eq

  abbrev public_of : O.AppPublic → O.Public
  public_of key = O.into_public (O.generic_public key)

  accounts_of : List O.AppPublic → List (T.AccountId × O.Public)
  accounts_of [] = []
  accounts_of (key ∷ keys) = (O.into_account (public_of key), public_of key) ∷ accounts_of keys

  unfoldable pub get_accounts : O.World → List (T.AccountId × O.Public)
  unfolding accounts_of
  get_accounts w = accounts_of (O.all_keys w)

  -- Accounts that are no 32 bytes are left out.
  account_ids_of : List O.AppPublic → List AccountId32
  account_ids_of [] = []
  account_ids_of (key ∷ keys) =
      let rest = account_ids_of keys in
      elim (account_to_bytes T (O.into_account (public_of key))) [
        | ok account ↦ account ∷ rest
        | err _ ↦ rest
      ]

  unfoldable pub get_account_ids : O.World → List AccountId32
  unfolding account_ids_of
  get_account_ids w = account_ids_of (O.all_keys w)

  -- The loops that collect the local keys of an account.
  unfoldable pub signer_filter : T.AccountId → List (T.AccountId × O.Public) → List O.Public
  signer_filter account [] = []
  signer_filter account ((aid, pk) ∷ ids) =
      let rest = signer_filter account ids in if aid == account then pk ∷ rest else rest

  -- `send_signed_transaction`, and the log.
  unfoldable pub submit :
      Option (List O.Public) → Call T.AccountId → Node O → List (O.Public × Bool) × Node O
  submit filter c n =
      let (results, w) = O.send_signed filter c n.world in
      (results, record n { world = w; submitted = n.submitted ++ (filter, c) ∷ [] })

  -- Errors of single accounts are only logged.
  unfoldable pub update_single_errand : Option (List O.Public) → Bytes → Cid → Node O → Node O
  unfolding submit
  update_single_errand signer result_cid description_cid n =
      (submit signer (Call.update_errand description_cid result_cid) n).1

  abbrev all_accepted : List (O.Public × Bool) → Bool
  all_accepted [] = true
  all_accepted ((_, accepted) ∷ results) = accepted && all_accepted results

  unfoldable pub init_single_errand_task :
      Option (List O.Public) → T.AccountId → Cid → ErrandId → Node O → Bool × Node O
  unfolding submit
  init_single_errand_task signer client description_cid errand_id n =
      let (results, n') = submit signer (Call.init_errand client errand_id description_cid) n in
      (all_accepted results, n')
