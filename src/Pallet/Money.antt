-- ===== src/Pallet/Money.antt =====
-- The money of a chain, from its genesis on.
use substrate_demo.Prelude.{ℕ, ◌+◌, ◌*◌, ◌≤◌, length, arith, ◌≡◌, true, List, [], ◌∷◌, Eq, contains}
use substrate_demo.Pallet.Config.{Trait, IsLawful}
use substrate_demo.Pallet.Store.{Store, GenesisConfig, build}
use substrate_demo.Pallet.Call.{dispatch}
use substrate_demo.Pallet.Genesis.{empty_store}
use substrate_demo.Pallet.Sums.{AreDistinct, sum_over}
use substrate_demo.Pallet.Conservation.{holdings, dispatch-KeepsAllButDust}
use substrate_demo.Pallet.Chain.{Entry, entry_call, entry_block, enter, dispatch_all}
use substrate_demo.Pallet.Parties.{IsSignedBy, Knows, dispatch-Knows, Knows-HasParties}

module _ (T : Trait) where
  instance abbrev account_eq : Eq T.AccountId
  account_eq = T.account_eq

  abbrev pub AreSignedBy : List T.AccountId → List (Entry T) → Type 0
  AreSignedBy accounts [] = Unit
  AreSignedBy accounts (entry_block n seed index ∷ rest) = AreSignedBy accounts rest
  AreSignedBy accounts (entry_call c o ∷ rest) = IsSignedBy T accounts o × AreSignedBy accounts rest

  module _ (law : IsLawful T) (accounts : List T.AccountId) (distinct : AreDistinct accounts)
      (default : contains T.default_account accounts ≡ true) where
    abbrev total : Store T → ℕ
    total s = sum_over (holdings T s.balances) accounts

    dispatch_all-holdings_from :
        (l : List (Entry T)) (s : Store T)
        → AreSignedBy accounts l
        → Knows T accounts s
        → (total (dispatch_all T l s).1 ≤ total s)
          × (total s
              ≤ total (dispatch_all T l s).1 + length (dispatch_all T l s).0 * T.minimum_balance)
    unfolding dispatch_all
    dispatch_all-holdings_from [] s signed k = (omega arith, omega arith)
    dispatch_all-holdings_from (entry_block n seed index ∷ rest) s signed k =
        dispatch_all-holdings_from rest (enter T n seed index s) signed
          (record { owned = k.owned; delegating = k.delegating; registered = k.registered })
    dispatch_all-holdings_from (entry_call c o ∷ rest) s (signed, others) k =
        let t = (dispatch T c o s).1 in
        let (not_more, not_less) =
          dispatch-KeepsAllButDust T law accounts distinct c o s
            (Knows-HasParties T accounts s default k) in
        let (no_more, no_less) =
          dispatch_all-holdings_from rest t others (dispatch-Knows T accounts law c o s signed k) in
        (omega (arith, not_more, no_more), omega (arith, not_less, no_less))

    genesis-Knows :
        (config : GenesisConfig) (b : T.Balances) → Knows T accounts (build config (empty_store b))
    unfolding build
    genesis-Knows config b = record {
      owned = λ c e a h. absurd (cc h);
      delegating = λ a d h. absurd (cc h);
      registered = λ n d h. absurd (cc h);
    }

    -- Whatever calls are made from the genesis on, in whatever blocks, accepted or not, while no other
    -- pallet moves money: the sum of all that a list of accounts holds, free and reserved, is in the
    -- end no more than it was at the genesis, and for each call at most the minimum balance less. The
    -- list names no account twice, and it has the signers of the calls and the default account.
    pub dispatch_all-holdings :
        (config : GenesisConfig) (b : T.Balances) (l : List (Entry T))
        → AreSignedBy accounts l
        → let (results, t) = dispatch_all T l (build config (empty_store b)) in
          (sum_over (holdings T t.balances) accounts ≤ sum_over (holdings T b) accounts)
          × (sum_over (holdings T b) accounts
              ≤ sum_over (holdings T t.balances) accounts + length results * T.minimum_balance)
    unfolding build
    dispatch_all-holdings config b l signed =
        dispatch_all-holdings_from l (build config (empty_store b)) signed (genesis-Knows config b)
