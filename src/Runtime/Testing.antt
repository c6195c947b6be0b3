-- ===== src/Runtime/Testing.antt =====
-- The runtime that pallets/abc-demo/src/mock.rs makes for the tests of the pallet.
use substrate_demo.Prelude.{
  ℕ, ◌*◌, ◌^◌, ◌≡◌, ◌≢◌, subst, sym, Option, inl, inr, some, List, [], ◌∷◌, Bytes, false,
  Result-cases, ok, arith,
}
use substrate_demo.Pallet.Types.{Cid}
use substrate_demo.Pallet.Config.{Trait, IsLawful}
use substrate_demo.Pallet.Store.{Store, GenesisConfig, build}
use substrate_demo.Pallet.Accounts.{account_to_bytes, allow_to_update_result, any_allowed}
use substrate_demo.Pallet.Results.{update_errand}
use substrate_demo.Pallet.Call.{Reach}
use substrate_demo.Pallet.Genesis.{empty_store, genesis_chain}
use substrate_demo.Offchain.Text.{str}
use substrate_demo.Node.ChainSpec.{◌>>=◌}
use substrate_demo.Node.Genesis.{bind-some}
use mathlib.Core.Option.{some-injective}

abbrev test_block_hash_count : ℕ
test_block_hash_count = 250

abbrev test_maximum_block_weight : ℕ
test_maximum_block_weight = 1024

abbrev test_maximum_block_length : ℕ
test_maximum_block_length = 2 * 1024

abbrev test_existential_deposit : ℕ
test_existential_deposit = 1

abbrev grace_period : ℕ
grace_period = 5

abbrev unsigned_interval : ℕ
unsigned_interval = 128

-- `1 << 20`
abbrev unsigned_priority : ℕ
unsigned_priority = 2 ^ 20

-- A test transaction carries the call and the nonce; it is signed by nobody.
unfoldable test_create_transaction :
    {Call Public Account : Type 0} → Call → Public → Account → ℕ → Option (Call × ℕ × Unit {0})
test_create_transaction call _ _ nonce = some (call, nonce, tt)

-- The accounts by their addresses, the genesis of the system, and the genesis of the balances,
-- which may refuse its list.
pub record TestGenesis (T : Trait) : Type 1 where
  pub SystemStorage : Type 0
  pub build_storage : Option SystemStorage
  pub from_string : Bytes → Option T.AccountId
  pub assimilate_balances : List (T.AccountId × ℕ) → SystemStorage → Option T.Balances

module _ {T : Trait} (G : TestGenesis T) where
  -- `none` is the panic of an `unwrap`. The pallet itself has no genesis: its storage is empty.
  unfoldable new_test_ext : Option (Store T)
  new_test_ext = G.build_storage >>= λ t.
      G.from_string (str "5G97JLuuT1opraWvfS6Smt4jaAZuyDquP9GjamKVcPC366qU") >>= λ first.
      G.from_string (str "5EPhGXBymJfrcvT2apo6E9tAm2xpNf8Y77zLxd4zjCBdVJeS") >>= λ second.
      G.assimilate_balances ((first, 1000) ∷ (second, 2000) ∷ []) t >>= λ balances.
      some (empty_store balances)

  new_test_ext-empty_store :
      {s : Store T} → new_test_ext ≡ some s → (b : T.Balances) × (s ≡ empty_store b)
  unfolding new_test_ext
  new_test_ext-empty_store {s} made =
      let (t, _, h₁) = bind-some G.build_storage _ made in
      let (first, _, h₂) = bind-some (G.from_string _) _ h₁ in
      let (second, _, h₃) = bind-some (G.from_string _) _ h₂ in
      let (b, _, h₄) = bind-some (G.assimilate_balances _ t) _ h₃ in
      (b, sym (some-injective _ _ h₄))

  -- On a chain that starts as the tests do, no report on an errand is ever accepted: the genesis
  -- names no account that may report, and no call names one.
  new_test_ext-update_errand :
      IsLawful T
      → {s t : Store T} → new_test_ext ≡ some s
      → Reach T s t
      → (o : T.Origin) (c : Cid) (r : Bytes) → (update_errand T o c r t).0 ≢ ok tt
  unfolding build update_errand allow_to_update_result any_allowed
  new_test_ext-update_errand law {s} {t} made reach o c r =
      let (b, start) = new_test_ext-empty_store made in
      let none_given : GenesisConfig = record {
        development_mode = false;
        update_result_accounts = [];
      } in
      let (_, _, _, listed) =
        genesis_chain law none_given b (subst (λ s. Reach T s t) start reach) in
      λ accepted. elim (Result-cases (T.ensure_signed o)) [
        | inl (e, refused) ↦ ground (arith, accepted, refused)
        | inr (a, sent) ↦ elim (Result-cases (account_to_bytes T a)) [
          | inl (e, bad) ↦ ground (arith, accepted, sent, bad)
          | inr (x, good) ↦ ground (arith, accepted, sent, good, listed)
        ]
      ]
