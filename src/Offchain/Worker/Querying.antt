-- ===== src/Offchain/Worker/Querying.antt =====
-- Which results the worker asks for, on a chain whose books are in order.
use substrate_demo.Prelude.{
  ℕ, ◌%◌, ◌≡◌, refl, ap, ◌∙◌, inl, inr, true, Option-cases, some, List, [], ◌∷◌, bytes_eq, arith,
  contains,
}
use substrate_demo.Prelude.StorageMap
use substrate_demo.Pallet.Types.{Cid, ErrandId, NetAddress, Errand, processing}
use substrate_demo.Pallet.Config.{Trait, IsLawful}
use substrate_demo.Pallet.Store.{Store}
use substrate_demo.Pallet.Books.{errand_book, is_open}
use substrate_demo.Pallet.Branches.{ErrandStatus-cases}
use substrate_demo.Pallet.Invariant.{IsErrandBook}
use substrate_demo.Offchain.World.{Offchain}
use substrate_demo.Offchain.Task.{fetch_single_task_result}
use substrate_demo.Offchain.Signing.{Node}
use substrate_demo.Offchain.Worker.Results.{
  may_report, query_one, query_all, query_errand_task_results,
}

-- The id of an errand, its description, and the address of the client's delegate.
abbrev pub Query : Type 0
Query = ErrandId × Cid × NetAddress

module _ {T : Trait} where
  abbrev pub address_of : Store T → T.AccountId → NetAddress
  address_of s client =
      StorageMap.get_or [] (StorageMap.get_or T.default_account client s.client_delegate)
        s.delegate_net_address

  -- One query for each description of the list, in its order: of an errand that is open, at the
  -- address of the delegate of its client.
  abbrev pub AreQueries : Store T → List Cid → List Query → Type 0
  AreQueries s [] queries = queries ≡ []
  AreQueries s (c ∷ cids) queries =
      (errand : Errand) × (client : T.AccountId) × (rest : List Query) × (s.errands c ≡ some errand)
      × (errand.status ≡ processing)
      × (errand.account_id ≡ T.encode client)
      × (queries ≡ (errand.errand_id, c, address_of s client) ∷ rest)
      × AreQueries s cids rest

  open_errand :
      (s : Store T) (c : Cid)
      → is_open (s.errands c) ≡ true
      → (errand : Errand) × (s.errands c ≡ some errand) × (errand.status ≡ processing)
  open_errand s c h = elim (Option-cases (s.errands c)) [
    | inl unset ↦ absurd (ground (arith, h, unset))
    | inr (errand, found) ↦ elim (ErrandStatus-cases errand.status) [
      | inl running ↦ (errand, found, running)
      | inr closed ↦ absurd (ground (arith, h, found, closed))
    ]
  ]

  module _ (O : Offchain T) where
    -- The queries are made one after the other, whatever their answers are.
    abbrev pub fetch_all : List Query → O.World → O.World
    fetch_all [] w = w
    fetch_all ((id, cid, address) ∷ queries) w =
        fetch_all queries (fetch_single_task_result O id cid address w).1

  module _ (O : Offchain T) (L : IsLawful T) where
    query_all-AreQueries :
        (items : List Cid) (n : Node O)
        → IsErrandBook (errand_book n.chain)
        → ((c : Cid) → contains c items ≡ true → is_open (n.chain.errands c) ≡ true)
        → (queries : List Query) × AreQueries n.chain items queries
          × (query_all O items n ≡ record n { world = fetch_all O queries n.world })
    unfolding query_all query_one
    query_all-AreQueries [] n v running = ([], refl, refl)
    query_all-AreQueries (c ∷ items) n v running =
        let (errand, found, status) = open_errand n.chain c (running c (ground arith)) in
        let (client, owner) = v.owned c errand found in
        let address = address_of n.chain client in
        let w = (fetch_single_task_result O errand.errand_id c address n.world).1 in
        let n' : Node O = record n { world = w } in
        let one : query_one O c n ≡ n' =
          ground (arith, found, owner, L.decode-encode client, v.keyed c errand found) in
        let (rest, queried, all) =
          query_all-AreQueries items n' v (λ k h. running k (ground (arith, h))) in
        (
          (errand.errand_id, c, address) ∷ rest,
          (errand, client, rest, found, status, owner, refl, queried),
          ap (query_all O items) one ∙ all,
        )

    -- On a chain whose errands are in order, as they are on every chain that calls reach from
    -- genesis, a node that may report results asks at every tenth block for the result of each entry
    -- of the list of open errands, in the order of the list, by the id of the errand and at the address
    -- of its client's delegate. Each of these errands exists, is open and has a client that can be
    -- read, and no answer ends the loop early.
    pub query_errand_task_results-AreQueries :
        (height : ℕ) (n : Node O)
        → IsErrandBook (errand_book n.chain)
        → height % 10 ≡ 0
        → may_report O n ≡ true
        → (queries : List Query) × AreQueries n.chain n.chain.processing_errands queries
          × (query_errand_task_results O height n
              ≡ record n { world = fetch_all O queries n.world })
    unfolding query_errand_task_results
    query_errand_task_results-AreQueries height n v tenth may =
        let (queries, queried, all) =
          query_all-AreQueries n.chain.processing_errands n v
            (λ c h. ground (arith, h, v.listed c)) in
        (queries, queried, ground (arith, tenth, may, all))
