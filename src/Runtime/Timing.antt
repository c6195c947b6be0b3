-- ===== src/Runtime/Timing.antt =====
-- How often the worker of pallets/abc-demo/src/lib.rs asks for results, in the time of
-- runtime/src/lib.rs.
use substrate_demo.Prelude.{ℕ, ◌+◌, ◌-◌, ◌*◌, ◌%◌, ◌<◌, ◌≡◌, ◌≢◌, refl, true, List, arith}
use substrate_demo.Pallet.Config.{Trait, IsLawful}
use substrate_demo.Pallet.Books.{errand_book}
use substrate_demo.Pallet.Invariant.{IsErrandBook}
use substrate_demo.Offchain.World.{Offchain}
use substrate_demo.Offchain.Signing.{Node}
use substrate_demo.Offchain.Worker.Results.{may_report, query_errand_task_results}
use substrate_demo.Offchain.Worker.Querying.{
  Query, AreQueries, fetch_all, query_errand_task_results-AreQueries,
}
use substrate_demo.Runtime.Constants.{minutes, millisecs_per_block}

module _ {T : Trait} (O : Offchain T) (L : IsLawful T) where
  -- Among as many consecutive heights as make a minute, wherever they begin, there is one at which a
  -- node that may report results asks for the result of each entry of the list of open errands, in
  -- the order of the list and at the address of its client's delegate; at all others it asks for
  -- none and the node stays as it is. The errands of the chain are in order, as they are on every
  -- chain that calls reach from genesis. The blocks of such a minute take 60000 milliseconds
  -- together.
  pub query_errand_task_results-minutes :
      (n : Node O) (height : ℕ)
      → IsErrandBook (errand_book n.chain)
      → may_report O n ≡ true
      → (minutes * millisecs_per_block ≡ 60000)
        × (k : ℕ) × (k < minutes)
        × ((queries : List Query) × AreQueries n.chain n.chain.processing_errands queries
            × (query_errand_task_results O (height + k) n
                ≡ record n { world = fetch_all O queries n.world }))
        × ((j : ℕ) → j < minutes → j ≢ k → query_errand_task_results O (height + j) n ≡ n)
  unfolding minutes query_errand_task_results
  query_errand_task_results-minutes n height v may =
      let k = (10 - height % 10) % 10 in
      (
        refl,
        k,
        omega arith,
        query_errand_task_results-AreQueries O L (height + k) n v (omega arith) may,
        λ j below other.
            let odd : (height + j) % 10 ≢ 0 = λ e. other (omega (arith, e, below)) in
            ground (arith, odd),
      )
