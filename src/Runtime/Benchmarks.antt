-- ===== src/Runtime/Benchmarks.antt =====
-- `dispatch_benchmark` of runtime/src/lib.rs, as built with the feature `runtime-benchmarks`.
use substrate_demo.Prelude.{
  ◌≡◌, ◌≢◌, ◌⊎◌, inl, inr, Bool, true, false, Bool-cases, List, [], ◌∷◌, map, Bytes, ok, err,
  Action, fail, pure, Result-cases, ◌>>=◌, arith,
}
use substrate_demo.Offchain.Text.{str}

-- The pallets that are benchmarked.
pub data Benchmarked : Type 0 where
  frame_system pallet_balances pallet_timestamp : Benchmarked

-- The crate `frame_benchmarking`: `add_benchmark!` runs the benchmarks of a pallet and pushes their
-- batches.
pub record Benchmarking : Type 1 where
  pub World : Type 0
  pub BenchmarkConfig : Type 0
  pub BenchmarkBatch : Type 0
  pub RuntimeString : Type 0
  pub runtime_string : Bytes → RuntimeString
  pub TrackedStorageKey : Type 0
  pub tracked_storage_key : Bytes → TrackedStorageKey
  pub hex : Bytes → Bytes
  pub add_benchmark :
      BenchmarkConfig × List TrackedStorageKey
      → List BenchmarkBatch
      → Benchmarked
      → Action World RuntimeString (List BenchmarkBatch)

-- The name that a configuration gives selects a pallet or not: one that is not selected is passed
-- over.
pub record IsLawfulBenchmarking (B : Benchmarking) : Type 0 where
  pub selects : B.BenchmarkConfig → Benchmarked → Bool
  pub add_benchmark_unselected :
      (config : B.BenchmarkConfig) (whitelist : List B.TrackedStorageKey)
      (batches : List B.BenchmarkBatch) (p : Benchmarked) (w : B.World)
      → selects config p ≡ false
      → B.add_benchmark (config, whitelist) batches p w ≡ (ok batches, w)

module _ (B : Benchmarking) where
  -- Block number, total issuance, execution phase, event count and system events.
  abbrev whitelist : List B.TrackedStorageKey
  whitelist =
      map (λ key. B.tracked_storage_key (B.hex key))
        (str "26aa394eea5630e07c48ae0c9558cef702a5c1b19ab7a04f536c519aca4983ac"
          ∷ str "c2261276cc9d1f8598ea4b6a74b15c2f57c875e4cff74148e4628f264b974c80"
          ∷ str "26aa394eea5630e07c48ae0c9558cef7ff553b5a9862a516939d82b3d3d8661a"
          ∷ str "26aa394eea5630e07c48ae0c9558cef70a98fdbe9ce6c55837576c60c7af3850"
          ∷ str "26aa394eea5630e07c48ae0c9558cef780d41e5e16056765bc8461851072c9d7"
          ∷ [])

  abbrev benchmark_not_found : B.RuntimeString
  benchmark_not_found = B.runtime_string (str "Benchmark not found for this pallet.")

  -- `if batches.is_empty() { return Err(…) }`
  abbrev some_batches :
      List B.BenchmarkBatch → Action B.World B.RuntimeString (List B.BenchmarkBatch)
  some_batches [] = fail benchmark_not_found
  some_batches (batch ∷ batches) = pure (batch ∷ batches)

  unfoldable dispatch_benchmark :
      B.BenchmarkConfig → Action B.World B.RuntimeString (List B.BenchmarkBatch)
  dispatch_benchmark config = do
    batches ← B.add_benchmark (config, whitelist) [] frame_system
    batches ← B.add_benchmark (config, whitelist) batches pallet_balances
    batches ← B.add_benchmark (config, whitelist) batches pallet_timestamp
    some_batches batches

  -- Code whose last part never returns an empty list never does.
  bind-nonempty :
      {A : Type 0} (m : Action B.World B.RuntimeString A)
      (f : A → Action B.World B.RuntimeString (List B.BenchmarkBatch))
      → ((a : A) (w : B.World) → (f a w).0 ≢ ok [])
      → (w : B.World) → ((m >>= f) w).0 ≢ ok []
  bind-nonempty m f last w = elim (Result-cases (m w).0) [
    | inl (e, failed) ↦ λ q. ground (arith, failed, q)
    | inr (a, done) ↦ λ q. ground (arith, done, q, last a (m w).1)
  ]

  some_batches-nonempty :
      (batches : List B.BenchmarkBatch) (w : B.World) → (some_batches batches w).0 ≢ ok []
  some_batches-nonempty [] w q = ground (arith, q)
  some_batches-nonempty (batch ∷ batches) w q = ground (arith, q)

  -- An empty list of batches never comes back. And batches come back only for a configuration that
  -- selects one of the three pallets: one that selects none fails with the message that no
  -- benchmark was found, and runs nothing.
  dispatch_benchmark-selects :
      (law : IsLawfulBenchmarking B) (config : B.BenchmarkConfig) (w : B.World)
      → ((dispatch_benchmark config w).0 ≢ ok [])
        × (((p : Benchmarked) × (law.selects config p ≡ true))
            ⊎ (dispatch_benchmark config w ≡ (err benchmark_not_found, w)))
  unfolding dispatch_benchmark
  dispatch_benchmark-selects law config w =
      let add = B.add_benchmark (config, whitelist) in
      let last : List B.BenchmarkBatch → Action B.World B.RuntimeString (List B.BenchmarkBatch) =
        λ batches. add batches pallet_timestamp >>= some_batches in
      (
        bind-nonempty (add [] frame_system) (λ batches. add batches pallet_balances >>= last)
            (λ batches. bind-nonempty (add batches pallet_balances) last (λ batches.
              bind-nonempty (add batches pallet_timestamp) some_batches some_batches-nonempty))
            w,
        elim (Bool-cases (law.selects config frame_system)) [
          | inl system ↦ inl (frame_system, system)
          | inr no_system ↦ elim (Bool-cases (law.selects config pallet_balances)) [
            | inl balances ↦ inl (pallet_balances, balances)
            | inr no_balances ↦ elim (Bool-cases (law.selects config pallet_timestamp)) [
              | inl timestamp ↦ inl (pallet_timestamp, timestamp)
              | inr no_timestamp ↦
                  let skip = law.add_benchmark_unselected config whitelist [] in
                  inr (
                    ground (
                      arith,
                      skip frame_system w no_system,
                      skip pallet_balances w no_balances,
                      skip pallet_timestamp w no_timestamp,
                    ))
            ]
          ]
        ],
      )
