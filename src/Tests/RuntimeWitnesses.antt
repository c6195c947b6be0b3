-- ===== src/Tests/RuntimeWitnesses.antt =====
-- The theorems about the runtime at concrete inputs.
use substrate_demo.Prelude.{
  ℕ, ◌+◌, ◌*◌, ◌-◌, ◌/◌, ◌^◌, ◌<◌, ◌≤◌, ◌≡◌, ◌≢◌, refl, some, List, [], ◌∷◌, Bytes, arith,
}
use substrate_demo.Prelude.StorageMap
use substrate_demo.Offchain.Signing.{Node, get_account_ids}
use substrate_demo.Offchain.Worker.Results.{query_errand_task_results}
use substrate_demo.Runtime.Constants.{
  minutes, millisecs_per_block, Fractions, IsLawfulFractions, maximum_extrinsic_weight,
  maximum_block_weight, maximum_extrinsic_weight-maximum_block_weight,
}
use substrate_demo.Runtime.Timing.{query_errand_task_results-minutes}
use substrate_demo.Tests.NodeMock.{node_mock}
use substrate_demo.Tests.Mock.{mock-IsLawful}
use substrate_demo.Tests.Runs.{opened, opened-IsErrandBook, opened_errand}
use substrate_demo.Pallet.Accounts.{account_to_bytes}
use substrate_demo.Offchain.Worker.Querying.{Query, AreQueries, fetch_all}
use substrate_demo.Runtime.Transaction.{
  Signing, SignedExtra, SignedPayload, IsLawfulPayload, create_transaction,
  create_transaction_signed,
}

-- Calls are numbers, and a signature is the payload behind the key.
abbrev signing : Signing
signing = record {
  Call = ℕ;
  Era = ℕ × ℕ;
  mortal = λ period current. (period, current);
  Public = ℕ;
  Signature = Bytes;
  sign = λ payload public. some (public ∷ payload);
}

abbrev payload : SignedPayload signing
payload = record {
  Payload = ℕ × SignedExtra signing;
  new = λ c e. some (c, e);
  encoded = λ p. p.0 ∷ p.1.check_nonce ∷ [];
  deconstruct = λ p. p;
}

payload-IsLawfulPayload : IsLawfulPayload payload
payload-IsLawfulPayload = record { deconstruct-new = λ c e p h. ground (arith, h) }

abbrev extra : SignedExtra signing
extra = record { check_era = (2400, 8); check_nonce = 3; charge_transaction_payment = 0 }

create_transaction_signed_example :
    (Path ℕ 5 5)
    × (Path Bytes (7 ∷ []) (7 ∷ []))
    × (extra.check_nonce ≡ 3)
    × (extra.charge_transaction_payment ≡ 0)
    × (extra.check_era ≡ signing.mortal 2400 8)
    × (p : payload.Payload) × (payload.new 5 extra ≡ some p)
    × (signing.sign (payload.encoded p) 2 ≡ some (2 ∷ 5 ∷ 3 ∷ []))
unfolding create_transaction
create_transaction_signed_example =
    create_transaction_signed payload payload-IsLawfulPayload 9 5 2 (7 ∷ []) 3 {call' = 5}
      {address = 7 ∷ []} {signature = 2 ∷ 5 ∷ 3 ∷ []} {extra = extra} refl

-- A node of account 7, which may report, on a chain with an open errand.
abbrev waiting : Node node_mock
waiting = record {
  chain = opened;
  world = record { storage = StorageMap.empty; keys = 7 ∷ [] };
  submitted = [];
}

query_errand_task_results-minutes_example :
    (minutes * millisecs_per_block ≡ 60000)
    × (k : ℕ) × (k < minutes)
    × ((queries : List Query) × AreQueries opened opened.processing_errands queries
        × (query_errand_task_results node_mock (13 + k) waiting
            ≡ record waiting { world = fetch_all node_mock queries waiting.world }))
    × ((j : ℕ)
        → j < minutes
        → j ≢ k
        → query_errand_task_results node_mock (13 + j) waiting ≡ waiting)
unfolding get_account_ids account_to_bytes
query_errand_task_results-minutes_example =
    query_errand_task_results-minutes node_mock mock-IsLawful waiting 13 opened-IsErrandBook
      opened_errand.2

-- Billionths, and a product that is rounded to the nearest number.
abbrev fractions : Fractions
fractions = record {
  Perbill = ℕ;
  parts = λ p. p;
  from_percent = λ p. p * 10 ^ 7;
  saturating_sub = λ p q. p - q;
  times = λ p w. (p * w + 5 * 10 ^ 8) / 10 ^ 9;
  weight_per_second = 10 ^ 12;
}

fractions-IsLawfulFractions : IsLawfulFractions fractions
fractions-IsLawfulFractions = record {
  parts-from_percent = λ p h. refl;
  parts-saturating_sub = λ p q h. omega (arith, h);
  times_le = λ p w. omega arith;
  times_ge = λ p w. omega arith;
}

maximum_extrinsic_weight-maximum_block_weight_example :
    let extrinsic = maximum_extrinsic_weight fractions in
    let block = maximum_block_weight fractions in
    (100 * extrinsic ≤ 65 * block + 50)
    × (65 * block ≤ 100 * extrinsic + 50)
    × (1000 * extrinsic + 100 * block ≤ 750 * block + 500)
maximum_extrinsic_weight-maximum_block_weight_example =
    maximum_extrinsic_weight-maximum_block_weight fractions fractions-IsLawfulFractions
