-- ===== src/Tests/ThreadWitnesses.antt =====
-- The theorems about the runs that share the local storage at concrete inputs.
use substrate_demo.Prelude.{ℕ, ◌≡◌, refl, true, false, [], ◌∷◌, ◌++◌, bytes_eq, nat_eq, map}
use substrate_demo.Prelude.StorageMap
use substrate_demo.Offchain.Storage.{
  local_storage_tasks_results_key, local_storage_tasks_results_lock,
}
use substrate_demo.Offchain.Signing.{Node}
use substrate_demo.Offchain.Threads.{adding, draining, update, stored_or_none, advance}
use substrate_demo.Offchain.Threads.Moves.{report_of, critical}
use substrate_demo.Offchain.Threads.System.{
  written, reports, view, System, moves, starts, Reach, idle, later, begin,
}
use substrate_demo.Offchain.Threads.Refines.{IsQuietSigner}
use substrate_demo.Offchain.Threads.Safety.{
  mutual_exclusion, results_reported_once, left_lock_stays,
}
use substrate_demo.Tests.Samples.{production, cid, start}
use substrate_demo.Tests.NodeMock.{
  NodeWorld, flag, results, result_info, node_mock, node_mock-IsLawfulStorage,
}

node_mock-IsQuietSigner : IsQuietSigner node_mock
node_mock-IsQuietSigner = record { get-send_signed = λ c k f call w. refl }

abbrev world : NodeWorld
world = record {
  storage =
      StorageMap.insert local_storage_tasks_results_key (results ((cid, result_info) ∷ []))
        StorageMap.empty;
  keys = 7 ∷ [];
}

abbrev node : Node node_mock
node = record { chain = start production; world = world; submitted = [] }

-- Run 0 sends what is stored; run 1 comes too late for the lock.
abbrev s₀ : System node_mock
s₀ = begin node_mock node

abbrev s₁ : System node_mock
s₁ = record s₀ { pcs = update s₀.pcs 0 draining }

abbrev s₂ : System node_mock
s₂ = record s₁ { pcs = update s₁.pcs 1 (adding (cid, result_info)) }

abbrev turn : System node_mock → ℕ → System node_mock
turn s i =
    let (pc, n) = advance node_mock (s.pcs i) s.node in
    record { node = n; pcs = update s.pcs i pc; added = s.added ++ written (s.pcs i) }

contended : Reach node_mock s₀ (turn (turn s₂ 0) 1)
unfolding nat_eq
contended =
    later
      (later
        (later (later idle (starts 0 draining refl refl refl))
          (starts 1 (adding (cid, result_info)) refl refl refl))
        (moves 0 refl))
      (moves 1 refl)

mutual_exclusion_example : Path ℕ 0 0
unfolding advance nat_eq bytes_eq
mutual_exclusion_example =
    mutual_exclusion node_mock-IsLawfulStorage node_mock-IsQuietSigner refl contended 0 0 refl refl

abbrev sent : System node_mock
sent = turn (turn (turn (turn (turn (turn s₂ 0) 1) 0) 0) 0) 0

all_sent : Reach node_mock s₀ sent
all_sent =
    later (later (later (later contended (moves 0 refl)) (moves 0 refl)) (moves 0 refl))
      (moves 0 refl)

results_reported_once_example :
    sent.added
    ≡ reports sent.node.submitted
      ++ map report_of (
          stored_or_none
            (node_mock.get node_mock.results_codec local_storage_tasks_results_key sent.node.world))
unfolding advance nat_eq bytes_eq
results_reported_once_example =
    results_reported_once node_mock-IsLawfulStorage node_mock-IsQuietSigner refl all_sent refl

abbrev left : System node_mock
left = begin node_mock (record node {
  world = record world {
    storage = StorageMap.insert local_storage_tasks_results_lock (flag true) world.storage;
  };
})

abbrev left₁ : System node_mock
left₁ = record left { pcs = update left.pcs 0 draining }

refused : Reach node_mock left (turn left₁ 0)
unfolding nat_eq
refused = later (later idle (starts 0 draining refl refl refl)) (moves 0 refl)

left_lock_stays_example :
    (view node_mock (turn left₁ 0).added (turn left₁ 0).node ≡ view node_mock left.added left.node)
    × ((i : ℕ) → critical ((turn left₁ 0).pcs i) ≡ false)
unfolding bytes_eq
left_lock_stays_example =
    left_lock_stays node_mock-IsLawfulStorage node_mock-IsQuietSigner refused refl (λ i. refl)
