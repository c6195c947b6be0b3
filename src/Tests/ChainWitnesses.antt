-- ===== src/Tests/ChainWitnesses.antt =====
-- The theorems about the money of a chain and about the order of its open errands at concrete inputs.
use mathlib.Core.List.{Permᴰ}
use substrate_demo.Prelude.{
  ℕ, ◌+◌, ◌*◌, ◌≤◌, length, ◌≡◌, refl, none, some, List, [], ◌∷◌, nat_eq, bytes_eq, arith, true,
  contains, ok,
}
use substrate_demo.Pallet.Types.{Call, errand_status_eq, Cid}
use substrate_demo.Pallet.Store.{Store}
use substrate_demo.Pallet.Sums.{sum_over}
use substrate_demo.Pallet.Conservation.{holdings}
use substrate_demo.Pallet.Money.{AreSignedBy, dispatch_all-holdings}
use substrate_demo.Pallet.AnyOrder.{AgreesInAnyOrder}
use substrate_demo.Pallet.OrderFree.{dispatch_all-AgreesInAnyOrder}
use substrate_demo.Pallet.Chain.{Entry, entry_call, entry_block, dispatch_all}
use substrate_demo.Tests.Mock.{root, ensure_signed, minimum_balance, mock, mock-IsLawful, signed_by}
use substrate_demo.Tests.Samples.{purse, production, cid, start, errand, with_errand}

-- An errand from its registration to the two reports in three blocks, and a call that nobody has
-- signed.
abbrev course : List (Entry mock)
course =
    entry_block 1 (0 ∷ []) (some 0)
    ∷ entry_call (Call.request_delegate (5 ∷ []) (9 ∷ [])) (signed_by 2)
    ∷ entry_call (Call.update_delegate_status 2) (signed_by 2)
    ∷ entry_block 2 (1 ∷ []) (some 0)
    ∷ entry_call (Call.begin_task (5 ∷ []) cid 10) (signed_by 3)
    ∷ entry_call (Call.unreserve (8 ∷ []) 4) root
    ∷ entry_call (Call.init_errand 3 (6 ∷ []) cid) (signed_by 2)
    ∷ entry_block 3 (2 ∷ []) (some 1)
    ∷ entry_call (Call.update_errand cid (3 ∷ [])) (signed_by 7)
    ∷ entry_call (Call.update_errand cid (4 ∷ [])) (signed_by 8)
    ∷ []

abbrev accounts : List ℕ
accounts = 0 ∷ 2 ∷ 3 ∷ 7 ∷ 8 ∷ []

listed_signer :
    (a b : ℕ)
    → contains a accounts ≡ true
    → ensure_signed (signed_by a) ≡ ok b
    → contains b accounts ≡ true
listed_signer a b h sent = ground (arith, h, sent)

course-AreSignedBy : AreSignedBy mock accounts course
unfolding nat_eq
course-AreSignedBy =
    let l = λ (a : ℕ) (h : contains a accounts ≡ true) (b : ℕ). listed_signer a b h in
    (
      l 2 refl,
      (l 2 refl, (l 3 refl, ((λ b h. ground (arith, h)), (l 2 refl, (l 7 refl, (l 8 refl, tt)))))),
    )

dispatch_all-holdings_example :
    let (results, t) = dispatch_all mock course (start production) in
    (sum_over (holdings mock t.balances) accounts ≤ 5000)
    × (5000 ≤ sum_over (holdings mock t.balances) accounts + length results * minimum_balance)
unfolding nat_eq
dispatch_all-holdings_example =
    dispatch_all-holdings mock mock-IsLawful accounts (refl, (refl, (refl, (refl, (refl, tt)))))
      refl production purse course course-AreSignedBy

abbrev listed : List Cid → Store mock
listed l = record (with_errand errand (start production)) { processing_errands = l }

-- The two reports that end an errand, which is listed before or after another.
abbrev reports : List (Entry mock)
reports =
    entry_call (Call.update_errand cid (3 ∷ [])) (signed_by 7)
    ∷ entry_block 1 (0 ∷ []) none
    ∷ entry_call (Call.update_errand cid (4 ∷ [])) (signed_by 8)
    ∷ []

dispatch_all-AgreesInAnyOrder_example :
    let s = listed (cid ∷ (2 ∷ []) ∷ []) in
    let t = listed ((2 ∷ []) ∷ cid ∷ []) in
    ((dispatch_all mock reports t).0 ≡ (dispatch_all mock reports s).0)
    × AgreesInAnyOrder (dispatch_all mock reports s).1 (dispatch_all mock reports t).1
dispatch_all-AgreesInAnyOrder_example =
    dispatch_all-AgreesInAnyOrder mock reports (listed (cid ∷ (2 ∷ []) ∷ []))
      (listed ((2 ∷ []) ∷ cid ∷ [])) (record { rest = refl; order = ∣ Permᴰ.swap refl refl ∣₁ })
