-- ===== src/Offchain/Worker/Applications.antt =====
-- What `apply_delegates` sends for the applications of a block.
use mathlib.Core.List.{append-nil, append_assoc}
use substrate_demo.Prelude.{
  ◌≡◌, ◌≢◌, refl, ap, sym, ◌∙◌, ◌⊎◌, inl, inr, true, false, subst, is_ok, Option, some, List, [],
  ◌∷◌, ◌++◌, arith, List-cases, Result-cases,
}
use substrate_demo.Pallet.Types.{Call, DelegatorName}
use substrate_demo.Pallet.Config.{Trait}
use substrate_demo.Offchain.World.{Offchain}
use substrate_demo.Offchain.Signing.{Node, signer_filter}
use substrate_demo.Offchain.Worker.Apply.{apply_single_delegate, apply_one, apply_all}

module _ {T : Trait} (O : Offchain T) where
  abbrev pub Submission : Type 0
  Submission = Option (List O.Public) × Call T.AccountId

  -- The answer to an application: the account becomes a ready delegate if the request of the node to
  -- its machine succeeds, and is removed if not.
  abbrev pub IsAnswer : DelegatorName → T.AccountId → Node O → Call T.AccountId → Type 0
  IsAnswer name account n c =
      ((is_ok (apply_single_delegate O account n).0 ≡ true)
        × (c ≡ Call.update_delegate_status account))
      ⊎ ((is_ok (apply_single_delegate O account n).0 ≡ false) × (c ≡ Call.unreserve name account))

  -- The calls answer the applications in their order: none for an account without a local key, and
  -- for any other one call, signed by the keys of that account alone, with the node as the
  -- applications before have left it.
  abbrev pub AreAnswers :
      List (T.AccountId × O.Public)
      → List (DelegatorName × T.AccountId)
      → Node O
      → List Submission
      → Type 0
  AreAnswers ids [] n subs = subs ≡ []
  AreAnswers ids ((name, account) ∷ accounts) n subs =
      ((signer_filter O account ids ≡ []) × AreAnswers ids accounts n subs)
      ⊎ ((c : Call T.AccountId) × (rest : List Submission) × (signer_filter O account ids ≢ [])
          × (subs ≡ (some (signer_filter O account ids), c) ∷ rest)
          × IsAnswer name account n c
          × AreAnswers ids accounts (apply_one O ids (name, account) n) rest)

  apply_single_delegate-submitted :
      (a : T.AccountId) (n : Node O) → (apply_single_delegate O a n).1.submitted ≡ n.submitted
  unfolding apply_single_delegate
  apply_single_delegate-submitted a n = ground arith

  apply_one-cases :
      (ids : List (T.AccountId × O.Public)) (name : DelegatorName) (account : T.AccountId)
      (n : Node O)
      → ((signer_filter O account ids ≡ []) × (apply_one O ids (name, account) n ≡ n))
        ⊎ ((c : Call T.AccountId) × (signer_filter O account ids ≢ [])
            × ((apply_one O ids (name, account) n).submitted
                ≡ n.submitted ++ (some (signer_filter O account ids), c) ∷ [])
            × IsAnswer name account n c)
  unfolding apply_one
  apply_one-cases ids name account n = elim (List-cases (signer_filter O account ids)) [
    | inl foreign ↦ inl (foreign, ground (arith, foreign))
    | inr (k, keys, local) ↦
        let log = apply_single_delegate-submitted account n in
        elim (Result-cases (apply_single_delegate O account n).0) [
          | inl (e, failed) ↦ inr (
            Call.unreserve name account,
            ground (arith, local),
            ground (arith, local, failed, log),
            inr (ground (arith, failed), refl),
          )
          | inr (_, done) ↦ inr (
            Call.update_delegate_status account,
            ground (arith, local),
            ground (arith, local, done, log),
            inl (ground (arith, done), refl),
          )
        ]
  ]

  pub apply_all-AreAnswers :
      (ids : List (T.AccountId × O.Public)) (accounts : List (DelegatorName × T.AccountId))
      (n : Node O)
      → (subs : List Submission) × ((apply_all O ids accounts n).submitted ≡ n.submitted ++ subs)
        × AreAnswers ids accounts n subs
  unfolding apply_all
  apply_all-AreAnswers ids [] n = ([], sym (append-nil n.submitted), refl)
  apply_all-AreAnswers ids ((name, account) ∷ accounts) n =
      let (subs, sent, answered) =
        apply_all-AreAnswers ids accounts (apply_one O ids (name, account) n) in
      elim (apply_one-cases ids name account n) [
        | inl (foreign, same) ↦ (
          subs,
          sent ∙ ap (λ m. m.submitted ++ subs) same,
          inl (foreign, subst (λ m. AreAnswers ids accounts m subs) same answered),
        )
        | inr (c, local, one, which) ↦ (
          (some (signer_filter O account ids), c) ∷ subs,
          sent
              ∙ ap (λ l. l ++ subs) one
              ∙ append_assoc n.submitted ((some (signer_filter O account ids), c) ∷ []) subs,
          inr (c, subs, local, refl, which, answered),
        )
      ]
