-- ===== src/Offchain/Worker/Sending.antt =====
-- What `send_errand_tasks` does with the tasks of a block.
use substrate_demo.Prelude.{
  ◌≡◌, ◌≢◌, refl, ap, ◌∙◌, true, false, none, some, List, [], ◌∷◌, ◌++◌, arith, inl, inr,
  List-cases, ◌-◌,
}
use substrate_demo.Prelude.StorageMap
use substrate_demo.Pallet.Types.{TaskInfo}
use substrate_demo.Pallet.Config.{Trait, IsLawful}
use substrate_demo.Pallet.Store.{Store}
use substrate_demo.Offchain.World.{Offchain}
use substrate_demo.Offchain.Signing.{Node, signer_filter, submit, init_single_errand_task}
use substrate_demo.Offchain.Worker.Send.{send_to_delegator, send_one, send_all}

module _ {T : Trait} (O : Offchain T) where
  -- The storage of the block is the same, but for the balances.
  abbrev pub with_balances_of : Store T → Store T → Store T
  with_balances_of s t = record s { balances = t.balances }

  abbrev pub IsSameChain : Node O → Node O → Type 0
  IsSameChain n m = m.chain ≡ with_balances_of n.chain m.chain

  send_to_delegator-chain :
      (item : TaskInfo) (delegator : T.AccountId) (n : Node O)
      → (send_to_delegator O item delegator n).1.chain ≡ n.chain
  unfolding send_to_delegator
  send_to_delegator-chain item delegator n = ground arith

  pub send_to_delegator-submitted :
      (item : TaskInfo) (delegator : T.AccountId) (n : Node O)
      → (send_to_delegator O item delegator n).1.submitted ≡ n.submitted
  unfolding send_to_delegator
  send_to_delegator-submitted item delegator n = ground arith

  pub send_one-IsSameChain :
      (ids : List (T.AccountId × O.Public)) (item : TaskInfo) (n : Node O)
      → IsSameChain n (send_one O ids item n).1
  unfolding send_one send_to_delegator init_single_errand_task submit
  send_one-IsSameChain ids item n = ground arith

  pub send_all-IsSameChain :
      (ids : List (T.AccountId × O.Public)) (items : List TaskInfo) (n : Node O)
      → IsSameChain n (send_all O ids items n)
  unfolding send_all
  send_all-IsSameChain ids [] n = refl
  send_all-IsSameChain ids (item ∷ items) n = ground (
    arith,
    send_one-IsSameChain ids item n,
    send_all-IsSameChain ids items (send_one O ids item n).1,
  )

  send_one-stops :
      (ids : List (T.AccountId × O.Public)) (item : TaskInfo) (n : Node O)
      → n.chain.delegate_accounts item.delegator ≡ none
      → send_one O ids item n ≡ (false, n)
  unfolding send_one
  send_one-stops ids item n h = ground (arith, h)

  -- A task whose delegate's name is not registered ends the loop: the tasks behind it in the queue
  -- are not sent either, registered or not.
  pub send_all_unregistered :
      (ids : List (T.AccountId × O.Public)) (before : List TaskInfo) (item : TaskInfo)
      (after : List TaskInfo) (n : Node O)
      → n.chain.delegate_accounts item.delegator ≡ none
      → send_all O ids (before ++ item ∷ after) n ≡ send_all O ids before n
  unfolding send_all
  send_all_unregistered ids [] item after n h =
      let stopped = send_one-stops ids item n h in ground (arith, stopped)
  send_all_unregistered ids (b ∷ before) item after n h =
      let n' = (send_one O ids b n).1 in
      let same : n'.chain.delegate_accounts ≡ n.chain.delegate_accounts =
        ap (λ s. s.delegate_accounts) (send_one-IsSameChain ids b n) in
      let h' : n'.chain.delegate_accounts item.delegator ≡ none =
        ap (λ f. f item.delegator) same ∙ h in
      let rest = send_all_unregistered ids before item after n' h' in ground (arith, rest)

  -- A task with a registered delegate that has a local key, of a client that is another account: when
  -- the request to the delegate's machine fails, no call is sent for the task and the loop goes on;
  -- the fee is released from what the delegate has reserved, and what the client has reserved stays
  -- reserved.
  pub send_one_undelivered :
      IsLawful T
      → (ids : List (T.AccountId × O.Public)) (item : TaskInfo) (n : Node O)
        {delegator client : T.AccountId}
      → n.chain.delegate_accounts item.delegator ≡ some delegator
      → T.decode item.client ≡ some client
      → client ≢ delegator
      → signer_filter O delegator ids ≢ []
      → (send_to_delegator O item delegator n).0 ≡ false
      → let (go_on, n') = send_one O ids item n in
        (go_on ≡ true)
        × (n'.submitted ≡ n.submitted)
        × (T.reserved_balance n'.chain.balances client ≡ T.reserved_balance n.chain.balances client)
        × (T.reserved_balance n'.chain.balances delegator
            ≡ T.reserved_balance n.chain.balances delegator
              - StorageMap.get_or 0 client n.chain.client_task_fee)
  unfolding send_one
  send_one_undelivered law ids item n {delegator} {client} registered decoded other local failed =
      elim (List-cases (signer_filter O delegator ids)) [
        | inl foreign ↦ absurd (local foreign)
        | inr (k, keys, signs) ↦
            let fee = StorageMap.get_or 0 client n.chain.client_task_fee in
            let log = send_to_delegator-submitted item delegator n in
            let chain = send_to_delegator-chain item delegator n in
            let b : (send_one O ids item n).1.chain.balances
                ≡ (T.unreserve delegator fee n.chain.balances).1 =
              ground (arith, registered, decoded, signs, failed, chain) in
            (
              ground (arith, registered, decoded, signs, failed),
              ground (arith, registered, decoded, signs, failed, log),
              rw b (
                  ground
                    (arith, law.unreserve_reserved delegator client fee n.chain.balances, other)),
              rw b
                  (ground (arith, law.unreserve_reserved delegator delegator fee n.chain.balances)),
            )
      ]
