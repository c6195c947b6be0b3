-- ===== src/Offchain/Locking.antt =====
-- The lock protocol of `operate_local_storage`, and the round trip of a delegate's info through it.
use substrate_demo.Prelude.{
  Option-cases, Bool-cases, ◌≡◌, ◌≢◌, ap, subst, ◌∙◌, ◌⊎◌, inl, inr, true, false, none, some, Bytes,
  ok, err, arith, length,
}
use substrate_demo.Pallet.Config.{Trait}
use substrate_demo.Offchain.World.{Offchain, IsLawfulStorage, DelegateInfo}
use substrate_demo.Offchain.Storage.{
  WorkerError, with_key, storage_locked, storage_lock_error, acquire, operate_local_storage,
  local_storage_tasks_results_key, local_storage_tasks_results_lock,
}
use substrate_demo.Offchain.Delegate.{
  client_key, client_lock_key, save_delegate_info, load_delegate_info,
}

-- The key of the results is not the key of their lock.
pub tasks_results_key-ne-lock : local_storage_tasks_results_key ≢ local_storage_tasks_results_lock
tasks_results_key-ne-lock e = omega (arith, ap length e)

module _ {T : Trait} (O : Offchain T) where
  -- A lock is free that was never set or that reads `false`.
  abbrev pub IsFree : Bytes → O.World → Type 0
  IsFree k w = (O.get O.bool_codec k w ≡ none) ⊎ (O.get O.bool_codec k w ≡ some (some false))

  -- The attempt to take the lock succeeds: it is free, and no other thread is faster.
  abbrev pub IsTaken : Bytes → Bytes → O.World → Type 0
  IsTaken key k w =
      O.mutate O.bool_codec k (acquire (with_key key storage_locked)) w
      ≡ (ok (ok true), O.set O.bool_codec k true w)

  pub operate_local_storage_taken :
      {R : Type 0} (key k : Bytes) (callback : Bytes → O.World → R × O.World) (w : O.World)
      → IsTaken key k w
      → operate_local_storage O key k callback w ≡ (
          let (r, w') = callback key (O.set O.bool_codec k true w) in
          (ok r, O.set O.bool_codec k false w'))
  unfolding operate_local_storage
  operate_local_storage_taken key k callback w taken = ground (arith, taken)

  module _ (L : IsLawfulStorage O) where
    pub acquire-cases :
        {E : Type 0} (k : Bytes) (w : O.World) (e : E)
        → (IsFree k w × (acquire e (O.get O.bool_codec k w) ≡ ok true))
          ⊎ (acquire e (O.get O.bool_codec k w) ≡ err e)
    acquire-cases k w e = elim (Option-cases (O.get O.bool_codec k w)) [
      | inl unset ↦ inl (inl unset, ground arith)
      | inr (o, set) ↦ elim (Option-cases o) [
        | inl garbled ↦ inr (ground arith)
        | inr (b, reads) ↦ elim (Bool-cases b) [
          | inl held ↦ inr (ground arith)
          | inr free ↦ inl (inr (ground arith), ground arith)
        ]
      ]
    ]

    module _ {R : Type 0} (key k : Bytes) (callback : Bytes → O.World → R × O.World)
        (w : O.World) where
      -- Either the lock was free and has been taken: then the callback has run once, in the world
      -- where the lock reads `true`, its result is returned, and the lock reads `false` at the end.
      -- Or the call fails, and nothing at all has been written.
      pub operate_local_storage-cases :
          (IsFree k w
            × (operate_local_storage O key k callback w ≡ (
                let (r, w') = callback key (O.set O.bool_codec k true w) in
                (ok r, O.set O.bool_codec k false w'))))
          ⊎ ((e : WorkerError) × (operate_local_storage O key k callback w ≡ (err e, w)))
      unfolding operate_local_storage
      operate_local_storage-cases = elim (acquire-cases k w (with_key key storage_locked)) [
        | inr held ↦ inr (
          with_key key storage_locked,
          ground (
            arith,
            L.mutate_refused O.bool_codec k (acquire (with_key key storage_locked)) w _ held,
          ),
        )
        | inl (free, accepted) ↦
            elim (L.mutate_accepted O.bool_codec k (acquire (with_key key storage_locked)) w true
              accepted) [
                | inl won ↦ inl (free, operate_local_storage_taken key k callback w won)
                | inr lost ↦ inr (with_key key storage_lock_error, ground (arith, lost))
              ]
      ]

      -- A lock that is free before the call is free after it, however the call ends.
      pub operate_local_storage-IsFree :
          IsFree k w → IsFree k (operate_local_storage O key k callback w).1
      operate_local_storage-IsFree free = elim operate_local_storage-cases [
        | inl (_, done) ↦ rw done (inr (L.get-set O.bool_codec k false _ (L.bool_roundtrip false)))
        | inr (e, failed) ↦ rw failed free
      ]

-- The key of a client's info is not the key of its lock.
client_key-ne-client_lock_key : (client : Bytes) → client_key client ≢ client_lock_key client
client_key-ne-client_lock_key client e = omega (arith, ap length e)

module _ {T : Trait} (O : Offchain T) (L : IsLawfulStorage O) where
  load_taken :
      (client : Bytes) (info : DelegateInfo) (w : O.World)
      → IsTaken O (client_key client) (client_lock_key client) w
      → O.get O.info_codec (client_key client) (O.set O.bool_codec (client_lock_key client) true w)
        ≡ some (some info)
      → (load_delegate_info O client w).0 ≡ ok info
  unfolding load_delegate_info
  load_taken client info w taken reads =
      rw
        (
          operate_local_storage_taken O (client_key client) (client_lock_key client)
              (λ key w. (O.get O.info_codec key w, w)) w taken,
          load_delegate_info,
        )
        (rw reads)

  -- What `save_delegate_info` has stored, `load_delegate_info` returns: if the save succeeds, a load
  -- right after it returns the same info, unless another thread takes the lock first.
  pub load-save :
      (client : Bytes) (info : DelegateInfo) (w : O.World)
      → let (r, w') = save_delegate_info O client info w in
        r ≡ ok tt
        → IsTaken O (client_key client) (client_lock_key client) w'
        → (load_delegate_info O client w').0 ≡ ok info
  unfolding save_delegate_info
  load-save client info w saved taken =
      let key = client_key client in
      let k = client_lock_key client in
      let ne = client_key-ne-client_lock_key client in
      elim (operate_local_storage-cases O L key k (λ key w. (tt, O.set O.info_codec key info w))
        w) [
          | inr (e, failed) ↦ absurd (cc (ap (λ p. p.0) failed))
          | inl (free, done) ↦
              let w₁ = O.set O.info_codec key info (O.set O.bool_codec k true w) in
              let w₂ = O.set O.bool_codec k false w₁ in
              let reads : O.get O.info_codec key (O.set O.bool_codec k true w₂) ≡ some (some info) =
                L.get-set_other O.info_codec O.bool_codec key k true w₂ ne
                ∙ L.get-set_other O.info_codec O.bool_codec key k false w₁ ne
                ∙ L.get-set O.info_codec key info _ (L.info_roundtrip info) in
              let p : (save_delegate_info O client info w).1 ≡ w₂ = ap (λ p. p.1) done in
              rw p (load_taken client info w₂ (subst (IsTaken O key k) p taken) reads)
        ]
