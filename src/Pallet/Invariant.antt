-- ===== src/Pallet/Invariant.antt =====
-- The invariant of the errands: what every execution of the chain keeps true of `Errands`,
-- `ProcessingErrands` and `CompletedErrands`.
use mathlib.Core.Logic.{if_pos, if_neg}
use substrate_demo.Prelude.{
  ◌≤◌, ◌≡◌, sym, subst, true, false, some, [], ◌∷◌, Bytes, bytes_eq, contains, contains-push,
  contains-without, length-append, All, All-append, arith, is_some,
}
use substrate_demo.Prelude.StorageMap
use substrate_demo.Prelude.StorageMap.{StorageMap}
use substrate_demo.Pallet.Types.{Errand, processing, done, Cid, ErrandId}
use substrate_demo.Pallet.Config.{Trait}
use substrate_demo.Pallet.Store.{Store, push_or_insert_lem, get_or-push_or_insert}
use substrate_demo.Pallet.Books.{
  ErrandBook, errand_book, IsReporter, ErrandStep, unchanged, opened, reported, voted, decided,
  is_open, open_errand, add_vote, close_errand, vote_count,
}
use substrate_demo.Pallet.Call.{Reach, here, next}
use substrate_demo.Pallet.Refines.{Step-ErrandStep}

module _ {T : Trait} where
  pub record IsErrandBook (b : ErrandBook T) : Type 0 where
    pub keyed : (c : Cid) (e : Errand) → b.errands c ≡ some e → e.description_cid ≡ c
    -- `ProcessingErrands` lists the open errands.
    pub listed : (c : Cid) → contains c b.processing_errands ≡ is_open (b.errands c)
    -- An open errand has no result yet.
    pub pending :
        (c : Cid) (e : Errand) → b.errands c ≡ some e → e.status ≡ processing → e.result ≡ []
    pub owned :
        (c : Cid) (e : Errand)
        → b.errands c ≡ some e
        → (a : T.AccountId) × (e.account_id ≡ T.encode a)
    -- Every vote is one of an account that may report results, on an errand that exists.
    pub votes : (c : Cid) → All (IsReporter b) (StorageMap.get_or [] c b.completed_errands)
    pub voted_on : (c : Cid) → is_some (b.completed_errands c) ≡ true → is_some (b.errands c) ≡ true
    -- Outside the development mode, a finished errand has two votes at least.
    pub quorum :
        (c : Cid) (e : Errand)
        → b.development_mode ≡ false
        → b.errands c ≡ some e
        → e.status ≡ done
        → 2 ≤ vote_count c b

  module _ (b : ErrandBook T) (v : IsErrandBook b) where
    open_errand-IsErrandBook :
        (a : T.AccountId) (i : ErrandId) (c : Cid)
        → IsErrandBook (
            open_errand
              (record {
                account_id = T.encode a;
                errand_id = i;
                description_cid = c;
                status = processing;
                result = [];
              })
              b)
    open_errand-IsErrandBook a i c = record {
      keyed = λ k e h. ground (arith, v.keyed k e);
      listed = λ k. ground (arith, v.listed k, contains-push c k b.processing_errands);
      pending = λ k e h p. ground (arith, v.pending k e);
      owned = λ k e h. elim (bytes_eq.discrete k c) [
        | yes p ↦ (a, ground arith)
        | no n ↦ v.owned k e (ground arith)
      ];
      votes = λ k. v.votes k;
      voted_on = λ k h. ground (arith, v.voted_on k);
      quorum = λ k e d h f. ground (arith, v.quorum k e);
    }

    close_errand-IsErrandBook :
        (c : Cid) (e : Errand) (r : Bytes)
        → b.errands c ≡ some e
        → (b.development_mode ≡ false → 2 ≤ vote_count c b)
        → IsErrandBook (close_errand c e r b)
    close_errand-IsErrandBook c e r found enough = record {
      keyed = λ k x h. ground (arith, v.keyed k x, v.keyed c e found);
      listed = λ k. ground (arith, v.listed k, contains-without c k b.processing_errands);
      pending = λ k x h p. ground (arith, v.pending k x);
      owned = λ k x h. elim (bytes_eq.discrete k c) [
        | yes p ↦ let (a, own) = v.owned c e found in (a, ground arith)
        | no n ↦ v.owned k x (ground arith)
      ];
      votes = λ k. v.votes k;
      voted_on = λ k h. ground (arith, v.voted_on k);
      quorum = λ k x d h f. ground (arith, enough d, v.quorum k x);
    }

    add_vote-IsErrandBook :
        (a : T.AccountId) (c : Cid) (e : Errand)
        → IsReporter b a
        → b.errands c ≡ some e
        → IsErrandBook (add_vote c a b)
    add_vote-IsErrandBook a c e rep found = record {
      keyed = v.keyed;
      listed = v.listed;
      pending = v.pending;
      owned = v.owned;
      votes = λ k. rw get_or-push_or_insert (elim (bytes_eq.discrete k c) [
        | yes p ↦ rw (if_pos _ p) (All-append _ _ (a ∷ []) (v.votes c) (rep, tt))
        | no n ↦ rw (if_neg _ n) (v.votes k)
      ]);
      voted_on = λ k h. ground (arith, v.voted_on k, push_or_insert_lem c k a b.completed_errands);
      quorum = λ k x d h f. ground (
        arith,
        v.quorum k x,
        push_or_insert_lem c k a b.completed_errands,
        length-append (StorageMap.get_or [] c b.completed_errands) (a ∷ []),
      );
    }

  pub ErrandStep-IsErrandBook :
      {b b' : ErrandBook T} → ErrandStep b b' → IsErrandBook b → IsErrandBook b'
  ErrandStep-IsErrandBook {b} (unchanged e) v = subst IsErrandBook (sym e) v
  ErrandStep-IsErrandBook {b} (opened a i c e) v =
      subst IsErrandBook (sym e) (open_errand-IsErrandBook b v a i c)
  ErrandStep-IsErrandBook {b} (reported a c x r rep dev found e) v =
      subst IsErrandBook (sym e) (close_errand-IsErrandBook b v c x r found (λ prod. cc))
  ErrandStep-IsErrandBook {b} (voted a c x rep prod found e) v =
      subst IsErrandBook (sym e) (add_vote-IsErrandBook b v a c x rep found)
  ErrandStep-IsErrandBook {b} (decided a c x r rep prod found running enough e) v =
      subst IsErrandBook (sym e) (
        close_errand-IsErrandBook (add_vote c a b) (add_vote-IsErrandBook b v a c x rep found) c x r
          found (λ _. enough))

  -- From a storage whose errands are in order, every execution of the chain ends in such a storage:
  -- the listed errands are the open ones, no open errand has a result, every vote is of an account
  -- that may report, and outside the development mode no errand is finished on fewer than two votes.
  pub Reach-IsErrandBook :
      {s t : Store T} → Reach T s t → IsErrandBook (errand_book s) → IsErrandBook (errand_book t)
  Reach-IsErrandBook here v = v
  Reach-IsErrandBook (next r st) v =
      ErrandStep-IsErrandBook (Step-ErrandStep st) (Reach-IsErrandBook r v)
