-- ===== src/Pallet/AnyOrder.antt =====
-- The order in which the open errands are listed: what it means that code does not look at it.
use mathlib.Core.List.{Perm, Permᴰ}
use mathlib.Core.List.Permᴰ
use mathlib.Core.Logic.{∥∥₁_elim}
use substrate_demo.Prelude.{
  ◌≡◌, refl, sym, ap, ◌∙◌, subst, Bool, true, false, List, ◌∷◌, ◌==◌, bytes_eq, without,
  if◌then◌else◌,
}
use substrate_demo.Pallet.Types.{Cid}
use substrate_demo.Pallet.Config.{Trait}
use substrate_demo.Pallet.Store.{Store, Dispatch}

-- One element that is kept or left out in both lists.
keep-Permᴰ :
    (b : Bool) (x : Cid) {xs ys : List Cid}
    → Permᴰ xs ys
    → Permᴰ (if b then xs else x ∷ xs) (if b then ys else x ∷ ys)
keep-Permᴰ true x p = p
keep-Permᴰ false x p = Permᴰ.cons refl p

keep-Permᴰ_swap :
    (b d : Bool) (x y : Cid) (l : List Cid)
    → Permᴰ
        (if b then (if d then l else y ∷ l) else x ∷ (if d then l else y ∷ l))
        (if d then (if b then l else x ∷ l) else y ∷ (if b then l else x ∷ l))
keep-Permᴰ_swap true true x y l = Permᴰ.refl l
keep-Permᴰ_swap true false x y l = Permᴰ.refl (y ∷ l)
keep-Permᴰ_swap false true x y l = Permᴰ.refl (x ∷ l)
keep-Permᴰ_swap false false x y l = Permᴰ.swap refl refl

without-Permᴰ : (c : Cid) {xs ys : List Cid} → Permᴰ xs ys → Permᴰ (without c xs) (without c ys)
without-Permᴰ c Permᴰ.nil = Permᴰ.nil
without-Permᴰ c (Permᴰ.cons {a} {b} {l₁} {l₂} e p) =
    subst (λ y. Permᴰ (without c (a ∷ l₁)) (without c (y ∷ l₂))) e
      (keep-Permᴰ (a == c) a (without-Permᴰ c p))
without-Permᴰ c (Permᴰ.swap {a} {b} {a'} {b'} {l} e f) =
    subst (λ y. Permᴰ (without c (a ∷ b ∷ l)) (without c (a' ∷ y ∷ l))) e
      (subst (λ y. Permᴰ (without c (a ∷ b ∷ l)) (without c (y ∷ a ∷ l))) f
        (keep-Permᴰ_swap (a == c) (b == c) a b (without c l)))
without-Permᴰ c (Permᴰ.trans p q) = Permᴰ.trans (without-Permᴰ c p) (without-Permᴰ c q)

pub without-Perm : (c : Cid) {xs ys : List Cid} → Perm xs ys → Perm (without c xs) (without c ys)
without-Perm c p = ∥∥₁_elim p (hlevel) (λ q. ∣ without-Permᴰ c q ∣₁)

module _ {T : Trait} where
  abbrev pub with_open : Store T → List Cid → Store T
  with_open s l = record s { processing_errands = l }

  -- Storages that differ in the order of the open errands at most.
  pub record AgreesInAnyOrder (s t : Store T) : Type 0 where
    pub rest : t ≡ with_open s t.processing_errands
    pub order : Perm s.processing_errands t.processing_errands

  -- From such storages, code comes to the same result and to such storages.
  pub record Respects {A : Type 0} (m : Dispatch T A) : Type 0 where
    pub respects :
        (s t : Store T)
        → AgreesInAnyOrder s t
        → ((m t).0 ≡ (m s).0) × AgreesInAnyOrder (m s).1 (m t).1

  -- Code that does the same whatever the list of open errands is, and edits the list alike, by a
  -- function that keeps lists with the same elements so.
  pub edit-Respects :
      {A : Type 0} {m : Dispatch T A} (edit : Store T → List Cid → List Cid)
      → ((s : Store T) (l k : List Cid) → Perm l k → Perm (edit s l) (edit s k))
      → ((s : Store T) (l : List Cid) → m (with_open s l) ≡ ((m s).0, with_open (m s).1 (edit s l)))
      → Respects m
  edit-Respects {A} {m} edit keeps same = record {
    respects = λ s t g.
        let q = ap m g.rest ∙ same s t.processing_errands in
        let here : (m s).1.processing_errands ≡ edit s s.processing_errands =
          ap (λ p. p.1.processing_errands) (same s s.processing_errands) in
        let there : (m t).1.processing_errands ≡ edit s t.processing_errands =
          ap (λ p. p.1.processing_errands) q in
        (
          ap (λ p. p.0) q,
          record {
            rest = ap (λ p. p.1) q ∙ ap (with_open (m s).1) (sym there);
            order =
                subst (λ l. Perm l (m t).1.processing_errands) (sym here)
                  (subst (Perm (edit s s.processing_errands)) (sym there) (keeps s _ _ g.order));
          },
        );
  }

  -- Code that neither reads the list nor writes it.
  pub blind-Respects :
      {A : Type 0} {m : Dispatch T A}
      → ((s : Store T) (l : List Cid) → m (with_open s l) ≡ ((m s).0, with_open (m s).1 l))
      → Respects m
  blind-Respects same = edit-Respects (λ s l. l) (λ s l k p. p) same
