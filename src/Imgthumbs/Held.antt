-- ===== src/Imgthumbs/Held.antt =====
-- The thumbnails of examples/imgthumbs and the resources that hold them: what is kept between the
-- callbacks of src/thumbs.c, and how it survives a change of one slot of the table.
use libresman.Base.{
  ℕ, ◌≡◌, ◌≢◌, refl, sym, ap, ◌∙◌, subst, true, Option, none, some, List, [], ◌∷◌, ◌==◌, get_elem?,
  arith, ◌⊎◌, inl, inr, Bool-cases,
}
use libresman.Resman.{Resource}
use libresman.Resman.Work.{minus_one}
use libresman.Imgthumbs.{Image, Thumbnail, update}
use libresman.Imgthumbs.Chain.{Cells, Apart, Chain, IsList, same_cell}
use libresman.Imgthumbs.Link.{payload}

abbrev pub Slots : Type 0
Slots = List (Option (Resource (Option ℕ)))

abbrev pub In : ℕ → List ℕ → Type 0
In n [] = ⊥
In n (m ∷ ms) = (n ≡ m) ⊎ In n ms

module _ {F : Type 0} where
  -- A thumbnail may change as long as it keeps its place.
  pub Chain-write :
      (cell : Cells F) (n : ℕ) (t t' : Thumbnail F) (prev p : Option ℕ) (ns : List ℕ)
      → cell n ≡ some t
      → t'.prev ≡ t.prev
      → t'.next ≡ t.next
      → Chain cell prev p ns
      → Chain (update cell n (some t')) prev p ns
  Chain-write cell n t t' prev p [] at a b c = c
  Chain-write cell n t t' prev p (m ∷ ms) at a b (e, (u, at_m, back, rest)) =
      elim (Bool-cases (m == n)) [
        | inl here ↦
            let same : m ≡ n = ground (arith, here) in
            let one : u ≡ t = same_cell at_m (rw same at) in
            (
              e,
              (
                t',
                ground (arith, here),
                a ∙ ap (λ (v : Thumbnail F). v.prev) (sym one) ∙ back,
                Chain-write cell n t t' (some m) t'.next ms at a b (
                    subst (λ q. Chain cell (some m) q ms)
                      (ap (λ (v : Thumbnail F). v.next) one ∙ sym b) rest),
              ),
            )
        | inr there ↦ (
          e,
          (
            u,
            ground (arith, there, at_m),
            back,
            Chain-write cell n t t' (some m) u.next ms at a b rest,
          ),
        )
      ]

  pub IsList-write :
      (cell : Cells F) (n : ℕ) (t t' : Thumbnail F) (p : Option ℕ) (ns : List ℕ)
      → cell n ≡ some t
      → t'.prev ≡ t.prev
      → t'.next ≡ t.next
      → IsList cell p ns
      → IsList (update cell n (some t')) p ns
  IsList-write cell n t t' p ns at a b v = record {
    linked = Chain-write cell n t t' none p ns at a b v.linked;
    distinct = v.distinct;
  }

  pub payload-some :
      (o : Option (Thumbnail F)) (t : Thumbnail F)
      → payload o ≡ payload (some t)
      → (u : Thumbnail F) × (o ≡ some u) × (u.list ≡ t.list) × (u.img ≡ t.img)
  payload-some none t e = absurd (cc e)
  payload-some (some u) t e = (u, refl, ground (arith, e), ground (arith, e))

  -- What holds for a resource `r` with the thumbnail `t` at the block `n`: it is of the list, and
  -- stands in it once it was loaded; until then it stands alone. A load that succeeded left an image.
  pub record Owned (h : ℕ) (ns : List ℕ) (r : Resource (Option ℕ)) (n : ℕ) (t : Thumbnail F)
      : Type 0 where
    pub points : r.data' ≡ some n
    pub of_list : t.list ≡ some h
    pub alone : r.num_loads ≡ 0 → (Apart n (h ∷ ns)) × (t.prev ≡ none) × (t.next ≡ none)
    pub shown : r.num_loads ≢ 0 → In n ns
    pub ready :
        r.done_pending ≡ true → (r.result ≡ minus_one) ⊎ ((img : Image) × (t.img ≡ some img))

  abbrev pub Holding : Cells F → ℕ → List ℕ → Resource (Option ℕ) → Type 0
  Holding cell h ns r = (n : ℕ) × (t : Thumbnail F) × (cell n ≡ some t) × Owned h ns r n t

  -- Every resource in the table holds a thumbnail, and no two hold the same.
  pub record Held (cell : Cells F) (h : ℕ) (ns : List ℕ) (xs : Slots) : Type 0 where
    pub owns :
        (i : ℕ) (r : Resource (Option ℕ)) → get_elem? xs i ≡ some (some r) → Holding cell h ns r
    pub differ :
        (i j : ℕ) (r q : Resource (Option ℕ))
        → get_elem? xs i ≡ some (some r)
        → get_elem? xs j ≡ some (some q)
        → i ≢ j
        → r.data' ≢ q.data'
