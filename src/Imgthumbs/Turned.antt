-- ===== src/Imgthumbs/Turned.antt =====
-- What is kept between the callbacks of examples/imgthumbs/src/thumbs.c survives a change of one slot of
-- the table and of the thumbnail that it holds.
use libresman.Base.{
  ℕ, ◌≡◌, ◌≢◌, sym, ap, ◌∙◌, subst, Option, none, some, List, ◌∷◌, ◌==◌, get_elem?,
  get_elem?-set_self, get_elem?-set_ne, set, arith, ◌⊎◌, inl, inr, Bool-cases,
}
use libresman.Resman.{Resource}
use libresman.Resman.Owed.{lt-of-get_elem?}
use libresman.Imgthumbs.{Thumbnail}
use libresman.Imgthumbs.Chain.{Cells, Apart}
use libresman.Imgthumbs.Link.{payload}
use libresman.Imgthumbs.Held.{Slots, payload-some, Owned, Holding, Held}

same_resource : {r q : Resource (Option ℕ)} → some r ≡ some q → r ≡ q
same_resource e = cc e

-- A slot of a table of which the slot `i` was written.
slot_cases :
    (xs : Slots) (i j : ℕ) (x y : Option (Resource (Option ℕ))) (q : Resource (Option ℕ))
    → get_elem? xs i ≡ some x
    → get_elem? (set xs i y) j ≡ some (some q)
    → ((i ≡ j) × (y ≡ some q)) ⊎ ((i ≢ j) × (get_elem? xs j ≡ some (some q)))
slot_cases xs i j x y q at e = elim (Bool-cases (i == j)) [
  | inl same ↦
      let one : i ≡ j = ground (arith, same) in
      let there = get_elem?-set_self xs i y (lt-of-get_elem? xs i x at) in
      let back : get_elem? (set xs i y) i ≡ some (some q) = ap (get_elem? (set xs i y)) one ∙ e in
      inl (one, cc (there, back))
  | inr other ↦
      let ne : i ≢ j = ground (arith, other) in inr (ne, sym (get_elem?-set_ne xs i j y ne) ∙ e)
]

module _ {F : Type 0} (cell cell' : Cells F) (h : ℕ) (ns ns' : List ℕ) (xs : Slots) (i : ℕ)
    (r : Resource (Option ℕ)) (n : ℕ) (held : Held cell h ns xs)
    (at : get_elem? xs i ≡ some (some r)) (points : r.data' ≡ some n)
    (others : (q : Resource (Option ℕ)) (m : ℕ) (t : Thumbnail F)
      → cell m ≡ some t
      → Owned h ns q m t
      → m ≢ n
      → Holding cell' h ns' q) where
  other_slot :
      (j : ℕ) (q : Resource (Option ℕ))
      → i ≢ j
      → get_elem? xs j ≡ some (some q)
      → Holding cell' h ns' q
  other_slot j q ne there =
      let (m, t, at_m, o) = held.owns j q there in
      others q m t at_m o
        (λ same. held.differ i j r q at there ne (points ∙ ap some (sym same) ∙ sym o.points))

  -- The resource in the slot changes, but not what it points to.
  pub Held-set :
      (r' : Resource (Option ℕ))
      → r'.data' ≡ r.data'
      → Holding cell' h ns' r'
      → Held cell' h ns' (set xs i (some r'))
  Held-set r' same holds = record {
    owns = λ j q e. elim (slot_cases xs i j (some r) (some r') q at e) [
      | inl (here, is) ↦ subst (Holding cell' h ns') (same_resource is) holds
      | inr (ne, there) ↦ other_slot j q ne there
    ];
    differ = λ j k q s e f ne. elim (slot_cases xs i j (some r) (some r') q at e) [
      | inl (here, is) ↦ elim (slot_cases xs i k (some r) (some r') s at f) [
        | inl (here', is') ↦ absurd (ne (sym here ∙ here'))
        | inr (ne', there') ↦ λ eq.
            held.differ i k r s at there' ne'
              (sym same ∙ ap (λ (v : Resource (Option ℕ)). v.data') (same_resource is) ∙ eq)
      ]
      | inr (ne', there) ↦ elim (slot_cases xs i k (some r) (some r') s at f) [
        | inl (here', is') ↦ λ eq.
            held.differ i j r q at there ne'
              (sym same ∙ ap (λ (v : Resource (Option ℕ)). v.data') (same_resource is') ∙ sym eq)
        | inr (ne'', there') ↦ held.differ j k q s there there' ne
      ]
    ];
  }

  -- The resource in the slot is removed.
  pub Held-erase : Held cell' h ns' (set xs i none)
  Held-erase = record {
    owns = λ j q e. elim (slot_cases xs i j (some r) none q at e) [
      | inl (here, is) ↦ absurd (cc is)
      | inr (ne, there) ↦ other_slot j q ne there
    ];
    differ = λ j k q s e f ne. elim (slot_cases xs i j (some r) none q at e) [
      | inl (here, is) ↦ absurd (cc is)
      | inr (ne', there) ↦ elim (slot_cases xs i k (some r) none s at f) [
        | inl (here', is') ↦ absurd (cc is')
        | inr (ne'', there') ↦ held.differ j k q s there there' ne
      ]
    ];
  }

module _ {F : Type 0} (cell cell' : Cells F) (h : ℕ) (ns : List ℕ) (n : ℕ) where
  -- A thumbnail at another block than the one that is written stays.
  pub others-write :
      ((k : ℕ) → k ≢ n → cell' k ≡ cell k)
      → (q : Resource (Option ℕ)) (m : ℕ) (t : Thumbnail F) → cell m ≡ some t
      → Owned h ns q m t
      → m ≢ n
      → Holding cell' h ns q
  others-write frame q m t at o ne = (m, t, frame m ne ∙ at, o)

  -- So it is with one that is put into the list.
  pub others-link :
      ((k : ℕ) → Apart k (h ∷ n ∷ ns) → cell' k ≡ cell k)
      → ((k : ℕ) → payload (cell' k) ≡ payload (cell k))
      → (q : Resource (Option ℕ)) (m : ℕ) (t : Thumbnail F) → cell m ≡ some t
      → Owned h ns q m t
      → m ≢ n
      → Holding cell' h (n ∷ ns) q
  others-link frame same q m t at o ne = elim (Bool-cases (q.num_loads == 0)) [
    | inl unloaded ↦
        let never : q.num_loads ≡ 0 = ground (arith, unloaded) in
        let (away, first, last) = o.alone never in
        let away' : Apart m (h ∷ n ∷ ns) = (away.0, (ne, away.1)) in
        (
          m,
          t,
          frame m away' ∙ at,
          record {
            points = o.points;
            of_list = o.of_list;
            alone = λ z. (away', first, last);
            shown = λ z. absurd (z never);
            ready = o.ready;
          },
        )
    | inr loaded ↦
        let once : q.num_loads ≢ 0 = ground (arith, loaded) in
        let (u, at', list, img) = payload-some (cell' m) t (same m ∙ ap payload at) in
        (
          m,
          u,
          at',
          record {
            points = o.points;
            of_list = list ∙ o.of_list;
            alone = λ z. absurd (once z);
            shown = λ z. inr (o.shown z);
            ready =
                λ z. elim (o.ready z) [ inl failed ↦ inl failed | inr (i, is) ↦ inr (i, img ∙ is) ];
          },
        )
  ]
