-- ===== src/Imgthumbs/Fresh.antt =====
-- New blocks among the thumbnails of examples/imgthumbs, and the resources that come to hold them.
use libresman.Base.{
  ℕ, zero, suc, ◌≡◌, ◌≢◌, refl, sym, ap, ◌∙◌, subst, Option, none, some, List, [], ◌∷◌, ◌++◌,
  length, get_elem?, ◌⊎◌, inl, inr,
}
use libresman.Resman.{Resource}
use libresman.Imgthumbs.{Thumbnail}
use libresman.Imgthumbs.Chain.{Cells, Apart, Chain}
use libresman.Imgthumbs.Held.{Slots, In, Holding, Held}
use libresman.Imgthumbs.Turned.{others-write}

same_slot :
    {r q : Resource (Option ℕ)}
    → ◌≡◌ {A = Option (Option (Resource (Option ℕ)))} (some (some r)) (some (some q))
    → r ≡ q
same_slot e = cc e

-- A slot of a table with one more resource at its end.
snoc_cases :
    (xs : Slots) (r : Resource (Option ℕ)) (j : ℕ) (q : Resource (Option ℕ))
    → get_elem? (xs ++ some r ∷ []) j ≡ some (some q)
    → (get_elem? xs j ≡ some (some q)) ⊎ ((j ≡ length xs) × (r ≡ q))
snoc_cases [] r zero q e = inr (refl, same_slot e)
snoc_cases [] r (suc j) q e = absurd (cc e)
snoc_cases (x ∷ xs) r zero q e = inl e
snoc_cases (x ∷ xs) r (suc j) q e = elim (snoc_cases xs r j q e) [
  | inl old ↦ inl old
  | inr (at, is) ↦ inr (ap suc at, is)
]

module _ {F : Type 0} where
  -- A block that holds nothing is none of the list's.
  pub Chain-apart :
      (cell : Cells F) (prev p : Option ℕ) (ns : List ℕ) (n : ℕ)
      → Chain cell prev p ns
      → cell n ≡ none
      → Apart n ns
  Chain-apart cell prev p [] n c e = tt
  Chain-apart cell prev p (m ∷ ms) n (_, (t, at, _, rest)) e =
      ((λ same. cc (e, at, ap cell same)), Chain-apart cell (some m) t.next ms n rest e)

  pub Chain-In :
      (cell : Cells F) (prev p : Option ℕ) (ns : List ℕ) (n : ℕ)
      → Chain cell prev p ns
      → In n ns
      → (t : Thumbnail F) × (cell n ≡ some t)
  Chain-In cell prev p [] n c one = absurd one
  Chain-In cell prev p (m ∷ ms) n (_, (t, at, _, rest)) (inl same) = (t, ap cell same ∙ at)
  Chain-In cell prev p (m ∷ ms) n (_, (t, at, _, rest)) (inr one) =
      Chain-In cell (some m) t.next ms n rest one

  -- A new resource holds a thumbnail at a block that held nothing.
  pub Held-snoc :
      (cell cell' : Cells F) (h : ℕ) (ns : List ℕ) (xs : Slots) (r : Resource (Option ℕ)) (n : ℕ)
      → cell n ≡ none
      → ((k : ℕ) → k ≢ n → cell' k ≡ cell k)
      → r.data' ≡ some n
      → Holding cell' h ns r
      → Held cell h ns xs
      → Held cell' h ns (xs ++ some r ∷ [])
  Held-snoc cell cell' h ns xs r n fresh frame points holding held =
      let not_here : (q : Resource (Option ℕ)) (m : ℕ) (t : Thumbnail F) → cell m ≡ some t → m ≢ n =
        λ q m t at same. cc (fresh, at, ap cell same) in
      let new : (j : ℕ) (q : Resource (Option ℕ))
          → get_elem? xs j ≡ some (some q)
          → q.data' ≢ some n =
        λ j q at e.
          let (m, t, at_m, o) = held.owns j q at in
          not_here q m t at_m (same_block (sym o.points ∙ e)) in
      record {
        owns = λ j q e. elim (snoc_cases xs r j q e) [
          | inl old ↦
              let (m, t, at, o) = held.owns j q old in
              others-write cell cell' h ns n frame q m t at o (not_here q m t at)
          | inr (_, is) ↦ subst (Holding cell' h ns) is holding
        ];
        differ = λ j k q s e f ne. elim (snoc_cases xs r j q e) [
          | inl old ↦ elim (snoc_cases xs r k s f) [
            | inl old' ↦ held.differ j k q s old old' ne
            | inr (_, is) ↦ λ same.
                new j q old (same ∙ sym (ap (λ (v : Resource (Option ℕ)). v.data') is) ∙ points)
          ]
          | inr (at, is) ↦ elim (snoc_cases xs r k s f) [
            | inl old' ↦ λ same.
                new k s old'
                  (sym same ∙ sym (ap (λ (v : Resource (Option ℕ)). v.data') is) ∙ points)
            | inr (at', _) ↦ absurd (ne (at ∙ sym at'))
          ]
        ];
      }
    where
      same_block : {a b : ℕ} → ◌≡◌ {A = Option ℕ} (some a) (some b) → a ≡ b
      same_block e = cc e

  -- So do the resources in the table, if nothing happens but that such a block gets a thumbnail.
  pub Held-fresh :
      (cell cell' : Cells F) (h : ℕ) (ns : List ℕ) (xs : Slots) (n : ℕ)
      → cell n ≡ none
      → ((k : ℕ) → k ≢ n → cell' k ≡ cell k)
      → Held cell h ns xs
      → Held cell' h ns xs
  Held-fresh cell cell' h ns xs n fresh frame held = record {
    owns = λ j q e.
        let (m, t, at, o) = held.owns j q e in
        others-write cell cell' h ns n frame q m t at o (λ same. cc (fresh, at, ap cell same));
    differ = held.differ;
  }
