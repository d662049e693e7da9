-- ===== src/Imgthumbs/Freed.antt =====
-- What `free_thumbs` of examples/imgthumbs/src/thumbs.c gives back.
use libresman.Base.{
  ℕ, zero, suc, ◌+◌, ◌-◌, ◌≤◌, ◌≡◌, refl, ap, ◌∙◌, Option, none, some, List, [], ◌∷◌, ok, length,
  arith,
}
use libresman.Imgthumbs.{Floats, Thumbnail, Store, update}
use libresman.Imgthumbs.Thumbs.{free_thumbs, free_node}
use libresman.Imgthumbs.Chain.{
  Cells, Apart, Distinct, Chain, Chain-Agree, Agree-update, IsList, update_self, update_other,
  ne_sym,
}

module _ (fl : Floats) where
  open fl use {Float}

  -- The blocks of `ns` were given back.
  abbrev pub Freed : Cells Float → List ℕ → Type 0
  Freed cell [] = Unit {0}
  Freed cell (n ∷ ns) = (cell n ≡ none) × Freed cell ns

  -- The number of the thumbnails that have a name.
  abbrev pub has_name : Option (Thumbnail Float) → ℕ
  has_name none = 0
  has_name (some t) = elim t.fname [ none ↦ 0 | some name ↦ 1 ]

  abbrev pub named : Cells Float → List ℕ → ℕ
  named cell [] = 0
  named cell (n ∷ ns) = has_name (cell n) + named cell ns

  named-update :
      (cell : Cells Float) (n : ℕ) (v : Option (Thumbnail Float)) (ns : List ℕ)
      → Apart n ns
      → named (update cell n v) ns ≡ named cell ns
  named-update cell n v [] h = refl
  named-update cell n v (m ∷ ms) h =
      omega (arith, ap has_name (update_other cell n v m h.0), named-update cell n v ms h.1)

  abbrev pub Frees : ℕ → Store Float → Option ℕ → List ℕ → Type 0
  Frees fuel s p ns =
      (s' : Store Float) × (free_thumbs fl fuel s p ≡ ok s')
      × Freed s'.cell ns
      × ((k : ℕ) → Apart k ns → s'.cell k ≡ s.cell k)
      × (s'.names ≡ s.names - named s.cell ns)
      × (s'.deleted ≡ s.deleted)

  free_thumbs-Chain :
      (fuel : ℕ) (s : Store Float) (prev p : Option ℕ) (ns : List ℕ)
      → length ns ≤ fuel
      → Distinct ns
      → Chain s.cell prev p ns
      → Frees fuel s p ns
  unfolding free_thumbs
  free_thumbs-Chain fuel s prev p [] f d c = (s, rw c refl, tt, (λ k away. refl), omega arith, refl)
  free_thumbs-Chain zero s prev p (n ∷ ns) f d c = absurd (omega arith)
  free_thumbs-Chain (suc fuel) s prev p (n ∷ ns) f d (e, (t, at, back, rest)) =
      let s1 = free_node fl s n t in
      let (s', run, freed, frame, names, deleted) =
        free_thumbs-Chain fuel s1 (some n) t.next ns (omega arith) d.1 (
          Chain-Agree s.cell s1.cell (some n) t.next ns (Agree-update s.cell n none ns d.0) rest) in
      (
        s',
        rw (e, at) run,
        (frame n d.0 ∙ update_self s.cell n none, freed),
        (λ k away. frame k away.1 ∙ update_other s.cell n none k (ne_sym away.0)),
        ground (arith, names, at, named-update s.cell n none ns d.0),
        deleted,
      )

  -- On a valid list, and with fuel for its nodes, `free_thumbs` gives back every node of it once, and
  -- the name of each that has one; it frees no other block, and deletes none of the textures.
  pub free_thumbs-IsList :
      (fuel : ℕ) (s : Store Float) (p : Option ℕ) (ns : List ℕ)
      → length ns ≤ fuel
      → IsList s.cell p ns
      → Frees fuel s p ns
  free_thumbs-IsList fuel s p ns f v = free_thumbs-Chain fuel s none p ns f v.distinct v.linked
