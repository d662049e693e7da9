-- ===== src/Imgthumbs/Unlink.antt =====
-- The thumbnails of examples/imgthumbs/src/thumbs.c in their list: what takes one out.
use libresman.Base.{ℕ, ◌≡◌, ◌≢◌, refl, Option, none, some, List, [], ◌∷◌, ◌++◌, ok, arith}
use libresman.Imgthumbs.{Floats, Thumbnail, Store, write_thumb}
use libresman.Imgthumbs.Thumbs.{unlink}
use libresman.Imgthumbs.Chain.{
  Apart, Agree-frame, Chain-pair, Chain-skip, IsList, Distinct-right, Distinct-Each, Distinct-drop,
}
use libresman.Imgthumbs.Link.{SameRest}

module _ (fl : Floats) (s : Store fl.Float) (n : ℕ) where
  -- A thumbnail in no list: only its block is given back.
  pub unlink-alone :
      (t : Thumbnail fl.Float)
      → s.cell n ≡ some t
      → t.prev ≡ none
      → t.next ≡ none
      → unlink fl s n ≡ ok (write_thumb s n none)
  unfolding unlink
  unlink-alone t at first last = ground arith

  -- What `unlink` comes to for a node that stands between `a` and the nodes `bs`.
  abbrev pub Unlinks : Option ℕ → List ℕ → ℕ → List ℕ → Type 0
  Unlinks p pre a bs =
      (s' : Store fl.Float) × (unlink fl s n ≡ ok s')
      × IsList s'.cell p (pre ++ a ∷ bs)
      × (s'.cell n ≡ none)
      × ((k : ℕ) → Apart k (a ∷ n ∷ bs) → s'.cell k ≡ s.cell k)
      × SameRest s s'

  unlink-last :
      (p : Option ℕ) (pre : List ℕ) (a : ℕ) (ta tn : Thumbnail fl.Float)
      → IsList s.cell p (pre ++ a ∷ n ∷ [])
      → s.cell a ≡ some ta
      → s.cell n ≡ some tn
      → tn.prev ≡ some a
      → tn.next ≡ none
      → Unlinks p pre a []
  unfolding unlink
  unlink-last p pre a ta tn v at_a at_n back last =
      let each = Distinct-Each pre (a ∷ n ∷ []) v.distinct in
      let right = Distinct-right pre (a ∷ n ∷ []) v.distinct in
      let a_n : a ≢ n = right.0.0 in
      let ta' = record ta { next = tn.next } in
      let s' = write_thumb (write_thumb s a (some ta')) n none in
      let frame : (k : ℕ) → Apart k (a ∷ n ∷ []) → s'.cell k ≡ s.cell k =
        λ k away. ground (arith, away.0, away.1.0) in
      (
        s',
        ground arith,
        record {
          linked =
              Chain-skip s.cell s'.cell none p pre a n [] ta tn v.linked at_a at_n (ground arith)
                (Agree-frame s.cell s'.cell (a ∷ n ∷ []) pre each frame) tt;
          distinct = Distinct-drop pre a n [] v.distinct;
        },
        ground arith,
        frame,
        record { names = refl; deleted = refl; depth = refl },
      )

  unlink-before :
      (p : Option ℕ) (pre : List ℕ) (a b : ℕ) (bs : List ℕ) (ta tn tb : Thumbnail fl.Float)
      → IsList s.cell p (pre ++ a ∷ n ∷ b ∷ bs)
      → s.cell a ≡ some ta
      → s.cell n ≡ some tn
      → s.cell b ≡ some tb
      → tn.prev ≡ some a
      → tn.next ≡ some b
      → Unlinks p pre a (b ∷ bs)
  unfolding unlink
  unlink-before p pre a b bs ta tn tb v at_a at_n at_b back more =
      let each = Distinct-Each pre (a ∷ n ∷ b ∷ bs) v.distinct in
      let right = Distinct-right pre (a ∷ n ∷ b ∷ bs) v.distinct in
      let a_n : a ≢ n = right.0.0 in
      let a_b : a ≢ b = right.0.1.0 in
      let n_b : n ≢ b = right.1.0.0 in
      let ta' = record ta { next = tn.next } in
      let tb' = record tb { prev = some a } in
      let s1 = write_thumb s a (some ta') in
      let s' = write_thumb (write_thumb s1 b (some tb')) n none in
      let frame : (k : ℕ) → Apart k (a ∷ n ∷ b ∷ []) → s'.cell k ≡ s.cell k =
        λ k away. ground (arith, away.0, away.1.0, away.1.1.0) in
      (
        s',
        ground arith,
        record {
          linked =
              Chain-skip s.cell s'.cell none p pre a n (b ∷ bs) ta tn v.linked at_a at_n
                (ground arith)
                (Agree-frame s.cell s'.cell (a ∷ n ∷ b ∷ []) pre
                  (each.0, (each.1.0, (each.1.1.0, tt))) frame)
                (
                  tb,
                  at_b,
                  ground arith,
                  Agree-frame s.cell s'.cell (a ∷ n ∷ b ∷ []) bs
                      (right.0.1.1, (right.1.0.1, (right.1.1.0, tt))) frame,
                );
          distinct = Distinct-drop pre a n (b ∷ bs) v.distinct;
        },
        ground arith,
        (λ k away. frame k (away.0, (away.1.0, (away.1.1.0, tt)))),
        record { names = refl; deleted = refl; depth = refl },
      )

  -- A node of a valid list that is not its head is taken out: what is left is the valid list of the
  -- other nodes, the node's block was given back, and every thumbnail outside the list is as before.
  pub unlink-IsList :
      (p : Option ℕ) (pre : List ℕ) (a : ℕ) (bs : List ℕ)
      → IsList s.cell p (pre ++ a ∷ n ∷ bs)
      → Unlinks p pre a bs
  unlink-IsList p pre a [] v =
      let (ta, tn, at_a, at_n, back, rest) = Chain-pair s.cell none p pre a n [] v.linked in
      unlink-last p pre a ta tn v at_a at_n back rest
  unlink-IsList p pre a (b ∷ bs) v =
      let (ta, tn, at_a, at_n, back, (more, (tb, at_b, _, rest))) =
        Chain-pair s.cell none p pre a n (b ∷ bs) v.linked in
      unlink-before p pre a b bs ta tn tb v at_a at_n at_b back more
