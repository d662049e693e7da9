-- ===== src/Imgthumbs/Found.antt =====
-- What `find_thumb` of examples/imgthumbs/src/main.c finds once `draw_thumbs` has placed the
-- thumbnails.
use libresman.Base.{
  ℕ, zero, suc, ◌+◌, ◌≤◌, ◌<◌, ◌≡◌, refl, ap, ◌∙◌, Bool, false, ◌&&◌, Option, none, some, List, [],
  ◌∷◌, ok, if◌then◌else◌, if_true, if_false, ◌==◌, length, subst, arith, inl, inr, Bool-cases,
}
use libresman.Imgthumbs.{Floats, Thumbnail, Store, write_thumb, update}
use libresman.Imgthumbs.Draw.{
  Point, gap_of, start_at, advance, place, depth_after, draw_from, draw_thumbs, hit,
  find_thumb_from,
}
use libresman.Imgthumbs.Chain.{
  same_cell, Cells, Apart, Distinct, Chain, Chain-Agree, Agree-update, IsList, update_self,
  update_other, ne_sym,
}

module _ (fl : Floats) where
  open fl use {Float, of_int, lit, widen, add, le, lt, double_sub, double_le}

  -- Whether a point lies in the square of the size `thumb_sz` at `p`.
  abbrev pub inside : Float → Point fl → Point fl → Bool
  inside thumb_sz p f =
      le p.x f.x && lt f.x (add p.x thumb_sz) && le p.y f.y && lt f.y (add p.y thumb_sz)

  -- The squares stand in rows and columns: where the column `j` and the row `k` begin.
  abbrev pub column : Float → ℕ → Float
  column thumb_sz zero = gap_of fl thumb_sz
  column thumb_sz (suc j) = add (column thumb_sz j) (add thumb_sz (gap_of fl thumb_sz))

  abbrev pub row : Float → Float → ℕ → Float
  row thumb_sz start_y zero = add (gap_of fl thumb_sz) start_y
  row thumb_sz start_y (suc k) = add (row thumb_sz start_y k) (add thumb_sz (gap_of fl thumb_sz))

  abbrev pub corner : Float → Float → ℕ → ℕ → Point fl
  corner thumb_sz start_y j k = record { x = column thumb_sz j; y = row thumb_sz start_y k }

  -- The row is full: its next column would begin less than a square from the right border.
  abbrev pub full : Float → ℕ → Bool
  full thumb_sz j =
      double_le (double_sub (lit 1 1) (widen thumb_sz)) (widen (column thumb_sz (suc j)))

  -- The first of the thumbnails `ns` whose square holds the point, where they fill the rows one after
  -- the other, from the column `j` of the row `k` on.
  abbrev pub pick : Float → Float → Point fl → ℕ → ℕ → List ℕ → Option ℕ
  pick thumb_sz start_y f j k [] = none
  pick thumb_sz start_y f j k (n ∷ ns) =
      let in_row = pick thumb_sz start_y f (suc j) k ns in
      let in_next = pick thumb_sz start_y f 0 (suc k) ns in
      if inside thumb_sz (corner thumb_sz start_y j k) f
      then some n
      else if full thumb_sz j
      then in_next
      else in_row

  -- The number of the thumbnails without a texture.
  abbrev pub bare : Option (Thumbnail Float) → ℕ
  bare none = 0
  bare (some t) = if t.tex == 0 then 1 else 0

  abbrev pub untextured : Cells Float → List ℕ → ℕ
  untextured cell [] = 0
  untextured cell (n ∷ ns) = bare (cell n) + untextured cell ns

  untextured-update :
      (cell : Cells Float) (n : ℕ) (v : Option (Thumbnail Float)) (ns : List ℕ)
      → Apart n ns
      → untextured (update cell n v) ns ≡ untextured cell ns
  untextured-update cell n v [] h = refl
  untextured-update cell n v (m ∷ ms) h =
      omega (arith, ap bare (update_other cell n v m h.0), untextured-update cell n v ms h.1)

  -- Each of the thumbnails has its place.
  abbrev Placed : Cells Float → Float → Point fl → List ℕ → Type 0
  Placed cell thumb_sz p [] = Unit {0}
  Placed cell thumb_sz p (n ∷ ns) =
      ((t : Thumbnail Float) × (cell n ≡ some (place fl thumb_sz p t)))
      × Placed cell thumb_sz (advance fl thumb_sz p) ns

  -- A thumbnail without its place in the window.
  abbrev pub unplaced : Option (Thumbnail Float) → Option (Thumbnail Float)
  unplaced none = none
  unplaced (some t) = some (place fl (of_int 0) (record { x = of_int 0; y = of_int 0 }) t)

  -- What the loop of `draw_thumbs` comes to.
  abbrev Draws : Float → ℕ → Point fl → Store Float → Option ℕ → Option ℕ → List ℕ → Type 0
  Draws thumb_sz fuel p s prev q ns =
      (s' : Store Float) × (draw_from fl thumb_sz fuel p s q ≡ ok s')
      × Chain s'.cell prev q ns
      × Placed s'.cell thumb_sz p ns
      × ((k : ℕ) → Apart k ns → s'.cell k ≡ s.cell k)
      × (s'.depth ≡ s.depth + untextured s.cell ns)
      × ((k : ℕ) → unplaced (s'.cell k) ≡ unplaced (s.cell k))

  draw_from-Draws :
      (thumb_sz : Float) (fuel : ℕ) (p : Point fl) (s : Store Float) (prev q : Option ℕ)
      (ns : List ℕ)
      → length ns ≤ fuel
      → Distinct ns
      → Chain s.cell prev q ns
      → Draws thumb_sz fuel p s prev q ns
  unfolding draw_from
  draw_from-Draws thumb_sz fuel p s prev q [] f d c =
      (s, rw c refl, c, tt, (λ k away. refl), omega arith, (λ k. refl))
  draw_from-Draws thumb_sz zero p s prev q (n ∷ ns) f d c = absurd (omega arith)
  draw_from-Draws thumb_sz (suc fuel) p s prev q (n ∷ ns) f d (e, (t, at, back, rest)) =
      let t' = place fl thumb_sz p t in
      let s1 = record (write_thumb s n (some t')) { depth = depth_after fl t s.depth } in
      let (s', run, c, placed, frame, depth, same) =
        draw_from-Draws thumb_sz fuel (advance fl thumb_sz p) s1 (some n) t.next ns (omega arith)
          d.1
          (Chain-Agree s.cell s1.cell (some n) t.next ns (Agree-update s.cell n (some t') ns d.0)
            rest) in
      let here : s'.cell n ≡ some t' = frame n d.0 ∙ update_self s.cell n (some t') in
      (
        s',
        rw (e, at) run,
        (e, (t', here, back, c)),
        ((t, here), placed),
        (λ k away. frame k away.1 ∙ update_other s.cell n (some t') k (ne_sym away.0)),
        ground (arith, depth, at, untextured-update s.cell n (some t') ns d.0),
        (λ k. same k ∙ ground (arith, at)),
      )

  -- Drawing leaves a valid list as it is, and changes only where its thumbnails are.
  pub draw_thumbs-IsList :
      (thumb_sz start_y : Float) (fuel : ℕ) (s : Store Float) (h : ℕ) (ns : List ℕ)
      → IsList s.cell (some h) (h ∷ ns)
      → length ns ≤ fuel
      → (s' : Store Float) × (draw_thumbs fl fuel s (some h) thumb_sz start_y ≡ ok s')
        × IsList s'.cell (some h) (h ∷ ns)
        × ((k : ℕ) → unplaced (s'.cell k) ≡ unplaced (s.cell k))
  unfolding draw_thumbs
  draw_thumbs-IsList thumb_sz start_y fuel s h ns v enough =
      let (_, (t, at, back, rest)) = v.linked in
      let (s', run, c, placed, frame, depth, kept) =
        draw_from-Draws thumb_sz fuel (start_at fl thumb_sz start_y) s (some h) t.next ns enough
          v.distinct.1 rest in
      (
        s',
        rw at run,
        record { linked = (refl, (t, frame h v.distinct.0 ∙ at, back, c)); distinct = v.distinct },
        kept,
      )

  -- The step of `draw_thumbs` from a square to the next.
  advance-corner :
      (thumb_sz start_y : Float) (j k : ℕ)
      → advance fl thumb_sz (corner thumb_sz start_y j k) ≡ (
          if full thumb_sz j
          then corner thumb_sz start_y 0 (suc k)
          else corner thumb_sz start_y (suc j) k)
  advance-corner thumb_sz start_y j k = elim (Bool-cases (full thumb_sz j)) [
    | inl ends ↦ rw ends refl
    | inr goes_on ↦ rw goes_on refl
  ]

  find_thumb_from-pick :
      (f : Point fl) (thumb_sz start_y : Float) (fuel j k : ℕ) (s : Store Float) (prev q : Option ℕ)
      (ns : List ℕ)
      → length ns ≤ fuel
      → Chain s.cell prev q ns
      → Placed s.cell thumb_sz (corner thumb_sz start_y j k) ns
      → find_thumb_from fl f fuel s q ≡ ok (pick thumb_sz start_y f j k ns)
  unfolding find_thumb_from
  find_thumb_from-pick f thumb_sz start_y fuel j k s prev q [] m c l = rw c refl
  find_thumb_from-pick f thumb_sz start_y zero j k s prev q (n ∷ ns) m c l = absurd (omega arith)
  find_thumb_from-pick f thumb_sz start_y (suc fuel) j k s prev q (n ∷ ns) m
        (e, (t, at, back, rest)) ((t0, here), placed) =
      let p = corner thumb_sz start_y j k in
      let same : t ≡ place fl thumb_sz p t0 = same_cell at here in
      let hits : hit fl f t ≡ inside thumb_sz p f = ap (hit fl f) same in
      let more : find_thumb_from fl f fuel s t.next
          ≡ ok (
              if full thumb_sz j
              then pick thumb_sz start_y f 0 (suc k) ns
              else pick thumb_sz start_y f (suc j) k ns) =
        elim (Bool-cases (full thumb_sz j)) [
          | inl ends ↦ rw ends (
              find_thumb_from-pick f thumb_sz start_y fuel 0 (suc k) s (some n) t.next ns
                (omega arith) rest
                (subst (λ z. Placed s.cell thumb_sz z ns)
                  (advance-corner thumb_sz start_y j k ∙ if_true (full thumb_sz j) _ _ ends)
                  placed))
          | inr goes_on ↦ rw goes_on (
              find_thumb_from-pick f thumb_sz start_y fuel (suc j) k s (some n) t.next ns
                (omega arith) rest
                (subst (λ z. Placed s.cell thumb_sz z ns)
                  (advance-corner thumb_sz start_y j k ∙ if_false (full thumb_sz j) _ _ goes_on)
                  placed))
        ] in
      elim (Bool-cases (inside thumb_sz p f)) [
        | inl found ↦ rw (e, at, hits ∙ found, found) refl
        | inr missed ↦ rw (e, at, hits ∙ missed, missed) more
      ]

  -- What has no extent is hit nowhere.
  hit-empty :
      (f : Point fl) (t th : Thumbnail Float)
      → t ≡ th
      → th.pos_x ≡ of_int 0
      → th.size_x ≡ of_int 0
      → (le (of_int 0) f.x && lt f.x (add (of_int 0) (of_int 0))) ≡ false
      → hit fl f t ≡ false
  hit-empty f t th same x w empty = rw (same, x, w) (ground (arith, empty))

  -- On a valid list whose head has no extent, and with fuel for its nodes, `draw_thumbs` returns and
  -- leaves the list as it is, but it leaves one matrix on the stack for each thumbnail without a
  -- texture; and then, for every point, the loop of `find_thumb` gives the first thumbnail of the list
  -- whose square holds the point, and null where none does, in particular never the head. Here the
  -- squares are those that `draw_thumbs` stores in `layout_pos` and `layout_size`: they fill one row
  -- after the other, and a row ends where its next square would begin less than its width from the
  -- right border.
  pub draw_thumbs-find_thumb_from :
      (thumb_sz start_y : Float) (fuel : ℕ) (s : Store Float) (h : ℕ) (th : Thumbnail Float)
      (ns : List ℕ)
      → ((v : Float) → (le (of_int 0) v && lt v (add (of_int 0) (of_int 0))) ≡ false)
      → IsList s.cell (some h) (h ∷ ns)
      → s.cell h ≡ some th
      → th.pos_x ≡ of_int 0
      → th.size_x ≡ of_int 0
      → length ns < fuel
      → (s' : Store Float) × (draw_thumbs fl fuel s (some h) thumb_sz start_y ≡ ok s')
        × IsList s'.cell (some h) (h ∷ ns)
        × (s'.depth ≡ s.depth + untextured s.cell ns)
        × ((k : ℕ) → unplaced (s'.cell k) ≡ unplaced (s.cell k))
        × ((f : Point fl)
            → find_thumb_from fl f fuel s' (some h) ≡ ok (pick thumb_sz start_y f 0 0 ns))
  unfolding draw_thumbs find_thumb_from
  draw_thumbs-find_thumb_from thumb_sz start_y zero s h th ns empty v at_h x w fuelled =
      absurd (omega arith)
  draw_thumbs-find_thumb_from thumb_sz start_y (suc fuel) s h th ns empty v at_h x w fuelled =
      let (_, (t, at, back, rest)) = v.linked in
      let p = start_at fl thumb_sz start_y in
      let (s', run, c, placed, frame, depth, kept) =
        draw_from-Draws thumb_sz (suc fuel) p s (some h) t.next ns (omega arith) v.distinct.1
          rest in
      let at' : s'.cell h ≡ some t = frame h v.distinct.0 ∙ at in
      let same : t ≡ th = same_cell at at_h in
      (
        s',
        rw at run,
        record { linked = (refl, (t, at', back, c)); distinct = v.distinct },
        depth,
        kept,
        (λ f.
            let missed : hit fl f t ≡ false = hit-empty f t th same x w (empty f.x) in
            rw (at', missed)
              (find_thumb_from-pick f thumb_sz start_y fuel 0 0 s' (some h) t.next ns (omega arith)
                c placed)),
      )
