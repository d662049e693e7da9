-- ===== src/Imgthumbs/Draw.antt =====
-- Which places examples/imgthumbs stores for the thumbnails, and which of them is at a point:
-- `draw_thumbs` of src/thumbs.c with the number of matrices that it keeps on the stack and the
-- places that it stores, and the loop of `find_thumb` of src/main.c.
use libresman.Base.{
  ℕ, zero, suc, ◌+◌, ◌-◌, Bool, ◌&&◌, Option, none, some, Exec, ok, no_fuel, if◌then◌else◌, ◌==◌,
}
use libresman.Base.Outcome.{◌>>=◌}
use libresman.Imgthumbs.{Floats, Thumbnail, Store, alive, thumb_at, write_thumb}

module _ (fl : Floats) where
  open fl use {
    Float, of_int, lit, widen, narrow, add, div, le, lt, double_sub, double_div, double_le,
  }

  -- A point of the window, or of the row that is drawn.
  pub record Point : Type 0 where
    pub x : Float
    pub y : Float

  -- `thumb_sz / 4.0`
  abbrev pub gap_of : Float → Float
  gap_of thumb_sz = narrow (double_div (widen thumb_sz) (lit 4 1))

  abbrev pub start_at : Float → Float → Point
  start_at thumb_sz start_y = record { x = gap_of thumb_sz; y = add (gap_of thumb_sz) start_y }

  -- The steps of `x` and `y` at the end of a turn: to the right, or to the start of the next row.
  abbrev pub advance : Float → Point → Point
  advance thumb_sz p =
      let gap = gap_of thumb_sz in
      let x' = add p.x (add thumb_sz gap) in
      if double_le (double_sub (lit 1 1) (widen thumb_sz)) (widen x')
      then record { x = gap; y = add p.y (add thumb_sz gap) }
      else record { x = x'; y = p.y }

  -- The assignments to `layout_pos` and `layout_size`.
  abbrev pub place : Float → Point → Thumbnail Float → Thumbnail Float
  place thumb_sz p t = record t { pos_x = p.x; pos_y = p.y; size_x = thumb_sz; size_y = thumb_sz }

  -- A turn pushes a matrix, and takes it back only where there is a texture. Of the matrices only their
  -- number is kept: that the one left on moves what is drawn afterwards is not part of the model.
  abbrev pub depth_after : Thumbnail Float → ℕ → ℕ
  depth_after t depth = let pushed = depth + 1 in if t.tex == 0 then pushed else pushed - 1

  -- The loop of `draw_thumbs`, with fuel for the nodes of the list.
  unfoldable pub draw_from : Float → ℕ → Point → Store Float → Option ℕ → Exec (Store Float)
  draw_from thumb_sz fuel p s none = ok s
  draw_from thumb_sz zero p s (some n) = no_fuel
  draw_from thumb_sz (suc fuel) p s (some n) = do
    t ← alive (s.cell n)
    draw_from thumb_sz fuel (advance thumb_sz p)
        (record (write_thumb s n (some (place thumb_sz p t))) { depth = depth_after t s.depth })
        t.next

  unfoldable pub draw_thumbs : ℕ → Store Float → Option ℕ → Float → Float → Exec (Store Float)
  draw_thumbs fuel s thumbs thumb_sz start_y = do
    h ← thumb_at s thumbs
    draw_from thumb_sz fuel (start_at thumb_sz start_y) s h.next

  -- Whether a point lies in the place of a thumbnail.
  abbrev pub hit : Point → Thumbnail Float → Bool
  hit f t =
      le t.pos_x f.x
      && lt f.x (add t.pos_x t.size_x)
      && le t.pos_y f.y
      && lt f.y (add t.pos_y t.size_y)

  -- The loop of `find_thumb`, with fuel for the nodes of the list.
  unfoldable pub find_thumb_from : Point → ℕ → Store Float → Option ℕ → Exec (Option ℕ)
  find_thumb_from f fuel s none = ok none
  find_thumb_from f zero s (some n) = no_fuel
  find_thumb_from f (suc fuel) s (some n) = do
    t ← alive (s.cell n)
    let rest = find_thumb_from f fuel s t.next
    if hit f t then ok (some n) else rest
