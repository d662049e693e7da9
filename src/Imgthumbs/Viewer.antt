-- ===== src/Imgthumbs/Viewer.antt =====
-- The window of the example program: examples/imgthumbs/src/main.c. A handler takes the window and
-- returns it; asking GLUT for a redisplay and drawing are not part of the model. `GLUT_LEFT_BUTTON` and
-- `GLUT_DOWN` are 0.
use libresman.Base.{
  ℕ, ◌+◌, ◌-◌, ◌%◌, ◌^◌, Bool, ◌&&◌, ◌||◌, Option, none, some, List, Exec, ok, out_of_bounds,
  if◌then◌else◌, ◌==◌, ltb, get_elem?, set, length, replicate,
}
use libresman.Base.Outcome.{◌>>=◌}
use libresman.Imgthumbs.{Floats, Store, thumb_at}
use libresman.Imgthumbs.Draw.{Point, draw_thumbs, find_thumb_from}

-- a - b and -a on `int`.
abbrev pub sub32 : ℕ → ℕ → ℕ
sub32 a b = (a + 2 ^ 32 - b) % 2 ^ 32

-- `abs(a - b) > 3`; `abs` of the least `int` is not defined.
abbrev pub is_far : ℕ → ℕ → Bool
is_far a b = let d = sub32 a b in if ltb d (2 ^ 31) then ltb 3 d else ltb 3 (2 ^ 32 - d)

-- `a[i]`, read and written.
abbrev pub item : List ℕ → ℕ → Exec ℕ
item xs i = elim (get_elem? xs i) [ none ↦ out_of_bounds | some x ↦ ok x ]

abbrev pub set_item : List ℕ → ℕ → ℕ → Exec (List ℕ)
set_item xs i x = if ltb i (length xs) then ok (set xs i x) else out_of_bounds

module _ (fl : Floats) where
  open fl use {
    Float, of_int, double_of_int, lit, widen, narrow, add, div, le, double_sub, double_mul,
    double_le,
  }

  -- The variables of src/main.c.
  pub record Viewer : Type 0 where
    pub win_width : ℕ
    pub win_height : ℕ
    pub win_aspect : Float
    pub pan_x : Float
    pub pan_y : Float
    pub show_pan_x : Float
    pub show_pan_y : Float
    pub show_zoom : Float
    pub thumbs_size : Float
    pub thumbs : Option ℕ
    pub show_thumb : Option ℕ
    pub bnstate : List ℕ
    pub prev_x : ℕ
    pub prev_y : ℕ
    pub click_x : List ℕ
    pub click_y : List ℕ

  -- Their values at the start, with the list of thumbnails that `init` makes.
  abbrev pub new_viewer : Option ℕ → Viewer
  new_viewer thumbs = record {
    win_width = 0;
    win_height = 0;
    win_aspect = of_int 0;
    pan_x = of_int 0;
    pan_y = of_int 0;
    show_pan_x = of_int 0;
    show_pan_y = of_int 0;
    show_zoom = narrow (lit 1 1);
    thumbs_size = narrow (lit 25 100);
    thumbs = thumbs;
    show_thumb = none;
    bnstate = replicate 32 0;
    prev_x = 0;
    prev_y = 0;
    click_x = replicate 32 0;
    click_y = replicate 32 0;
  }

  -- The part of `display` between `update_thumbs`, whose callbacks are in Imgthumbs/Callbacks, and the
  -- assertion on `glGetError`: what it reads of the chosen thumbnail, or all thumbnails.
  unfoldable pub display : ℕ → Viewer → Store Float → Exec (Store Float)
  display fuel v s = elim v.show_thumb [
    | some n ↦ do t ← thumb_at s (some n); ok s
    | none ↦ draw_thumbs fl fuel s v.thumbs v.thumbs_size v.pan_y
  ]

  unfoldable pub reshape : Viewer → ℕ → ℕ → Viewer
  reshape v x y = record v { win_aspect = div (of_int x) (of_int y); win_width = x; win_height = y }

  -- `keyb`; `none` is the end of the program.
  unfoldable pub keyb : Viewer → ℕ → Option Viewer
  keyb v key =
      if key == 27
      then (elim v.show_thumb [ some n ↦ some (record v { show_thumb = none }) | none ↦ none ])
      else if key == b' '
      then some (record v {
        show_zoom = narrow (lit 1 1);
        thumbs_size = narrow (lit 25 100);
        pan_x = of_int 0;
        pan_y = of_int 0;
        show_pan_x = of_int 0;
        show_pan_y = of_int 0;
      })
      else some v

  -- The point of the window at (x, y).
  abbrev pub window_point : Viewer → ℕ → ℕ → Point fl
  window_point v x y = record {
    x = div (of_int x) (of_int v.win_width);
    y = div (div (of_int y) (of_int v.win_height)) v.win_aspect;
  }

  unfoldable pub find_thumb : ℕ → Viewer → Store Float → ℕ → ℕ → Exec (Option ℕ)
  find_thumb fuel v s x y = find_thumb_from fl (window_point v x y) fuel s v.thumbs

  -- The branch of `mouse` for the left button: a click on a thumbnail shows it.
  unfoldable pub select : ℕ → Viewer → Store Float → ℕ → ℕ → Exec Viewer
  unfolding find_thumb
  select fuel v s x y = do
    sel ← find_thumb fuel v s x y
    elim sel [
      | none ↦ ok v
      | some n ↦ ok (record v { show_thumb = some n; show_pan_x = of_int 0; show_pan_y = of_int 0 })
    ]

  -- The branch of `mouse` for a button that was released.
  unfoldable pub release_button : ℕ → Viewer → Store Float → ℕ → ℕ → ℕ → Exec Viewer
  unfolding select
  release_button fuel v s bidx x y = do
    cx ← item v.click_x bidx
    cy ← item v.click_y bidx
    let is_drag = is_far x cx || is_far y cy
    if bidx == 0
        then (elim v.show_thumb [
          | some n ↦ ok v
          | none ↦ if is_drag then ok v else select fuel v s x y
        ])
        else ok (if is_drag then v else record v { show_thumb = none })

  unfoldable pub press_button : Viewer → ℕ → ℕ → ℕ → Exec Viewer
  press_button v bidx x y = do
    xs ← set_item v.click_x bidx x
    ys ← set_item v.click_y bidx y
    ok (record v { click_x = xs; click_y = ys })

  unfoldable pub mouse : ℕ → Viewer → Store Float → ℕ → ℕ → ℕ → ℕ → Exec Viewer
  unfolding press_button release_button
  mouse fuel v s bn st x y = do
    let down = st == 0
    states ← set_item v.bnstate bn (if down then 1 else 0)
    let v1 = record v { bnstate = states; prev_x = x; prev_y = y }
    if down then press_button v1 bn x y else release_button fuel v1 s bn x y

  -- The bounds that `motion` and `sball_motion` keep.
  abbrev pub bounded_zoom : Float → Float
  bounded_zoom zoom = if le zoom (of_int 0) then of_int 0 else zoom

  abbrev pub bounded_size : Float → Float
  bounded_size size = if double_le (widen size) (lit 1 100) then narrow (lit 1 100) else size

  -- The branch of `motion` for the left button.
  abbrev pub drag : Viewer → ℕ → ℕ → Viewer
  drag v dx dy =
      let fdx = div (of_int dx) (of_int v.win_width) in
      let fdy = div (div (of_int dy) (of_int v.win_height)) v.win_aspect in
      elim v.show_thumb [
        | some n ↦ record v {
          show_pan_x = add v.show_pan_x (div fdx v.show_zoom);
          show_pan_y = add v.show_pan_y (div fdy v.show_zoom);
        }
        | none ↦ record v { pan_x = add v.pan_x fdx; pan_y = add v.pan_y fdy }
      ]

  -- The branch of `motion` for the right button.
  abbrev pub scale : Viewer → ℕ → Viewer
  scale v dy = elim v.show_thumb [
    | some n ↦ record v {
      show_zoom =
          bounded_zoom (
            narrow (double_sub (widen v.show_zoom) (double_mul (double_of_int dy) (lit 75 10000))));
    }
    | none ↦ record v {
      thumbs_size =
          bounded_size (
            narrow (double_sub (widen v.thumbs_size) (double_mul (double_of_int dy) (lit 5 1000))));
    }
  ]

  unfoldable pub motion : Viewer → ℕ → ℕ → Exec Viewer
  motion v x y = do
    let dx = sub32 x v.prev_x
    let dy = sub32 y v.prev_y
    let v1 = record v { prev_x = x; prev_y = y }
    if (dx == 0) && (dy == 0) then ok v1 else (do
      left ← item v1.bnstate 0
      let v2 = if left == 0 then v1 else drag v1 dx dy
      right ← item v2.bnstate 2
      ok (if right == 0 then v2 else scale v2 dy))

  unfoldable pub sball_motion : Viewer → ℕ → ℕ → ℕ → Viewer
  sball_motion v x y z =
      let fx = narrow (double_mul (double_of_int (sub32 0 x)) (lit 4 10000)) in
      let fy = narrow (double_mul (double_of_int z) (lit 4 10000)) in
      let fz = narrow (double_mul (double_of_int (sub32 0 y)) (lit 5 10000)) in
      elim v.show_thumb [
        | some n ↦ record v {
          show_pan_x = add v.show_pan_x (div fx v.show_zoom);
          show_pan_y = add v.show_pan_y (div fy v.show_zoom);
          show_zoom = bounded_zoom (add v.show_zoom fz);
        }
        | none ↦ record v {
          pan_x = add v.pan_x fx;
          pan_y = add v.pan_y fy;
          thumbs_size = bounded_size (add v.thumbs_size fz);
        }
      ]
