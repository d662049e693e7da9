-- ===== src/Imgthumbs/Handlers.antt =====
-- Every handler of examples/imgthumbs/src/main.c keeps the window steady.
use libresman.Base.{
  ℕ, ◌≤◌, ◌<◌, ◌≡◌, refl, sym, subst, Bool, true, false, ◌||◌, Option, none, some, List, ok, ◌==◌,
  length, length-set, set, arith, inl, inr, Bool-cases, Option-cases,
}
use libresman.Imgthumbs.{Floats, Store}
use libresman.Imgthumbs.Chain.{IsList}
use libresman.Imgthumbs.Held.{In}
use libresman.Imgthumbs.Viewer.{
  Viewer, is_far, release_button, press_button, mouse, sball_motion, keyb, reshape,
}
use libresman.Imgthumbs.Clicks.{set_item_lem, find_thumb-In, released, release_lem}
use libresman.Imgthumbs.Steady.{
  WindowEvent, button, moved, turned, key, resized, InRange, item-lt, dispatch, Starts, IsSteady,
  Follows-IsSteady, same_viewer,
}
use libresman.Imgthumbs.Motions.{noted, Goes, sball_motion-IsSteady, motion-IsSteady}

module _ (fl : Floats) where
  open fl use {Float, of_int, lit, widen, narrow, le, double_le}

  module _ (p : Option ℕ) (ls : List ℕ) where
    reshape-IsSteady :
        (v : Viewer fl) (x y : ℕ) → IsSteady fl p ls v → IsSteady fl p ls (reshape fl v x y)
    unfolding reshape
    reshape-IsSteady v x y k =
        Follows-IsSteady fl p ls v _ k
          (record {
            states = refl;
            xs = refl;
            ys = refl;
            zoom = inl refl;
            size = inl refl;
            begins = refl;
          })
          k.chosen

    -- What is shown changes.
    shown-IsSteady :
        (v : Viewer fl) (shown : Option ℕ) (pan_x pan_y : Float)
        → IsSteady fl p ls v
        → ((n : ℕ) → shown ≡ some n → In n ls)
        → IsSteady fl p ls (record v { show_thumb = shown; show_pan_x = pan_x; show_pan_y = pan_y })
    shown-IsSteady v shown pan_x pan_y k one =
        Follows-IsSteady fl p ls v _ k
          (record {
            states = refl;
            xs = refl;
            ys = refl;
            zoom = inl refl;
            size = inl refl;
            begins = refl;
          })
          one

    -- The window after a key, or the end.
    keyb-IsSteady :
        Starts fl
        → (v v' : Viewer fl) (k : ℕ) → IsSteady fl p ls v
        → keyb fl v k ≡ some v'
        → IsSteady fl p ls v'
    unfolding keyb
    keyb-IsSteady starts v v' k steady e = elim (Bool-cases (k == 27)) [
      | inl escape ↦ elim (Option-cases v.show_thumb) [
        | inl hidden ↦ absurd (ground (arith, e, escape, hidden))
        | inr (n, shown) ↦
            let same : record v { show_thumb = none } ≡ v' = ground (arith, e, escape, shown) in
            subst (IsSteady fl p ls) same
              (shown-IsSteady v none v.show_pan_x v.show_pan_y steady (λ m is. cc is))
      ]
      | inr other ↦ elim (Bool-cases (k == b' ')) [
        | inl blank ↦
            let at_start = record v {
              show_zoom = narrow (lit 1 1);
              thumbs_size = narrow (lit 25 100);
              pan_x = of_int 0;
              pan_y = of_int 0;
              show_pan_x = of_int 0;
              show_pan_y = of_int 0;
            } in
            let same : at_start ≡ v' = ground (arith, e, other, blank) in
            subst (IsSteady fl p ls) same (record {
              states = steady.states;
              xs = steady.xs;
              ys = steady.ys;
              zoom = inr starts.one;
              size = inr starts.quarter;
              begins = steady.begins;
              chosen = steady.chosen;
            })
        | inr none_of ↦
            let same : v ≡ v' = ground (arith, e, other, none_of) in
            subst (IsSteady fl p ls) same steady
      ]
    ]

    module _ (fuel : ℕ) (s : Store Float) (enough : length ls ≤ fuel)
        (list : IsList s.cell p ls) where
      released-IsSteady :
          (left dragged : Bool) (shown found : Option ℕ) (v : Viewer fl)
          → IsSteady fl p ls v
          → ((n : ℕ) → found ≡ some n → In n ls)
          → IsSteady fl p ls (released fl fuel s ls enough left dragged shown found v)
      released-IsSteady true dragged (some n) found v k one = k
      released-IsSteady true true none found v k one = k
      released-IsSteady true false none none v k one = k
      released-IsSteady true false none (some n) v k one =
          shown-IsSteady v (some n) (of_int 0) (of_int 0) k one
      released-IsSteady false true shown found v k one = k
      released-IsSteady false false shown found v k one =
          shown-IsSteady v none v.show_pan_x v.show_pan_y k (λ m is. cc is)

      press_button-IsSteady :
          (v : Viewer fl) (bn x y : ℕ)
          → bn < 32
          → IsSteady fl p ls v
          → Goes fl p ls (press_button fl v bn x y)
      unfolding press_button
      press_button-IsSteady v bn x y lt k = (
        record v { click_x = set v.click_x bn x; click_y = set v.click_y bn y },
        rw
            (
              set_item_lem v.click_x bn x (omega (arith, k.xs)),
              set_item_lem v.click_y bn y (omega (arith, k.ys)),
            )
            refl,
        noted fl p ls v v.bnstate (set v.click_x bn x) (set v.click_y bn y) v.prev_x v.prev_y refl
            (length-set v.click_x bn x) (length-set v.click_y bn y) k,
      )

      release_button-IsSteady :
          (v : Viewer fl) (bn x y : ℕ)
          → bn < 32
          → IsSteady fl p ls v
          → Goes fl p ls (release_button fl fuel v s bn x y)
      release_button-IsSteady v bn x y lt k =
          let (cx, at_x) = item-lt v.click_x bn (omega (arith, k.xs)) in
          let (cy, at_y) = item-lt v.click_y bn (omega (arith, k.ys)) in
          let (found, finds, one) =
            find_thumb-In fl fuel s ls enough v x y
              (subst (λ q. IsList s.cell q ls) (sym k.begins) list) in
          (
            _,
            release_lem fl fuel s ls enough v bn cx cy x y found at_x at_y finds,
            released-IsSteady (bn == 0) (is_far x cx || is_far y cy) v.show_thumb found v k one,
          )

      mouse-IsSteady :
          (v : Viewer fl) (bn st x y : ℕ)
          → bn < 32
          → IsSteady fl p ls v
          → Goes fl p ls (mouse fl fuel v s bn st x y)
      unfolding mouse
      mouse-IsSteady v bn st x y lt k =
          let in_b : bn < length v.bnstate = omega (arith, k.states) in
          let after =
            λ (b : ℕ). record v { bnstate = set v.bnstate bn b; prev_x = x; prev_y = y } in
          let steady = λ (b : ℕ).
            noted fl p ls v (set v.bnstate bn b) v.click_x v.click_y x y (length-set v.bnstate bn b)
              refl refl k in
          elim (Bool-cases (st == 0)) [
            | inl down ↦
                let (v', e, k') = press_button-IsSteady (after 1) bn x y lt (steady 1) in
                (v', rw (down, set_item_lem v.bnstate bn 1 in_b) e, k')
            | inr up ↦
                let (v', e, k') = release_button-IsSteady (after 0) bn x y lt (steady 0) in
                (v', rw (up, set_item_lem v.bnstate bn 0 in_b) e, k')
          ]

      -- Every event with a button in range is handled without a fault, whatever is shown: it ends the
      -- program or leaves a window in which zoom and size keep their bounds and what is shown is a
      -- thumbnail of the list.
      pub dispatch-IsSteady :
          Starts fl
          → (v : Viewer fl) (ev : WindowEvent) → InRange ev
          → IsSteady fl p ls v
          → (o : Option (Viewer fl)) × (dispatch fl fuel v s ev ≡ ok o)
            × ((v' : Viewer fl) → o ≡ some v' → IsSteady fl p ls v')
      unfolding dispatch
      dispatch-IsSteady starts v (button bn st x y) lt k =
          let (v', e, k') = mouse-IsSteady v bn st x y lt k in
          (some v', rw e refl, (λ u is. subst (IsSteady fl p ls) (same_viewer fl is) k'))
      dispatch-IsSteady starts v (moved x y) lt k =
          let (v', e, k') = motion-IsSteady fl p ls v x y k in
          (some v', rw e refl, (λ u is. subst (IsSteady fl p ls) (same_viewer fl is) k'))
      dispatch-IsSteady starts v (turned x y z) lt k = (
        some (sball_motion fl v x y z),
        refl,
        (λ u is.
            subst (IsSteady fl p ls) (same_viewer fl is) (sball_motion-IsSteady fl p ls v x y z k)),
      )
      dispatch-IsSteady starts v (key c) lt k =
          (keyb fl v c, refl, (λ u is. keyb-IsSteady starts v u c k is))
      dispatch-IsSteady starts v (resized x y) lt k = (
        some (reshape fl v x y),
        refl,
        (λ u is. subst (IsSteady fl p ls) (same_viewer fl is) (reshape-IsSteady v x y k)),
      )
