-- ===== src/Imgthumbs/Motions.antt =====
-- `motion` and `sball_motion` of examples/imgthumbs/src/main.c keep the window steady.
use libresman.Base.{
  ℕ, ◌≡◌, refl, ap, ◌∙◌, ◌&&◌, Option, List, Exec, ok, if◌then◌else◌, ◌==◌, length, arith, inl, inr,
  Bool-cases, Option-cases,
}
use libresman.Imgthumbs.{Floats}
use libresman.Imgthumbs.Viewer.{Viewer, item, motion, drag, scale, sball_motion, sub32}
use libresman.Imgthumbs.Steady.{item-lt, IsSteady, Zooms, Sizes, Follows-IsSteady}

module _ (fl : Floats) where
  open fl use {Float, of_int, lit, widen, narrow, le, double_le}

  module _ (p : Option ℕ) (ls : List ℕ) where
    drag-IsSteady :
        (v : Viewer fl) (dx dy : ℕ) → IsSteady fl p ls v → IsSteady fl p ls (drag fl v dx dy)
    drag-IsSteady v dx dy k =
        Follows-IsSteady fl p ls v (drag fl v dx dy) k
          (record {
            states = ground arith;
            xs = ground arith;
            ys = ground arith;
            zoom = inl (ground arith);
            size = inl (ground arith);
            begins = ground arith;
          })
          (λ n e. k.chosen n (ground (arith, e)))

    scale-zoom : (v : Viewer fl) (dy : ℕ) → Zooms fl v.show_zoom (scale fl v dy).show_zoom
    scale-zoom v dy = elim (Option-cases v.show_thumb) [
      | inl hidden ↦ inl (ground (arith, hidden))
      | inr (n, shown) ↦ inr (
        narrow (
            fl.double_sub (widen v.show_zoom) (fl.double_mul (fl.double_of_int dy) (lit 75 10000))),
        ground (arith, shown),
      )
    ]

    scale-size : (v : Viewer fl) (dy : ℕ) → Sizes fl v.thumbs_size (scale fl v dy).thumbs_size
    scale-size v dy = elim (Option-cases v.show_thumb) [
      | inl hidden ↦ inr (
        narrow (
            fl.double_sub (widen v.thumbs_size) (fl.double_mul (fl.double_of_int dy) (lit 5 1000))),
        ground (arith, hidden),
      )
      | inr (n, shown) ↦ inl (ground (arith, shown))
    ]

    scale-IsSteady :
        (v : Viewer fl) (dy : ℕ) → IsSteady fl p ls v → IsSteady fl p ls (scale fl v dy)
    scale-IsSteady v dy k =
        Follows-IsSteady fl p ls v (scale fl v dy) k
          (record {
            states = ground arith;
            xs = ground arith;
            ys = ground arith;
            zoom = scale-zoom v dy;
            size = scale-size v dy;
            begins = ground arith;
          })
          (λ n e. k.chosen n (ground (arith, e)))

    pub sball_motion-IsSteady :
        (v : Viewer fl) (x y z : ℕ)
        → IsSteady fl p ls v
        → IsSteady fl p ls (sball_motion fl v x y z)
    unfolding sball_motion
    sball_motion-IsSteady v x y z k =
        let v' = sball_motion fl v x y z in
        let fz = narrow (fl.double_mul (fl.double_of_int (sub32 0 y)) (lit 5 10000)) in
        Follows-IsSteady fl p ls v v' k
          (record {
            states = ground arith;
            xs = ground arith;
            ys = ground arith;
            zoom = elim (Option-cases v.show_thumb) [
              | inl hidden ↦ inl (ground (arith, hidden))
              | inr (n, shown) ↦ inr (fl.add v.show_zoom fz, ground (arith, shown))
            ];
            size = elim (Option-cases v.show_thumb) [
              | inl hidden ↦ inr (fl.add v.thumbs_size fz, ground (arith, hidden))
              | inr (n, shown) ↦ inl (ground (arith, shown))
            ];
            begins = ground arith;
          })
          (λ n e. k.chosen n (ground (arith, e)))

    -- What `mouse` and `motion` note of the pointer changes none of this.
    pub noted :
        (v : Viewer fl) (bs xs ys : List ℕ) (x y : ℕ)
        → length bs ≡ length v.bnstate
        → length xs ≡ length v.click_x
        → length ys ≡ length v.click_y
        → IsSteady fl p ls v
        → IsSteady fl p ls
            (record v { bnstate = bs; click_x = xs; click_y = ys; prev_x = x; prev_y = y })
    noted v bs xs ys x y eb ex ey k =
        Follows-IsSteady fl p ls v _ k
          (record {
            states = eb;
            xs = ex;
            ys = ey;
            zoom = inl refl;
            size = inl refl;
            begins = refl;
          })
          k.chosen

    -- The window after both branches of `motion`.
    abbrev moved_by : Viewer fl → ℕ → ℕ → ℕ → ℕ → Viewer fl
    moved_by v left right dx dy =
        let v2 = if left == 0 then v else drag fl v dx dy in
        if right == 0 then v2 else scale fl v2 dy

    moved_by-IsSteady :
        (v : Viewer fl) (left right dx dy : ℕ)
        → IsSteady fl p ls v
        → IsSteady fl p ls (moved_by v left right dx dy)
    moved_by-IsSteady v left right dx dy k = elim (Bool-cases (left == 0)) [
      | inl up ↦ elim (Bool-cases (right == 0)) [
        | inl still ↦ rw (up, still) k
        | inr down ↦ rw (up, down) (scale-IsSteady v dy k)
      ]
      | inr pressed ↦ elim (Bool-cases (right == 0)) [
        | inl still ↦ rw (pressed, still) (drag-IsSteady v dx dy k)
        | inr down ↦
            rw (pressed, down) (scale-IsSteady (drag fl v dx dy) dy (drag-IsSteady v dx dy k))
      ]
    ]

    abbrev pub Goes : Exec (Viewer fl) → Type 0
    Goes m = (v' : Viewer fl) × (m ≡ ok v') × IsSteady fl p ls v'

    pub motion-IsSteady : (v : Viewer fl) (x y : ℕ) → IsSteady fl p ls v → Goes (motion fl v x y)
    unfolding motion
    motion-IsSteady v x y k =
        let v1 = record v { prev_x = x; prev_y = y } in
        let k1 : IsSteady fl p ls v1 = noted v v.bnstate v.click_x v.click_y x y refl refl refl k in
        let dx = sub32 x v.prev_x in
        let dy = sub32 y v.prev_y in
        elim (Bool-cases ((dx == 0) && (dy == 0))) [
          | inl still ↦ (v1, rw still refl, k1)
          | inr going ↦
              let (left, at_left) = item-lt v.bnstate 0 (omega (arith, k.states)) in
              let v2 = if left == 0 then v1 else drag fl v1 dx dy in
              let (right, at_right) = item-lt v.bnstate 2 (omega (arith, k.states)) in
              let same : v2.bnstate ≡ v.bnstate = ground arith in
              let at_right' : item v2.bnstate 2 ≡ ok right = ap (λ bs. item bs 2) same ∙ at_right in
              (
                moved_by v1 left right dx dy,
                rw (going, at_left, at_right') refl,
                moved_by-IsSteady v1 left right dx dy k1,
              )
        ]
