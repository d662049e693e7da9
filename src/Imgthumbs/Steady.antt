-- ===== src/Imgthumbs/Steady.antt =====
-- The events of the window of the example program, and what all handlers of
-- examples/imgthumbs/src/main.c keep.
use libresman.Base.{
  ℕ, ◌<◌, ◌≡◌, refl, sym, ◌∙◌, subst, false, Option, some, List, Exec, ok, length, ◌⊎◌, inl, inr,
  Bool-cases,
}
use libresman.Base.Outcome.{◌>>=◌}
use libresman.Resman.Owed.{get_elem?-lt}
use libresman.Imgthumbs.{Floats, Store}
use libresman.Imgthumbs.Held.{In}
use libresman.Imgthumbs.Viewer.{
  Viewer, item, mouse, motion, sball_motion, keyb, reshape, bounded_zoom, bounded_size,
}

pub data WindowEvent : Type 0 where
  button : (bn st x y : ℕ) → WindowEvent
  moved : (x y : ℕ) → WindowEvent
  turned : (x y z : ℕ) → WindowEvent
  key : (k : ℕ) → WindowEvent
  resized : (x y : ℕ) → WindowEvent

-- The arrays of src/main.c have room for the button.
abbrev pub InRange : WindowEvent → Type 0
InRange (button bn st x y) = bn < 32
InRange _ = Unit {0}

pub item-lt : (xs : List ℕ) (i : ℕ) → i < length xs → (x : ℕ) × (item xs i ≡ ok x)
item-lt xs i h = let (x, e) = get_elem?-lt xs i h in (x, rw (e, item) refl)

module _ (fl : Floats) where
  open fl use {Float, of_int, lit, widen, narrow, le, double_le}

  abbrev pub going_on : Exec (Viewer fl) → Exec (Option (Viewer fl))
  going_on m = m >>= λ v. ok (some v)

  -- One event; `none` is the end of the program.
  unfoldable pub dispatch : ℕ → Viewer fl → Store Float → WindowEvent → Exec (Option (Viewer fl))
  dispatch fuel v s (button bn st x y) = going_on (mouse fl fuel v s bn st x y)
  dispatch fuel v s (moved x y) = going_on (motion fl v x y)
  dispatch fuel v s (turned x y z) = ok (some (sball_motion fl v x y z))
  dispatch fuel v s (key k) = ok (keyb fl v k)
  dispatch fuel v s (resized x y) = ok (some (reshape fl v x y))

  pub same_viewer : {v u : Viewer fl} → some v ≡ some u → v ≡ u
  same_viewer e = cc e

  -- The constants at which the window starts are in range.
  pub record Starts : Type 0 where
    pub one : le (narrow (lit 1 1)) (of_int 0) ≡ false
    pub quarter : double_le (widen (narrow (lit 25 100))) (lit 1 100) ≡ false

  -- The arrays have 32 items, zoom and size keep their bounds, and what is shown is a thumbnail of the
  -- list `ls`, which begins at `p`.
  pub record IsSteady (p : Option ℕ) (ls : List ℕ) (v : Viewer fl) : Type 0 where
    pub states : length v.bnstate ≡ 32
    pub xs : length v.click_x ≡ 32
    pub ys : length v.click_y ≡ 32
    pub zoom : (v.show_zoom ≡ of_int 0) ⊎ (le v.show_zoom (of_int 0) ≡ false)
    pub size :
        (v.thumbs_size ≡ narrow (lit 1 100)) ⊎ (double_le (widen v.thumbs_size) (lit 1 100) ≡ false)
    pub begins : v.thumbs ≡ p
    pub chosen : (n : ℕ) → v.show_thumb ≡ some n → In n ls

  bounded_zoom_lem :
      (z : Float) → (bounded_zoom fl z ≡ of_int 0) ⊎ (le (bounded_zoom fl z) (of_int 0) ≡ false)
  bounded_zoom_lem z = elim (Bool-cases (le z (of_int 0))) [
    | inl below ↦ inl (rw below refl)
    | inr above ↦ inr (rw above above)
  ]

  bounded_size_lem :
      (z : Float)
      → (bounded_size fl z ≡ narrow (lit 1 100))
        ⊎ (double_le (widen (bounded_size fl z)) (lit 1 100) ≡ false)
  bounded_size_lem z = elim (Bool-cases (double_le (widen z) (lit 1 100))) [
    | inl below ↦ inl (rw below refl)
    | inr above ↦ inr (rw above above)
  ]

  -- What a handler may do to zoom and size: nothing, or a step that is cut at the bound.
  abbrev pub Zooms : Float → Float → Type 0
  Zooms old new = (new ≡ old) ⊎ ((z : Float) × (new ≡ bounded_zoom fl z))

  abbrev pub Sizes : Float → Float → Type 0
  Sizes old new = (new ≡ old) ⊎ ((z : Float) × (new ≡ bounded_size fl z))

  pub record Follows (v v' : Viewer fl) : Type 0 where
    pub states : length v'.bnstate ≡ length v.bnstate
    pub xs : length v'.click_x ≡ length v.click_x
    pub ys : length v'.click_y ≡ length v.click_y
    pub zoom : Zooms v.show_zoom v'.show_zoom
    pub size : Sizes v.thumbs_size v'.thumbs_size
    pub begins : v'.thumbs ≡ v.thumbs

  module _ (p : Option ℕ) (ls : List ℕ) where
    pub Follows-IsSteady :
        (v v' : Viewer fl)
        → IsSteady p ls v
        → Follows v v'
        → ((n : ℕ) → v'.show_thumb ≡ some n → In n ls)
        → IsSteady p ls v'
    Follows-IsSteady v v' k f chosen = record {
      states = f.states ∙ k.states;
      xs = f.xs ∙ k.xs;
      ys = f.ys ∙ k.ys;
      zoom = elim f.zoom [
        | inl same ↦ subst (λ z. (z ≡ of_int 0) ⊎ (le z (of_int 0) ≡ false)) (sym same) k.zoom
        | inr (z, cut) ↦
            subst (λ y. (y ≡ of_int 0) ⊎ (le y (of_int 0) ≡ false)) (sym cut) (bounded_zoom_lem z)
      ];
      size = elim f.size [
        | inl same ↦
            subst (λ z. (z ≡ narrow (lit 1 100)) ⊎ (double_le (widen z) (lit 1 100) ≡ false))
              (sym same) k.size
        | inr (z, cut) ↦
            subst (λ y. (y ≡ narrow (lit 1 100)) ⊎ (double_le (widen y) (lit 1 100) ≡ false))
              (sym cut) (bounded_size_lem z)
      ];
      begins = f.begins ∙ k.begins;
      chosen = chosen;
    }
