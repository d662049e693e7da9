-- ===== src/Imgthumbs/Clicks.antt =====
-- A click in the window of the example program, by `mouse` of examples/imgthumbs/src/main.c.
use libresman.Base.{
  ℕ, zero, suc, ◌≤◌, ◌<◌, ◌≡◌, refl, Bool, true, false, ◌||◌, Option, none, some, List, [], ◌∷◌, ok,
  ◌==◌, ltb, length, get_elem?-set_self, set, arith, inl, inr, Bool-cases,
}
use libresman.Imgthumbs.{Floats, Store}
use libresman.Imgthumbs.Draw.{Point, hit, find_thumb_from}
use libresman.Imgthumbs.Chain.{Chain, IsList}
use libresman.Imgthumbs.Held.{In}
use libresman.Imgthumbs.Viewer.{
  Viewer, is_far, item, set_item, window_point, find_thumb, release_button,
}

-- What is shown after a button was released: `left` for the left button, `dragged` if the pointer has
-- moved away, `shown` what was shown, and `found` what is at the pointer.
abbrev pub after_release : (left dragged : Bool) (shown found : Option ℕ) → Option ℕ
after_release true dragged (some n) found = some n
after_release true true none found = none
after_release true false none found = found
after_release false true shown found = shown
after_release false false shown found = none

pub set_item_lem : (xs : List ℕ) (i x : ℕ) → i < length xs → set_item xs i x ≡ ok (set xs i x)
set_item_lem xs i x h = let inside : ltb i (length xs) ≡ true = ground (arith, h) in rw inside refl

pub item-set : (xs : List ℕ) (i x : ℕ) → i < length xs → item (set xs i x) i ≡ ok x
item-set xs i x h = rw (get_elem?-set_self xs i x h, item) refl

module _ (fl : Floats) where
  -- On a list of thumbnails the search ends, and finds one of them or none.
  pub find_thumb_from-In :
      (f : Point fl) (fuel : ℕ) (s : Store fl.Float) (prev q : Option ℕ) (ns : List ℕ)
      → length ns ≤ fuel
      → Chain s.cell prev q ns
      → (p : Option ℕ) × (find_thumb_from fl f fuel s q ≡ ok p) × ((n : ℕ) → p ≡ some n → In n ns)
  unfolding find_thumb_from
  find_thumb_from-In f fuel s prev q [] m c = (none, rw c refl, (λ n e. cc e))
  find_thumb_from-In f zero s prev q (n ∷ ns) m c = absurd (omega arith)
  find_thumb_from-In f (suc fuel) s prev q (n ∷ ns) m (e, (t, at, back, rest)) =
      let (p, run, one) = find_thumb_from-In f fuel s (some n) t.next ns (omega arith) rest in
      elim (Bool-cases (hit fl f t)) [
        | inl found ↦ (some n, rw (e, at, found) refl, (λ k is. inl (cc is)))
        | inr missed ↦ (p, rw (e, at, missed) run, (λ k is. inr (one k is)))
      ]

  module _ (fuel : ℕ) (s : Store fl.Float) (ns : List ℕ) (enough : length ns ≤ fuel) where
    pub find_thumb-In :
        (v : Viewer fl) (x y : ℕ)
        → IsList s.cell v.thumbs ns
        → (p : Option ℕ) × (find_thumb fl fuel v s x y ≡ ok p) × ((n : ℕ) → p ≡ some n → In n ns)
    unfolding find_thumb
    find_thumb-In v x y l =
        find_thumb_from-In (window_point fl v x y) fuel s none v.thumbs ns enough l.linked

    -- The window after the release.
    abbrev pub released : Bool → Bool → Option ℕ → Option ℕ → Viewer fl → Viewer fl
    released true dragged (some n) found v = v
    released true true none found v = v
    released true false none none v = v
    released true false none (some n) v = record v {
      show_thumb = some n;
      show_pan_x = fl.of_int 0;
      show_pan_y = fl.of_int 0;
    }
    released false true shown found v = v
    released false false shown found v = record v { show_thumb = none }

    pub release_lem :
        (v : Viewer fl) (bn x y x' y' : ℕ) (found : Option ℕ)
        → item v.click_x bn ≡ ok x
        → item v.click_y bn ≡ ok y
        → find_thumb fl fuel v s x' y' ≡ ok found
        → release_button fl fuel v s bn x' y'
          ≡ ok (released (bn == 0) (is_far x' x || is_far y' y) v.show_thumb found v)
    unfolding release_button
    release_lem v bn x y x' y' found at_x at_y finds = rw (at_x, at_y) (ground (arith, finds))
