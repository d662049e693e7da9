-- ===== src/Imgthumbs/Tests.antt =====
-- The example program at concrete inputs: a small list of thumbnails, a click, and a directory.
use libresman.Base.{
  ℕ, ◌+◌, ◌≡◌, refl, true, false, ◌&&◌, Option, none, some, List, [], ◌∷◌, ok, null_deref, ◌≢◌,
  if◌then◌else◌, ltb, leb, ◌==◌, arith, inr,
}
use libresman.Imgthumbs.{Thumbnail, Store}
use libresman.Imgthumbs.Thumbs.{blank}
use libresman.Imgthumbs.Create.{Entry, create_thumbs}
use libresman.Imgthumbs.Draw.{Point, draw_thumbs, find_thumb_from}
use libresman.Imgthumbs.Chain.{Cells, IsList}
use libresman.Imgthumbs.Unlink.{Unlinks, unlink-IsList}
use libresman.Imgthumbs.Found.{pick, untextured, unplaced, draw_thumbs-find_thumb_from}
use libresman.Imgthumbs.Freed.{Frees, free_thumbs-IsList}
use libresman.Imgthumbs.Viewer.{Viewer, new_viewer, display}
use libresman.Imgthumbs.Steady.{button, dispatch, IsSteady}
use libresman.Imgthumbs.Handlers.{dispatch-IsSteady}
use libresman.Imgthumbs.Start.{init, init-display}
use libresman.Imgthumbs.Listing.{Unused, create_thumbs-IsList}
use libresman.Imgthumbs.Samples.{thousandths, constants, entry, picture, new_texman, empty_store}

-- A thumbnail with a texture, at its place in the list.
abbrev thumb : ℕ → Option ℕ → Option ℕ → Thumbnail ℕ
thumb tex prev next = record (blank thousandths) {
  fname = some (97 ∷ []);
  tex = tex;
  prev = prev;
  next = next;
  list = some 7;
}

-- The head at 7, and behind it the thumbnails at 8 and 9; the one at 10 is in no list.
abbrev two_cells : Cells ℕ
two_cells n =
    if n == 7
    then some (record (blank thousandths) { next = some 8 })
    else if n == 8
    then some (thumb 1 (some 7) (some 9))
    else if n == 9
    then some (thumb 0 (some 8) none)
    else if n == 10
    then some (thumb 3 none none)
    else none

abbrev two_thumbs : Store ℕ
two_thumbs = record { cell = two_cells; names = 3; deleted = []; depth = 1 }

two_thumbs-IsList : IsList two_thumbs.cell (some 7) (7 ∷ 8 ∷ 9 ∷ [])
two_thumbs-IsList = record {
  linked = (
    refl,
    (
      record (blank thousandths) { next = some 8 },
      refl,
      refl,
      (
        refl,
        (thumb 1 (some 7) (some 9), refl, refl, (refl, (thumb 0 (some 8) none, refl, refl, refl))),
      ),
    ),
  );
  distinct = omega arith;
}

unlink-IsList_example : Unlinks thousandths two_thumbs 8 (some 7) [] 7 (9 ∷ [])
unlink-IsList_example =
    unlink-IsList thousandths two_thumbs 8 (some 7) [] 7 (9 ∷ []) two_thumbs-IsList

free_thumbs-IsList_example : Frees thousandths 3 two_thumbs (some 7) (7 ∷ 8 ∷ 9 ∷ [])
free_thumbs-IsList_example =
    free_thumbs-IsList thousandths 3 two_thumbs (some 7) (7 ∷ 8 ∷ 9 ∷ []) (omega arith)
      two_thumbs-IsList

-- Below zero there is nothing.
empty_square : (v : ℕ) → (leb 0 v && ltb v 0) ≡ false
empty_square v = ground arith

draw_thumbs-find_thumb_from_example :
    (s' : Store ℕ) × (draw_thumbs thousandths 3 two_thumbs (some 7) 250 0 ≡ ok s')
    × IsList s'.cell (some 7) (7 ∷ 8 ∷ 9 ∷ [])
    × (s'.depth ≡ 1 + untextured thousandths two_thumbs.cell (8 ∷ 9 ∷ []))
    × ((k : ℕ) → unplaced thousandths (s'.cell k) ≡ unplaced thousandths (two_thumbs.cell k))
    × ((f : Point thousandths)
        → find_thumb_from thousandths f 3 s' (some 7)
          ≡ ok (pick thousandths 250 0 f 0 0 (8 ∷ 9 ∷ [])))
draw_thumbs-find_thumb_from_example =
    draw_thumbs-find_thumb_from thousandths 250 0 3 two_thumbs 7
      (record (blank thousandths) { next = some 8 }) (8 ∷ 9 ∷ []) empty_square two_thumbs-IsList
      refl refl refl (omega arith)

-- The thumbnail at 9 is the second in the row: it is drawn from 375 to 625.
second_place : pick thousandths 250 0 (record { x = 400; y = 70 }) 0 0 (8 ∷ 9 ∷ []) ≡ some 9
second_place = refl

-- The window, 800 to 600.
abbrev window : Viewer thousandths
window = record (new_viewer thousandths (some 7)) {
  win_width = 800;
  win_height = 600;
  win_aspect = 1333;
}

window-IsSteady : IsSteady thousandths (some 7) (7 ∷ 8 ∷ 9 ∷ []) window
window-IsSteady = record {
  states = refl;
  xs = refl;
  ys = refl;
  zoom = inr refl;
  size = inr refl;
  begins = refl;
  chosen = λ n e. absurd (cc e);
}

dispatch-IsSteady_example :
    (o : Option (Viewer thousandths)) × (dispatch thousandths 3 window two_thumbs (button 2 0 10 10)
      ≡ ok o)
    × ((v' : Viewer thousandths) → o ≡ some v' → IsSteady thousandths (some 7) (7 ∷ 8 ∷ 9 ∷ []) v')
dispatch-IsSteady_example =
    dispatch-IsSteady thousandths (some 7) (7 ∷ 8 ∷ 9 ∷ []) 3 two_thumbs (omega arith)
      two_thumbs-IsList constants window (button 2 0 10 10) (omega arith) window-IsSteady

-- Three files, of which the second is no image; the third gets its block.
abbrev files : List Entry
files =
    entry (97 ∷ []) 8 (some picture)
    ∷ entry (98 ∷ []) 9 none
    ∷ entry (99 ∷ []) 9 (some picture)
    ∷ []

block_of : {n m : ℕ} → some n ≡ some m → n ≡ m
block_of e = cc e

files-Unused : Unused 7 files []
files-Unused = (
  (λ n e. (omega (arith, block_of e), tt)),
  (
    (λ n e. (omega (arith, block_of e), (omega (arith, block_of e), tt))),
    ((λ n e. (omega (arith, block_of e), (omega (arith, block_of e), tt))), tt),
  ),
)

create_thumbs-IsList_example :
    (s' : Store ℕ) × (create_thumbs thousandths false
        (some 7)
        (some files)
        (46 ∷ [])
        new_texman
        empty_store
      ≡ ok (new_texman, s', some 7))
    × IsList s'.cell (some 7) (7 ∷ 9 ∷ 8 ∷ [])
create_thumbs-IsList_example =
    create_thumbs-IsList thousandths new_texman 7 (46 ∷ []) 46 refl files empty_store files-Unused

-- A directory that cannot be opened.
init-display_example :
    (s' : Store ℕ) × (v' : Viewer thousandths) × (init thousandths true
        (some 7)
        none
        (46 ∷ [])
        new_texman
        empty_store
        window
      ≡ ok (new_texman, s', v'))
    × (s'.cell 7 ≢ none)
    × (display thousandths 3 v' s' ≡ null_deref)
init-display_example =
    init-display thousandths true 7 (46 ∷ []) new_texman empty_store window 3 refl
