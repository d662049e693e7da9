-- ===== src/Imgthumbs/Callbacks.antt =====
-- The callbacks of examples/imgthumbs/src/thumbs.c where src/resman.c calls them, in the build without
-- a file watch: `work_func` with `load_res_texture`, a turn of the second loop of `resman_poll` with
-- `done_res_texture`, and the calls of `free_res_texture`, which are made in the order in which
-- `destroyed` lists them.
use libresman.Base.{
  ℕ, ◌≡◌, refl, true, Bool, Option, some, List, [], ◌∷◌, ◌++◌, Exec, ok, ltb, get_elem?, arith,
}
use libresman.Base.Int.{pos}
use libresman.Base.Outcome.{◌>>=◌}
use libresman.Dynarr.{dynarr_size}
use libresman.Dynarr.Stack.{Holds}
use libresman.Resman.{Resource, Resman}
use libresman.Resman.Table.{item_at-Holds}
use libresman.Resman.Access.{field_or}
use libresman.Resman.Owed.{lt-of-get_elem?}
use libresman.Resman.Watch.{no_watch}
use libresman.Resman.Work.{work_func, done_callback}
use libresman.Imgthumbs.{Floats, Image, Store}
use libresman.Imgthumbs.Thumbs.{Texman, load_res_texture, done_res_texture, free_res_texture}

-- What the second list has behind the first.
abbrev pub new_calls : List ℕ → List ℕ → List ℕ
new_calls [] js = js
new_calls (i ∷ is) [] = []
new_calls (i ∷ is) (j ∷ js) = new_calls is js

pub new_calls-append : (is js : List ℕ) → new_calls is (is ++ js) ≡ js
new_calls-append [] js = refl
new_calls-append (i ∷ is) js = new_calls-append is js

pub new_calls_self : (is : List ℕ) → new_calls is is ≡ []
new_calls_self [] = refl
new_calls_self (i ∷ is) = new_calls_self is

module _ {D : Type 0} {A : Type 0} where
  -- A field of a resource in the table.
  pub field_or-Holds :
      (other : A) (field : Resource D → A) (rman : Resman D) (xs : List (Option (Resource D)))
      (i : ℕ) (r : Resource D)
      → Holds rman.res xs
      → get_elem? xs i ≡ some (some r)
      → field_or other field rman (pos i) ≡ ok (field r)
  unfolding dynarr_size
  field_or-Holds other field rman xs i r h at =
      let lt = lt-of-get_elem? xs i (some r) at in
      let inside : ltb i rman.res.nelem ≡ true = ground (arith, lt, h.counted) in
      rw (inside, item_at-Holds rman.res xs i (some r) h at) refl

module _ (fl : Floats) where
  open fl use {Float}

  -- The calls of `destroy_func`.
  unfoldable pub destroy_all : Texman → Store Float → List ℕ → Exec (Store Float)
  destroy_all texman s [] = ok s
  destroy_all texman s (i ∷ is) = do s' ← free_res_texture fl texman s i; destroy_all texman s' is

  -- `work_func` on the job for the resource `i`.
  unfoldable pub run_load :
      Bool → Option Image → Texman → Store Float → ℕ → Exec (Texman × Store Float)
  run_load created image texman s i = do
    (texman1, s', result) ← load_res_texture fl created image texman s i
    (texman', w) ← work_func no_watch true result texman1 tt i
    ok (texman', s')

  -- The turn of `resman_poll` for the resource `r` in the slot `i`, which is done.
  unfoldable pub run_done :
      ℕ → Texman → Store Float → ℕ → Resource (Option ℕ) → Exec (Texman × Store Float)
  unfolding destroy_all
  run_done texture texman s i r = do
    (s1, answer) ← done_res_texture fl texture texman s i
    (texman', w) ← done_callback no_watch answer texman tt i r
    s' ← destroy_all texman s1 (new_calls texman.destroyed texman'.destroyed)
    ok (texman', s')
