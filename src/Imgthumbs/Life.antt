-- ===== src/Imgthumbs/Life.antt =====
-- Runs of the example program: the turns of `create_thumbs`, the workers' loads, the turns of
-- `resman_poll` with its callbacks, reloads, the drawing and the events of the window, in any order,
-- in the build without a file watch. A step is one that returns.
use libresman.Base.{
  ℕ, ◌+◌, ◌*◌, ◌^◌, ◌<◌, ◌≡◌, Bool, true, Option, none, some, List, [], ◌∷◌, ok, length,
}
use libresman.Dynarr.{dynarr_size}
use libresman.Dynarr.Stack.{Holds}
use libresman.Resman.{Resource, item_at, resman_reload}
use libresman.Imgthumbs.{Floats, Image, Store}
use libresman.Imgthumbs.Thumbs.{Texman}
use libresman.Imgthumbs.Create.{Entry, start_thumb}
use libresman.Imgthumbs.Chain.{IsList}
use libresman.Imgthumbs.Callbacks.{run_load, run_done}
use libresman.Imgthumbs.Viewer.{Viewer, new_viewer, display}
use libresman.Imgthumbs.Steady.{WindowEvent, InRange, dispatch}

module _ (fl : Floats) (h : ℕ) where
  -- The resource manager, the thumbnails and the window; `h` is the head of the list.
  pub record App : Type 0 where
    pub texman : Texman
    pub store : Store fl.Float
    pub viewer : Viewer fl

  -- The slot `i` of the table holds the resource `r`.
  abbrev pub InTable : App → ℕ → Resource (Option ℕ) → Type 0
  InTable a i r = (i < dynarr_size a.texman.res) × (item_at a.texman.res i ≡ ok (some r))

  -- The fuel is above the number of the thumbnails in the list.
  abbrev pub Enough : App → ℕ → Type 0
  Enough a fuel = (ns : List ℕ) → IsList a.store.cell (some h) (h ∷ ns) → length ns < fuel

  pub data Step (a : App) : App → Type 0 where
    -- a turn of `create_thumbs`, whose block for the node is new
    starts :
        (e : Entry) (n : ℕ) (fname : List ℕ) (texman' : Texman) (s' : Store fl.Float)
        → a.store.cell n ≡ none
        → a.texman.res.szelem * (2 * a.texman.res.max_elem + 1) < 2 ^ 31
        → start_thumb fl true e a.texman a.store (some h) n fname ≡ ok (texman', s')
        → Step a (record a { texman = texman'; store = s' })
    -- a job of a worker
    loads :
        (created : Bool) (image : Option Image) (i : ℕ) (r : Resource (Option ℕ)) (texman' : Texman)
        (s' : Store fl.Float)
        → InTable a i r
        → run_load fl created image a.texman a.store i ≡ ok (texman', s')
        → Step a (record a { texman = texman'; store = s' })
    -- a turn of `resman_poll`, for a resource loaded fewer than 2 ^ 32 - 1 times
    finishes :
        (texture i : ℕ) (r : Resource (Option ℕ)) (texman' : Texman) (s' : Store fl.Float)
        → InTable a i r
        → r.done_pending ≡ true
        → r.num_loads + 1 < 2 ^ 32
        → run_done fl texture a.texman a.store i r ≡ ok (texman', s')
        → Step a (record a { texman = texman'; store = s' })
    -- a changed file
    reloads :
        (i : ℕ) (r : Resource (Option ℕ)) (texman' : Texman)
        → InTable a i r
        → resman_reload a.texman i ≡ ok texman'
        → Step a (record a { texman = texman' })
    -- `display`, with fuel for the list
    shows :
        (fuel : ℕ) (s' : Store fl.Float)
        → Enough a fuel
        → display fl fuel a.viewer a.store ≡ ok s'
        → Step a (record a { store = s' })
    -- an event, with fuel for the list
    answers :
        (fuel : ℕ) (ev : WindowEvent) (v' : Viewer fl)
        → Enough a fuel
        → InRange ev
        → dispatch fl fuel a.viewer a.store ev ≡ ok (some v')
        → Step a (record a { viewer = v' })

  pub data Run (a : App) : App → Type 0 where
    at_rest : Run a a
    one_more : (b c : App) → Run a b → Step b c → Run a c

  -- At the start the table is empty, and the list has only its head.
  pub record Opened (a : App) : Type 0 where
    pub table : Holds a.texman.res []
    pub destroys : a.texman.destroy_func ≡ true
    pub list : IsList a.store.cell (some h) (h ∷ [])
    pub window : a.viewer ≡ new_viewer fl (some h)
