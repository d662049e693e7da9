-- ===== src/Imgthumbs/Start.antt =====
-- The start and the end of the example program: `init` and `cleanup` of examples/imgthumbs/src/main.c.
use libresman.Base.{ℕ, ◌≡◌, refl, Bool, ◌≢◌, Option, none, some, List, Exec, ok, null_deref, arith}
use libresman.Base.Outcome.{◌>>=◌}
use libresman.Imgthumbs.{Floats, Store}
use libresman.Imgthumbs.Thumbs.{Texman, free_thumbs}
use libresman.Imgthumbs.Create.{Entry, new_head, create_thumbs}
use libresman.Imgthumbs.Draw.{draw_thumbs}
use libresman.Imgthumbs.Viewer.{Viewer, display}

module _ (fl : Floats) where
  -- `init`, which returns 0 in every case.
  unfoldable pub init :
      Bool
      → Option ℕ
      → Option (List Entry)
      → List ℕ
      → Texman
      → Store fl.Float
      → Viewer fl
      → Exec (Texman × Store fl.Float × Viewer fl)
  init async head dir path texman s v = do
    (texman', s', thumbs) ← create_thumbs fl async head dir path texman s
    ok (texman', s', record v { thumbs = thumbs })

  unfoldable pub cleanup : ℕ → Viewer fl → Store fl.Float → Exec (Store fl.Float)
  cleanup fuel v s = free_thumbs fl fuel s v.thumbs

  -- Where the directory cannot be opened `init` returns all the same, the block for the head of the
  -- list is not given back, and the first `display` goes through a null pointer.
  pub init-display :
      (async : Bool) (h : ℕ) (path : List ℕ) (texman : Texman) (s : Store fl.Float) (v : Viewer fl)
      (fuel : ℕ)
      → v.show_thumb ≡ none
      → (s' : Store fl.Float) × (v' : Viewer fl) × (init async (some h) none path texman s v
          ≡ ok (texman, s', v'))
        × (s'.cell h ≢ none)
        × (display fl fuel v' s' ≡ null_deref)
  unfolding init create_thumbs display draw_thumbs
  init-display async h path texman s v fuel hidden = (
    new_head fl s (some h),
    record v { thumbs = none },
    refl,
    (λ e. ground (arith, e)),
    ground (arith, hidden),
  )
