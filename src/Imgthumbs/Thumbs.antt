-- ===== src/Imgthumbs/Thumbs.antt =====
-- examples/imgthumbs/src/thumbs.c, without what only draws. `texman` is the resource manager, whose
-- resources have a thumbnail for data. What the image library, the allocator and the directory give
-- are arguments.

use libresman.Base.{
  ℕ, zero, suc, ◌-◌, Bool, Option, none, some, [], ◌∷◌, ◌++◌, Exec, ok, aborted, no_fuel,
  if◌then◌else◌, ◌==◌,
}
use libresman.Base.Int.{pos}
use libresman.Base.Outcome.{◌>>=◌}
use libresman.Resman.{Resman, deref}
use libresman.Resman.Access.{
  resman_get_res_data, resman_get_res_result, resman_get_res_load_count, resman_set_res_data,
}
use libresman.Resman.Work.{minus_one}
use libresman.Imgthumbs.{
  Floats, Image, Thumbnail, Store, alive, thumb_at, write_thumb, modify, modify_if,
}

abbrev pub Texman : Type 0
Texman = Resman (Option ℕ)

-- The pointer that `resman_get_res_data` gives.
abbrev pub pointer : Option (Option ℕ) → Option ℕ
pointer none = none
pointer (some p) = p

unfoldable pub thumb_of : Texman → ℕ → Exec (Option ℕ)
thumb_of texman id = do p ← resman_get_res_data texman (pos id); ok (pointer p)

module _ (fl : Floats) where
  open fl use {Float, of_int, lit, narrow, div}

  -- What `memset` and `calloc` leave.
  abbrev pub blank : Thumbnail Float
  blank = record {
    fname = none;
    tex = 0;
    aspect = of_int 0;
    pos_x = of_int 0;
    pos_y = of_int 0;
    size_x = of_int 0;
    size_y = of_int 0;
    img = none;
    next = none;
    prev = none;
    list = none;
    load_count = 0;
  }

  -- `(float)img->width / (float)img->height`
  abbrev pub aspect_of : Image → Float
  aspect_of img = div (of_int img.width) (of_int img.height)

  -- The four statements that put the thumbnail `n` behind the node `list`.
  unfoldable pub link_after : Store Float → Option ℕ → ℕ → Exec (Store Float)
  link_after s list n = do
    s1 ← modify s (some n) (λ t. record t { prev = list })
    h ← thumb_at s1 list
    s2 ← modify s1 (some n) (λ t. record t { next = h.next })
    h' ← thumb_at s2 list
    s3 ← modify_if s2 h'.next (λ t. record t { prev = some n })
    modify s3 list (λ t. record t { next = some n })

  -- `load_res_texture` from `img_load` on, which reads `image`.
  unfoldable pub read_image :
      Option Image
      → Texman
      → Store Float
      → ℕ
      → ℕ
      → Thumbnail Float
      → Exec (Texman × Store Float × ℕ)
  read_image none texman s id n t =
      ok (texman, write_thumb s n (some (record t { img = none })), minus_one)
  read_image (some img) texman s id n t = do
    texman' ← resman_set_res_data texman (pos id) (some n)
    ok (texman', write_thumb s n (some (record t { img = some img; aspect = aspect_of img })), 0)

  -- `load_res_texture` for a thumbnail whose image is the first argument; `created` says whether
  -- `img_create` succeeds.
  unfoldable pub load_into :
      Option Image
      → Bool
      → Option Image
      → Texman
      → Store Float
      → ℕ
      → ℕ
      → Thumbnail Float
      → Exec (Texman × Store Float × ℕ)
  load_into none created image texman s id n t =
      if created then read_image image texman s id n t else ok (texman, s, minus_one)
  load_into (some old) created image texman s id n t = read_image image texman s id n t

  -- `load_res_texture`
  unfoldable pub load_res_texture :
      Bool → Option Image → Texman → Store Float → ℕ → Exec (Texman × Store Float × ℕ)
  unfolding thumb_of
  load_res_texture created image texman s id = do
    p ← thumb_of texman id
    elim p [
      | none ↦ aborted
      | some n ↦ do t ← alive (s.cell n); load_into t.img created image texman s id n t
    ]

  -- The upload in `done_res_texture`: a texture, the new one `texture` if there was none, gets the
  -- image, of which the size is read.
  unfoldable pub upload : ℕ → Store Float → Option ℕ → Exec (Store Float)
  upload texture s p = do
    s1 ← modify s p (λ t. record t { tex = if t.tex == 0 then texture else t.tex })
    t ← thumb_at s1 p
    img ← deref t.img
    ok s1

  -- `done_res_texture`, with what it returns.
  unfoldable pub done_res_texture : ℕ → Texman → Store Float → ℕ → Exec (Store Float × ℕ)
  unfolding thumb_of upload
  done_res_texture texture texman s id = do
    p ← thumb_of texman id
    result ← resman_get_res_result texman (pos id)
    if result == minus_one then ok (s, minus_one) else (do
      s1 ← upload texture s p
      loads ← resman_get_res_load_count texman (pos id)
      if loads == 0
          then (do n ← deref p; t ← alive (s1.cell n); s2 ← link_after s1 t.list n; ok (s2, 0))
          else ok (s1, 0))

  -- The end of `free_res_texture`: the thumbnail leaves its list, and its block is given back.
  unfoldable pub unlink : Store Float → ℕ → Exec (Store Float)
  unlink s n = do
    t ← alive (s.cell n)
    s1 ← modify_if s t.prev (λ u. record u { next = t.next })
    t1 ← alive (s1.cell n)
    s2 ← modify_if s1 t1.next (λ u. record u { prev = t1.prev })
    t2 ← alive (s2.cell n)
    ok (write_thumb s2 n none)

  -- `free_res_texture`; the name of the thumbnail is printed before its pointer is tested.
  unfoldable pub free_res_texture : Texman → Store Float → ℕ → Exec (Store Float)
  unfolding thumb_of unlink
  free_res_texture texman s id = do
    p ← thumb_of texman id
    n ← deref p
    t ← alive (s.cell n)
    unlink (if t.tex == 0 then s else record s { deleted = s.deleted ++ t.tex ∷ [] }) n

  -- `free(tmp->fname); free(tmp);`
  abbrev pub free_node : Store Float → ℕ → Thumbnail Float → Store Float
  free_node s n t = record (write_thumb s n none) {
    names = elim t.fname [ none ↦ s.names | some name ↦ s.names - 1 ];
  }

  -- `free_thumbs`, with fuel for the nodes of the list.
  unfoldable pub free_thumbs : ℕ → Store Float → Option ℕ → Exec (Store Float)
  free_thumbs fuel s none = ok s
  free_thumbs zero s (some n) = no_fuel
  free_thumbs (suc fuel) s (some n) = do
    t ← alive (s.cell n)
    free_thumbs fuel (free_node s n t) t.next
