-- ===== src/Imgthumbs/Create.antt =====
-- `create_thumbs` of examples/imgthumbs/src/thumbs.c.
use mathlib.Core.List.{get_last?}
use libresman.Base.{
  ℕ, ◌+◌, ◌-◌, Bool, true, false, Option, none, some, List, [], ◌∷◌, ◌++◌, Exec, ok, out_of_bounds,
  if◌then◌else◌, ◌==◌,
}
use libresman.Base.Outcome.{◌>>=◌}
use libresman.Paths.{slash}
use libresman.Resman.{resman_add}
use libresman.Imgthumbs.{Floats, Image, Store, write_thumb, modify}
use libresman.Imgthumbs.Thumbs.{Texman, blank, aspect_of, link_after}

-- What one turn of the loop over a directory is given: the name, the block for the node, whether
-- there is memory for its name, for the resource and for the table, the image, and a new texture.
pub record Entry : Type 0 where
  pub d_name : List ℕ
  pub block : Option ℕ
  pub name_alloc : Bool
  pub res_alloc : Bool
  pub mem : ℕ → Bool
  pub image : Option Image
  pub texture : ℕ

-- The path of an entry: a slash goes between, unless the directory's name ends in one.
unfoldable pub entry_path : List ℕ → List ℕ → Exec (List ℕ)
entry_path dirpath d_name = elim (get_last? dirpath) [
  | none ↦ out_of_bounds
  | some c ↦ ok (if c == slash then dirpath ++ d_name else dirpath ++ slash ∷ d_name)
]

module _ (fl : Floats) where
  open fl use {Float, of_int, lit, narrow, div}

  -- The branch of `create_thumbs` that loads at once, for the thumbnail `n` in `s`.
  unfoldable pub load_now :
      Option Image → ℕ → Store Float → Option ℕ → ℕ → Exec (Store Float × Bool)
  load_now none texture s list n = ok (record (write_thumb s n none) { names = s.names - 1 }, false)
  load_now (some img) texture s list n = do
    s1 ← modify s (some n) (λ t. record t { aspect = aspect_of fl img; tex = texture })
    s2 ← link_after fl s1 list n
    ok (s2, true)

  -- The end of a turn in `create_thumbs`.
  abbrev pub end_turn : Store Float → Option ℕ → ℕ → Exec (Store Float)
  end_turn s list n = modify s (some n) (λ t. record t { list = list; load_count = 0 })

  -- A turn of `create_thumbs` for the new node `n` with the path `fname`.
  unfoldable pub start_thumb :
      Bool → Entry → Texman → Store Float → Option ℕ → ℕ → List ℕ → Exec (Texman × Store Float)
  start_thumb async e texman s list n fname =
      let s1 =
        write_thumb (record s { names = s.names + 1 }) n
          (some (record (blank fl) { fname = some fname; aspect = narrow (lit 1 1) })) in
      if async
      then (do
        (texman', id) ← resman_add e.res_alloc e.mem texman fname (some n)
        s2 ← end_turn s1 list n
        ok (texman', s2))
      else (do
        (s2, loaded) ← load_now e.image e.texture s1 list n
        if loaded then (do s3 ← end_turn s2 list n; ok (texman, s3)) else ok (texman, s2))

  -- A turn of the loop of `create_thumbs`; a node without memory for its name is given back.
  unfoldable pub read_entry :
      Bool → List ℕ → Option ℕ → Entry → Texman → Store Float → Exec (Texman × Store Float)
  read_entry async dirpath list e texman s = elim e.block [
    | none ↦ ok (texman, s)
    | some n ↦
        if e.name_alloc
        then (do fname ← entry_path dirpath e.d_name; start_thumb async e texman s list n fname)
        else ok (texman, write_thumb s n none)
  ]

  unfoldable pub read_entries :
      Bool → List ℕ → Option ℕ → List Entry → Texman → Store Float → Exec (Texman × Store Float)
  read_entries async dirpath list [] texman s = ok (texman, s)
  read_entries async dirpath list (e ∷ es) texman s = do
    (texman', s') ← read_entry async dirpath list e texman s
    read_entries async dirpath list es texman' s'

  -- What `calloc` makes of the block for the head of the list.
  abbrev pub new_head : Store Float → Option ℕ → Store Float
  new_head s none = s
  new_head s (some h) = write_thumb s h (some (blank fl))

  -- `create_thumbs`, with `texman` set up. `head` is the block for the head of the list, `dir` what
  -- the directory holds, or `none` if it cannot be opened.
  unfoldable pub create_thumbs :
      Bool
      → Option ℕ
      → Option (List Entry)
      → List ℕ
      → Texman
      → Store Float
      → Exec (Texman × Store Float × Option ℕ)
  create_thumbs async head none dirpath texman s = ok (texman, new_head s head, none)
  create_thumbs async head (some es) dirpath texman s = do
    (texman', s') ← read_entries async dirpath head es texman (new_head s head)
    ok (texman', s', head)
