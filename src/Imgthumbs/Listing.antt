-- ===== src/Imgthumbs/Listing.antt =====
-- `create_thumbs` of examples/imgthumbs/src/thumbs.c where it loads at once, without the resource
-- manager.
use mathlib.Core.List.{get_last?}
use libresman.Base.{
  ℕ, ◌+◌, ◌-◌, ◌≡◌, refl, ap, ◌∙◌, subst, Bool, true, false, Option, none, some, List, [], ◌∷◌,
  ◌++◌, Exec, ok, if◌then◌else◌, ◌==◌, arith,
}
use libresman.Paths.{slash}
use libresman.Imgthumbs.{Floats, Image, Thumbnail, Store, write_thumb, update}
use libresman.Imgthumbs.Thumbs.{Texman, blank, aspect_of}
use libresman.Imgthumbs.Create.{
  Entry, entry_path, load_now, start_thumb, read_entry, read_entries, new_head, create_thumbs,
}
use libresman.Imgthumbs.Chain.{Apart, Chain-Agree, Agree-update, IsList, update_self}
use libresman.Imgthumbs.Link.{link_after-IsList}
use libresman.Imgthumbs.Held.{IsList-write}

-- The nodes of the list behind one more entry: a new one stands first, if there was memory and its
-- image could be read.
abbrev pub shown_by : Entry → List ℕ → List ℕ
shown_by e ns = elim e.block [
  | none ↦ ns
  | some n ↦ if e.name_alloc then (elim e.image [ none ↦ ns | some img ↦ n ∷ ns ]) else ns
]

abbrev pub listing : List Entry → List ℕ → List ℕ
listing [] ns = ns
listing (e ∷ es) ns = listing es (shown_by e ns)

-- Each block that `malloc` gives for a node is none of those in use at that time: not the head `h`, nor
-- a node of the list. It may be one that was given back, such as that of a file that is no image.
abbrev pub Unused : ℕ → List Entry → List ℕ → Type 0
Unused h [] ns = Unit {0}
Unused h (e ∷ es) ns = ((n : ℕ) → e.block ≡ some n → Apart n (h ∷ ns)) × Unused h es (shown_by e ns)

-- The nodes behind the head after a turn whose node has the block `block`.
abbrev turn_nodes : Option ℕ → Bool → Option Image → List ℕ → List ℕ
turn_nodes none granted image ns = ns
turn_nodes (some n) false image ns = ns
turn_nodes (some n) true image ns = elim image [ none ↦ ns | some img ↦ n ∷ ns ]

shown_nodes : (e : Entry) (ns : List ℕ) → turn_nodes e.block e.name_alloc e.image ns ≡ shown_by e ns
shown_nodes e ns = ground arith

module _ (fl : Floats) (texman : Texman) (h : ℕ) where
  -- A turn that returns, with the list `ns'` behind the head.
  abbrev Lists : Exec (Texman × Store fl.Float) → List ℕ → Type 0
  Lists m ns' = (s' : Store fl.Float) × (m ≡ ok (texman, s')) × IsList s'.cell (some h) (h ∷ ns')

  module _ (s : Store fl.Float) (ns : List ℕ) (v : IsList s.cell (some h) (h ∷ ns)) where
    -- A write to a block outside the list.
    outside :
        (n : ℕ) (t : Option (Thumbnail fl.Float))
        → Apart n (h ∷ ns)
        → IsList (update s.cell n t) (some h) (h ∷ ns)
    outside n t away = record {
      linked =
          Chain-Agree s.cell (update s.cell n t) none (some h) (h ∷ ns)
            (Agree-update s.cell n t (h ∷ ns) away) v.linked;
      distinct = v.distinct;
    }

  load_now-Lists :
      (s : Store fl.Float) (ns : List ℕ) (n : ℕ) (t : Thumbnail fl.Float) (img : Image)
      (texture : ℕ)
      → IsList s.cell (some h) (h ∷ ns)
      → Apart n (h ∷ ns)
      → s.cell n ≡ some t
      → (s' : Store fl.Float) × (load_now fl (some img) texture s (some h) n ≡ ok (s', true))
        × IsList s'.cell (some h) (h ∷ n ∷ ns)
        × ((u : Thumbnail fl.Float) × (s'.cell n ≡ some u))
  unfolding load_now
  load_now-Lists s ns n t img texture v away at =
      let t1 = record t { aspect = aspect_of fl img; tex = texture } in
      let s1 = write_thumb s n (some t1) in
      let v1 : IsList s1.cell (some h) (h ∷ ns) = outside s ns v n (some t1) away in
      let (s2, linked, list, _, _, _) =
        link_after-IsList fl s1 h n t1 ns v1 away (update_self s.cell n (some t1)) in
      let (_, (_, _, _, (_, (u, at_u, _, _)))) = list.linked in
      (s2, rw (at, linked) refl, list, (u, at_u))

  -- A turn that loads the image `image` into the new node `n`.
  start_thumb-Lists :
      (e : Entry) (s : Store fl.Float) (ns : List ℕ) (n : ℕ) (fname : List ℕ) (image : Option Image)
      → e.image ≡ image
      → IsList s.cell (some h) (h ∷ ns)
      → Apart n (h ∷ ns)
      → Lists
          (start_thumb fl false e texman s (some h) n fname)
          (elim image [ none ↦ ns | some img ↦ n ∷ ns ])
  unfolding start_thumb load_now
  start_thumb-Lists e s ns n fname none is v away =
      let new = record (blank fl) { fname = some fname; aspect = fl.narrow (fl.lit 1 1) } in
      let s1 = write_thumb (record s { names = s.names + 1 }) n (some new) in
      let v1 : IsList s1.cell (some h) (h ∷ ns) = outside s ns v n (some new) away in
      (
        record (write_thumb s1 n none) { names = s1.names - 1 },
        ground (arith, is),
        outside s1 ns v1 n none away,
      )
  start_thumb-Lists e s ns n fname (some img) is v away =
      let new = record (blank fl) { fname = some fname; aspect = fl.narrow (fl.lit 1 1) } in
      let s1 = write_thumb (record s { names = s.names + 1 }) n (some new) in
      let v1 : IsList s1.cell (some h) (h ∷ ns) = outside s ns v n (some new) away in
      let (s2, e2, v2, (u, at_u)) =
        load_now-Lists s1 ns n new img e.texture v1 away (update_self s.cell n (some new)) in
      let u' = record u { list = some h; load_count = 0 } in
      let loaded : load_now fl e.image e.texture s1 (some h) n ≡ ok (s2, true) =
        ap (λ o. load_now fl o e.texture s1 (some h) n) is ∙ e2 in
      (
        write_thumb s2 n (some u'),
        rw (loaded, at_u) refl,
        IsList-write s2.cell n u u' (some h) (h ∷ n ∷ ns) at_u refl refl v2,
      )

  module _ (dirpath : List ℕ) (c : ℕ) (ends : get_last? dirpath ≡ some c) where
    path_here : (d_name : List ℕ) → (fname : List ℕ) × (entry_path dirpath d_name ≡ ok fname)
    unfolding entry_path
    path_here d_name = (
      if c == slash then dirpath ++ d_name else dirpath ++ slash ∷ d_name,
      rw (ends, entry_path) refl,
    )

    read_entry-Lists :
        (e : Entry) (s : Store fl.Float) (ns : List ℕ) (block : Option ℕ) (granted : Bool)
        → e.block ≡ block
        → e.name_alloc ≡ granted
        → IsList s.cell (some h) (h ∷ ns)
        → ((n : ℕ) → block ≡ some n → Apart n (h ∷ ns))
        → Lists
            (read_entry fl false dirpath (some h) e texman s)
            (turn_nodes block granted e.image ns)
    unfolding read_entry
    read_entry-Lists e s ns none granted is given v away = (s, rw is refl, v)
    read_entry-Lists e s ns (some n) false is given v away =
        (write_thumb s n none, rw (is, given) refl, outside s ns v n none (away n refl))
    read_entry-Lists e s ns (some n) true is given v away =
        let (fname, path) = path_here e.d_name in
        let (s', e', v') = start_thumb-Lists e s ns n fname e.image refl v (away n refl) in
        (s', ground (arith, is, given, path, e'), v')

    read_entries-Lists :
        (es : List Entry) (s : Store fl.Float) (ns : List ℕ)
        → IsList s.cell (some h) (h ∷ ns)
        → Unused h es ns
        → Lists (read_entries fl false dirpath (some h) es texman s) (listing es ns)
    unfolding read_entries
    read_entries-Lists [] s ns v free = (s, refl, v)
    read_entries-Lists (e ∷ es) s ns v (away, free) =
        let (s1, e1, v1) = read_entry-Lists e s ns e.block e.name_alloc refl refl v away in
        let (s', e', v') =
          read_entries-Lists es s1 (shown_by e ns)
            (subst (λ ms. IsList s1.cell (some h) (h ∷ ms)) (shown_nodes e ns) v1) free in
        (s', rw e1 e', v')

    -- On a directory with a name, with a block for the head and, for each node, a block that is not in
    -- use at that time (though it may have been given back before), `create_thumbs` that loads at once returns and leaves the resource manager alone; the list
    -- behind the head is that of the entries, the last first, for which there was memory and whose
    -- image could be read, and no others.
    pub create_thumbs-IsList :
        (es : List Entry) (s : Store fl.Float)
        → Unused h es []
        → (s' : Store fl.Float) × (create_thumbs fl false (some h) (some es) dirpath texman s
            ≡ ok (texman, s', some h))
          × IsList s'.cell (some h) (h ∷ listing es [])
    unfolding create_thumbs
    create_thumbs-IsList es s d =
        let s1 = new_head fl s (some h) in
        let v1 : IsList s1.cell (some h) (h ∷ []) = record {
          linked = (refl, (blank fl, update_self s.cell h (some (blank fl)), refl, refl));
          distinct = (tt, tt);
        } in
        let (s', e, v) = read_entries-Lists es s1 [] v1 d in (s', rw e refl, v)
