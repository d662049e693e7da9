-- ===== src/Imgthumbs/Loading.antt =====
-- A worker's load of a thumbnail: `work_func` of src/resman.c with `load_res_texture` of
-- examples/imgthumbs/src/thumbs.c.
use libresman.Base.{
  ℕ, zero, suc, ◌+◌, ◌≡◌, ◌≢◌, refl, sym, ap, ◌∙◌, subst, Bool, true, false, Option, none, some,
  List, [], ◌∷◌, Exec, ok, ltb, get_elem?, get_elem?-set_self, set, arith, ◌⊎◌, inl, inr,
}
use libresman.Base.Int.{pos}
use libresman.Dynarr.{dynarr_size}
use libresman.Dynarr.Stack.{Holds}
use libresman.Resman.{Resource}
use libresman.Resman.Access.{resman_get_res_data, resman_set_res_data}
use libresman.Resman.Owed.{lt-of-get_elem?, set-set_slot, rewrite_slot}
use libresman.Resman.Watch.{no_watch}
use libresman.Resman.Work.{minus_one, work_func}
use libresman.Imgthumbs.{Floats, Image, Thumbnail, Store, write_thumb}
use libresman.Imgthumbs.Thumbs.{
  Texman, thumb_of, read_image, load_into, load_res_texture, aspect_of,
}
use libresman.Imgthumbs.Chain.{IsList, update_self, update_other, ne_sym}
use libresman.Imgthumbs.Callbacks.{field_or-Holds, run_load}
use libresman.Imgthumbs.Held.{Slots, IsList-write, Owned, Held}
use libresman.Imgthumbs.Turned.{Held-set, others-write}

pub set_same {ℓ} :
    {A : Type ℓ} (xs : List A) (i : ℕ) (x : A) → get_elem? xs i ≡ some x → set xs i x ≡ xs
set_same [] i x e = refl
set_same (y ∷ xs) zero x e = ap (λ z. z ∷ xs) (cc e)
set_same (y ∷ xs) (suc i) x e = ap (λ zs. y ∷ zs) (set_same xs i x e)

pub thumb_of-Holds :
    (texman : Texman) (xs : Slots) (i : ℕ) (r : Resource (Option ℕ))
    → Holds texman.res xs
    → get_elem? xs i ≡ some (some r)
    → thumb_of texman i ≡ ok r.data'
unfolding thumb_of resman_get_res_data
thumb_of-Holds texman xs i r h at =
    rw (field_or-Holds none (λ (q : Resource (Option ℕ)). some q.data') texman xs i r h at) refl

set_res_data-Holds :
    (texman : Texman) (xs : Slots) (i : ℕ) (r : Resource (Option ℕ)) (d : Option ℕ)
    → Holds texman.res xs
    → get_elem? xs i ≡ some (some r)
    → (texman' : Texman) × (resman_set_res_data texman (pos i) d ≡ ok texman')
      × Holds texman'.res (set xs i (some (record r { data' = d })))
      × (texman'.destroy_func ≡ texman.destroy_func)
unfolding resman_set_res_data dynarr_size
set_res_data-Holds texman xs i r d h at =
    let (da, here, w, held) = rewrite_slot texman.res xs i r (some (record r { data' = d })) h at in
    let lt = lt-of-get_elem? xs i (some r) at in
    let inside : ltb i texman.res.nelem ≡ true = ground (arith, lt, h.counted) in
    (record texman { res = da }, rw (inside, here, w) refl, held, refl)

work_func-done :
    (result : ℕ) (texman : Texman) (xs : Slots) (i : ℕ) (r : Resource (Option ℕ))
    → Holds texman.res xs
    → get_elem? xs i ≡ some (some r)
    → (texman' : Texman) × (work_func no_watch true result texman tt i ≡ ok (texman', tt))
      × Holds texman'.res
          (set xs i (some (record r { result = result; pending = false; done_pending = true })))
      × (texman'.destroy_func ≡ texman.destroy_func)
unfolding work_func
work_func-done result texman xs i r h at =
    let r' = record r { result = result; pending = false; done_pending = true } in
    let (da, here, w, held) = rewrite_slot texman.res xs i r (some r') h at in
    (record texman { res = da; tasks = texman.tasks + 1 }, rw (here, w) refl, held, refl)

module _ (fl : Floats) where
  open fl use {Float}

  -- What is between two callbacks: the table `xs` of resources, the list of thumbnails behind the head
  -- `h`, and which resource holds which.
  pub record IsValid (h : ℕ) (texman : Texman) (s : Store Float) (xs : Slots) (ns : List ℕ)
      : Type 0 where
    pub holds : Holds texman.res xs
    pub destroys : texman.destroy_func ≡ true
    pub list : IsList s.cell (some h) (h ∷ ns)
    pub held : Held s.cell h ns xs

  -- What `load_res_texture` comes to for the resource `r` with the thumbnail `t`.
  record Loaded (h : ℕ) (texman : Texman) (s : Store Float) (xs : Slots) (ns : List ℕ) (i : ℕ)
      (r : Resource (Option ℕ)) (n : ℕ) (t : Thumbnail Float)
      (outcome : Exec (Texman × Store Float × ℕ)) : Type 0 where
    texman' : Texman
    s' : Store Float
    result : ℕ
    r' : Resource (Option ℕ)
    t' : Thumbnail Float
    returned : outcome ≡ ok (texman', s', result)
    holds : Holds texman'.res (set xs i (some r'))
    destroys : texman'.destroy_func ≡ texman.destroy_func
    points : r'.data' ≡ some n
    loads : r'.num_loads ≡ r.num_loads
    at : s'.cell n ≡ some t'
    prev : t'.prev ≡ t.prev
    next : t'.next ≡ t.next
    list : t'.list ≡ t.list
    frame : (k : ℕ) → k ≢ n → s'.cell k ≡ s.cell k
    linked : IsList s'.cell (some h) (h ∷ ns)
    ready : (result ≡ minus_one) ⊎ ((img : Image) × (t'.img ≡ some img))

  module _ (h : ℕ) (texman : Texman) (s : Store Float) (xs : Slots) (ns : List ℕ) (i : ℕ)
      (r : Resource (Option ℕ)) (n : ℕ) (t : Thumbnail Float) (v : IsValid h texman s xs ns)
      (at : get_elem? xs i ≡ some (some r)) (points : r.data' ≡ some n)
      (at_n : s.cell n ≡ some t) where
    unread : Holds texman.res (set xs i (some r))
    unread = subst (Holds texman.res) (sym (set_same xs i (some r) at)) v.holds

    read_image-Loaded :
        (image : Option Image)
        → Loaded h texman s xs ns i r n t (read_image fl image texman s i n t)
    unfolding read_image
    read_image-Loaded none =
        let t' = record t { img = none } in
        record {
          texman' = texman;
          s' = write_thumb s n (some t');
          result = minus_one;
          r' = r;
          t' = t';
          returned = refl;
          holds = unread;
          destroys = refl;
          points = points;
          loads = refl;
          at = update_self s.cell n (some t');
          prev = refl;
          next = refl;
          list = refl;
          frame = λ k ne. update_other s.cell n (some t') k (ne_sym ne);
          linked = IsList-write s.cell n t t' (some h) (h ∷ ns) at_n refl refl v.list;
          ready = inl refl;
        }
    read_image-Loaded (some img) =
        let t' = record t { img = some img; aspect = aspect_of fl img } in
        let (texman', e, held, told) = set_res_data-Holds texman xs i r (some n) v.holds at in
        record {
          texman' = texman';
          s' = write_thumb s n (some t');
          result = 0;
          r' = record r { data' = some n };
          t' = t';
          returned = rw e refl;
          holds = held;
          destroys = told;
          points = refl;
          loads = refl;
          at = update_self s.cell n (some t');
          prev = refl;
          next = refl;
          list = refl;
          frame = λ k ne. update_other s.cell n (some t') k (ne_sym ne);
          linked = IsList-write s.cell n t t' (some h) (h ∷ ns) at_n refl refl v.list;
          ready = inr (img, refl);
        }

    unloaded : Loaded h texman s xs ns i r n t (ok (texman, s, minus_one))
    unloaded = record {
      texman' = texman;
      s' = s;
      result = minus_one;
      r' = r;
      t' = t;
      returned = refl;
      holds = unread;
      destroys = refl;
      points = points;
      loads = refl;
      at = at_n;
      prev = refl;
      next = refl;
      list = refl;
      frame = λ k ne. refl;
      linked = v.list;
      ready = inl refl;
    }

    thumb_here : thumb_of texman i ≡ ok (some n)
    thumb_here = thumb_of-Holds texman xs i r v.holds at ∙ ap ok points

    load_into-Loaded :
        (old : Option Image) (created : Bool) (image : Option Image)
        → Loaded h texman s xs ns i r n t (load_into fl old created image texman s i n t)
    unfolding load_into
    load_into-Loaded none true image = read_image-Loaded image
    load_into-Loaded none false image = unloaded
    load_into-Loaded (some old) created image = read_image-Loaded image

    load_res_texture-Loaded :
        (created : Bool) (image : Option Image)
        → Loaded h texman s xs ns i r n t (load_res_texture fl created image texman s i)
    unfolding load_res_texture
    load_res_texture-Loaded created image =
        let e : load_res_texture fl created image texman s i
            ≡ load_into fl t.img created image texman s i n t =
          rw (thumb_here, at_n) refl in
        subst (Loaded h texman s xs ns i r n t) (sym e) (load_into-Loaded t.img created image)

    -- A load returns, whether the image can be read or not, and what is kept between the callbacks
    -- is kept.
    pub run_load-IsValid :
        (created : Bool) (image : Option Image)
        → Owned h ns r n t
        → (texman' : Texman) × (s' : Store Float) × (xs' : Slots) × (run_load fl created image
              texman s i
            ≡ ok (texman', s'))
          × IsValid h texman' s' xs' ns
    unfolding run_load
    run_load-IsValid created image o =
        let l = load_res_texture-Loaded created image in
        let r1 = l.r' in
        let there = get_elem?-set_self xs i (some r1) (lt-of-get_elem? xs i (some r) at) in
        let r2 = record r1 { result = l.result; pending = false; done_pending = true } in
        let (texman2, e, held, told) =
          work_func-done l.result l.texman' (set xs i (some r1)) i r1 l.holds there in
        (
          texman2,
          l.s',
          set xs i (some r2),
          rw (l.returned, e) refl,
          record {
            holds = subst (Holds texman2.res) (set-set_slot xs i (some r1) (some r2)) held;
            destroys = told ∙ l.destroys ∙ v.destroys;
            list = l.linked;
            held =
                Held-set s.cell l.s'.cell h ns ns xs i r n v.held at points
                  (others-write s.cell l.s'.cell h ns n l.frame) r2 (l.points ∙ sym points)
                  (
                    n,
                    l.t',
                    l.at,
                    record {
                      points = l.points;
                      of_list = l.list ∙ o.of_list;
                      alone = λ z.
                          let (away, first, last) = o.alone (sym l.loads ∙ z) in
                          (away, l.prev ∙ first, l.next ∙ last);
                      shown = λ z. o.shown (λ e. z (l.loads ∙ e));
                      ready = λ z. l.ready;
                    },
                  );
          },
        )
