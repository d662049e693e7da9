-- ===== src/Imgthumbs/Finishing.antt =====
-- The turn of `resman_poll` for a thumbnail that was loaded: the second loop of src/resman.c with
-- `done_res_texture` and `free_res_texture` of examples/imgthumbs/src/thumbs.c.
use mathlib.Core.Bool.{false≢true}
use libresman.Base.{
  ℕ, ◌+◌, ◌^◌, ◌<◌, ◌≡◌, ◌≢◌, refl, sym, ap, ◌∙◌, subst, true, false, ◌&&◌, Option, none, some,
  List, [], ◌∷◌, ◌++◌, ok, if◌then◌else◌, ◌==◌, get_elem?, set, arith, inl, inr, Bool-cases,
}
use libresman.Resman.{Resource}
use libresman.Resman.Work.{minus_one}
use libresman.Imgthumbs.{Floats, Image, Thumbnail, Store, write_thumb, update}
use libresman.Imgthumbs.Thumbs.{
  Texman, thumb_of, link_after, upload, done_res_texture, free_res_texture,
}
use libresman.Imgthumbs.Chain.{Agree-update, Chain-Agree, IsList, update_self, update_other, ne_sym}
use libresman.Imgthumbs.Link.{payload, link_after-IsList}
use libresman.Imgthumbs.Unlink.{unlink-alone}
use libresman.Imgthumbs.Callbacks.{new_calls, new_calls-append, new_calls_self, run_done}
use libresman.Imgthumbs.Held.{Slots, In, IsList-write, payload-some, Owned, Holding}
use libresman.Imgthumbs.Turned.{Held-set, Held-erase, others-write, others-link}
use libresman.Imgthumbs.Loading.{thumb_of-Holds, IsValid}
use libresman.Imgthumbs.Taken.{
  taken_up, done_callback-kept, done_callback-dropped, result_here, loads_here,
}

module _ (fl : Floats) (h : ℕ) (texman : Texman) (s : Store fl.Float) (xs : Slots) (ns : List ℕ)
    (i : ℕ) (r : Resource (Option ℕ)) (n : ℕ) (t : Thumbnail fl.Float)
    (v : IsValid fl h texman s xs ns) (at : get_elem? xs i ≡ some (some r))
    (at_n : s.cell n ≡ some t) (o : Owned h ns r n t) (texture : ℕ) where
  thumb_here : thumb_of texman i ≡ ok (some n)
  thumb_here = thumb_of-Holds texman xs i r v.holds at ∙ ap ok o.points

  -- What the turn comes to: with the list `ns'` behind the head.
  abbrev pub Turns : List ℕ → Type 0
  Turns ns' =
      (texman' : Texman) × (s' : Store fl.Float) × (xs' : Slots) × (run_done fl texture texman s i r
        ≡ ok (texman', s'))
      × IsValid fl h texman' s' xs' ns'

  done_res_texture-failed :
      (r.result == minus_one) ≡ true → done_res_texture fl texture texman s i ≡ ok (s, minus_one)
  unfolding done_res_texture
  done_res_texture-failed failed =
      rw (thumb_here, result_here texman xs i r v.holds at, failed) refl

  free_res_texture-alone :
      t.prev ≡ none
      → t.next ≡ none
      → (s' : Store fl.Float) × (free_res_texture fl texman s i ≡ ok s')
        × (s'.cell ≡ update s.cell n none)
  unfolding free_res_texture
  free_res_texture-alone first last = elim (Bool-cases (t.tex == 0)) [
    | inl bare ↦ (
      write_thumb s n none,
      rw (thumb_here, at_n, bare) (unlink-alone fl s n t at_n first last),
      refl,
    )
    | inr textured ↦
        let s1 = record s { deleted = s.deleted ++ t.tex ∷ [] } in
        (
          write_thumb s1 n none,
          rw (thumb_here, at_n, textured) (unlink-alone fl s1 n t at_n first last),
          refl,
        )
  ]

  -- The first load failed: the resource is removed, and its thumbnail freed.
  drop_turn : (r.result == minus_one) ≡ true → r.num_loads ≡ 0 → Turns ns
  unfolding run_done
  drop_turn failed never =
      let (away, first, last) = o.alone never in
      let (texman', e, held, told, calls) =
        done_callback-dropped texman xs i r v.holds at minus_one v.destroys
          (ap (λ m. m == 0) never) in
      let (s', freed, cells) = free_res_texture-alone first last in
      let calls' : new_calls texman.destroyed texman'.destroyed ≡ i ∷ [] =
        ap (new_calls texman.destroyed) calls ∙ new_calls-append texman.destroyed (i ∷ []) in
      let frame : (k : ℕ) → k ≢ n → s'.cell k ≡ s.cell k = λ k ne.
        ap (λ (c : ℕ → Option (Thumbnail fl.Float)). c k) cells
        ∙ update_other s.cell n none k (ne_sym ne) in
      (
        texman',
        s',
        set xs i none,
        rw (done_res_texture-failed failed, e, calls', freed) refl,
        record {
          holds = held;
          destroys = told ∙ v.destroys;
          list =
              subst (λ c. IsList c (some h) (h ∷ ns)) (sym cells)
                (record {
                  linked =
                      Chain-Agree s.cell (update s.cell n none) none (some h) (h ∷ ns)
                        (Agree-update s.cell n none (h ∷ ns) away) v.list.linked;
                  distinct = v.list.distinct;
                });
          held =
              Held-erase s.cell s'.cell h ns ns xs i r n v.held at o.points
                (others-write s.cell s'.cell h ns n frame);
        },
      )

  -- The callback keeps the resource: the table is as `done_callback-kept` leaves it.
  keep_turn :
      (s' : Store fl.Float) (answer : ℕ) (ns' : List ℕ)
      → done_res_texture fl texture texman s i ≡ ok (s', answer)
      → ((answer == minus_one) && (r.num_loads == 0)) ≡ false
      → IsList s'.cell (some h) (h ∷ ns')
      → ((q : Resource (Option ℕ)) (m : ℕ) (u : Thumbnail fl.Float)
          → s.cell m ≡ some u
          → Owned h ns q m u
          → m ≢ n
          → Holding s'.cell h ns' q)
      → Holding s'.cell h ns' (taken_up r)
      → Turns ns'
  unfolding run_done
  keep_turn s' answer ns' returned fine list others holding =
      let (texman', e, held, told, calls) =
        done_callback-kept texman xs i r v.holds at answer fine in
      let calls' : new_calls texman.destroyed texman'.destroyed ≡ [] =
        ap (new_calls texman.destroyed) calls ∙ new_calls_self texman.destroyed in
      (
        texman',
        s',
        set xs i (some (taken_up r)),
        rw (returned, e, calls') refl,
        record {
          holds = held;
          destroys = told ∙ v.destroys;
          list = list;
          held =
              Held-set s.cell s'.cell h ns ns' xs i r n v.held at o.points others (taken_up r) refl
                holding;
        },
      )

  module _ (few : r.num_loads + 1 < 2 ^ 32) where
    counted : (taken_up r).num_loads ≢ 0
    counted = ground (arith, few)

    -- A later load failed: the thumbnail stays as it was.
    stale_turn : (r.result == minus_one) ≡ true → r.num_loads ≢ 0 → Turns ns
    stale_turn failed once =
        keep_turn s minus_one ns (done_res_texture-failed failed) (ground (arith, once)) v.list
          (others-write s.cell s.cell h ns n (λ k ne. refl))
          (
            n,
            t,
            at_n,
            record {
              points = o.points;
              of_list = o.of_list;
              alone = λ z. absurd (counted z);
              shown = λ z. o.shown once;
              ready = λ z. absurd (cc z);
            },
          )

    image_of :
        (r.result == minus_one) ≡ false → r.done_pending ≡ true → (img : Image) × (t.img ≡ some img)
    image_of fine done = elim (o.ready done) [
      | inl failed ↦ absurd (false≢true (sym fine ∙ ap (λ m. m == minus_one) failed))
      | inr here ↦ here
    ]

    module _ (img : Image) (is : t.img ≡ some img) (fine : (r.result == minus_one) ≡ false) where
      -- The thumbnail with its texture.
      abbrev textured : Thumbnail fl.Float
      textured = record t { tex = if t.tex == 0 then texture else t.tex }

      abbrev uploaded : Store fl.Float
      uploaded = write_thumb s n (some textured)

      upload_lem : upload fl texture s (some n) ≡ ok uploaded
      unfolding upload
      upload_lem = ground (arith, at_n, is)

      at_uploaded : uploaded.cell n ≡ some textured
      at_uploaded = update_self s.cell n (some textured)

      frame_uploaded : (k : ℕ) → k ≢ n → uploaded.cell k ≡ s.cell k
      frame_uploaded k ne = update_other s.cell n (some textured) k (ne_sym ne)

      IsList-uploaded : IsList uploaded.cell (some h) (h ∷ ns)
      IsList-uploaded = IsList-write s.cell n t textured (some h) (h ∷ ns) at_n refl refl v.list

      done_res_texture-again :
          r.num_loads ≢ 0 → done_res_texture fl texture texman s i ≡ ok (uploaded, 0)
      unfolding done_res_texture
      done_res_texture-again once =
          let later : (r.num_loads == 0) ≡ false = ground (arith, once) in
          rw
            (
              thumb_here,
              result_here texman xs i r v.holds at,
              fine,
              upload_lem,
              loads_here texman xs i r v.holds at,
              later,
            )
            refl

      done_res_texture-first :
          (s2 : Store fl.Float)
          → link_after fl uploaded (some h) n ≡ ok s2
          → r.num_loads ≡ 0
          → done_res_texture fl texture texman s i ≡ ok (s2, 0)
      unfolding done_res_texture
      done_res_texture-first s2 linked never =
          let first : (r.num_loads == 0) ≡ true = ap (λ m. m == 0) never in
          let here : link_after fl uploaded t.list n ≡ ok s2 =
            ap (λ p. link_after fl uploaded p n) o.of_list ∙ linked in
          rw
            (
              thumb_here,
              result_here texman xs i r v.holds at,
              fine,
              upload_lem,
              loads_here texman xs i r v.holds at,
              first,
              at_uploaded,
              here,
            )
            refl

      -- A later load: the texture gets the new image.
      again_turn : r.num_loads ≢ 0 → Turns ns
      again_turn once =
          keep_turn uploaded 0 ns (done_res_texture-again once) refl IsList-uploaded
            (others-write s.cell uploaded.cell h ns n frame_uploaded)
            (
              n,
              textured,
              at_uploaded,
              record {
                points = o.points;
                of_list = o.of_list;
                alone = λ z. absurd (counted z);
                shown = λ z. o.shown once;
                ready = λ z. absurd (cc z);
              },
            )

      -- The first load: the thumbnail is put into the list.
      first_turn : r.num_loads ≡ 0 → Turns (n ∷ ns)
      first_turn never =
          let (away, first, last) = o.alone never in
          let (s2, linked, list, same, frame, rest) =
            link_after-IsList fl uploaded h n textured ns IsList-uploaded away at_uploaded in
          let (u, at_u, of_list, image) =
            payload-some (s2.cell n) textured (same n ∙ ap payload at_uploaded) in
          keep_turn s2 0 (n ∷ ns) (done_res_texture-first s2 linked never) refl list
            (λ q m w at_m own ne.
              others-link uploaded.cell s2.cell h ns n frame same q m w (frame_uploaded m ne ∙ at_m)
                own ne)
            (
              n,
              u,
              at_u,
              record {
                points = o.points;
                of_list = of_list ∙ o.of_list;
                alone = λ z. absurd (counted z);
                shown = λ z. inl refl;
                ready = λ z. absurd (cc z);
              },
            )

    -- The turn of `resman_poll` for a thumbnail that was loaded returns, on every branch, and what is
    -- kept between the callbacks is kept, the thumbnails of the list among it.
    pub run_done-IsValid :
        r.done_pending ≡ true → (ns' : List ℕ) × Turns ns' × ((k : ℕ) → In k ns → In k ns')
    run_done-IsValid done = elim (Bool-cases (r.num_loads == 0)) [
      | inl first ↦
          let never : r.num_loads ≡ 0 = ground (arith, first) in
          elim (Bool-cases (r.result == minus_one)) [
            | inl failed ↦ (ns, drop_turn failed never, (λ k one. one))
            | inr fine ↦
                let (img, is) = image_of fine done in
                (n ∷ ns, first_turn img is fine never, (λ k one. inr one))
          ]
      | inr later ↦
          let once : r.num_loads ≢ 0 = ground (arith, later) in
          elim (Bool-cases (r.result == minus_one)) [
            | inl failed ↦ (ns, stale_turn failed once, (λ k one. one))
            | inr fine ↦
                let (img, is) = image_of fine done in
                (ns, again_turn img is fine once, (λ k one. one))
          ]
    ]
