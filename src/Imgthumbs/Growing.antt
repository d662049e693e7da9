-- ===== src/Imgthumbs/Growing.antt =====
-- What else changes the thumbnails of examples/imgthumbs and the resources that hold them: new ones in
-- `create_thumbs`, a reload, and drawing.
use libresman.Base.{
  ℕ, ◌+◌, ◌*◌, ◌^◌, ◌<◌, ◌≡◌, ◌≢◌, refl, sym, ap, ◌∙◌, subst, true, false, Option, none, some, List,
  [], ◌∷◌, ◌++◌, ok, get_elem?, set, arith, inl, inr,
}
use libresman.Base.Outcome.{◌>>=◌, ok_of_chain, ok-injective}
use libresman.Dynarr.Stack.{Holds}
use libresman.Resman.{Resource, resman_add, resman_reload}
use libresman.Resman.Grows.{resman_add-Grows}
use libresman.Resman.Kept.{resman_add-destroy_func, resman_reload-destroy_func}
use libresman.Resman.Moves.{resman_reload-Becomes}
use libresman.Imgthumbs.{Floats, Thumbnail, Store, write_thumb}
use libresman.Imgthumbs.Thumbs.{Texman, blank}
use libresman.Imgthumbs.Create.{Entry, start_thumb, end_turn}
use libresman.Imgthumbs.Chain.{
  Cells, Chain-Agree, Agree-frame, IsList, update_self, update_other, ne_sym,
}
use libresman.Imgthumbs.Found.{unplaced}
use libresman.Imgthumbs.Held.{Slots, Held}
use libresman.Imgthumbs.Turned.{Held-set, others-write}
use libresman.Imgthumbs.Loading.{IsValid}
use libresman.Imgthumbs.Fresh.{Chain-apart, Held-snoc, Held-fresh}

-- Two stores that differ in where the thumbnails are drawn.
module _ (fl : Floats) where
  unplaced-some :
      (o : Option (Thumbnail fl.Float)) (t : Thumbnail fl.Float)
      → unplaced fl o ≡ unplaced fl (some t)
      → (u : Thumbnail fl.Float) × (o ≡ some u)
        × (u.list ≡ t.list)
        × (u.img ≡ t.img)
        × (u.prev ≡ t.prev)
        × (u.next ≡ t.next)
  unplaced-some none t e = absurd (cc e)
  unplaced-some (some u) t e =
      (u, refl, ground (arith, e), ground (arith, e), ground (arith, e), ground (arith, e))

  pub Held-unplaced :
      (cell cell' : Cells fl.Float) (h : ℕ) (ns : List ℕ) (xs : Slots)
      → ((k : ℕ) → unplaced fl (cell' k) ≡ unplaced fl (cell k))
      → Held cell h ns xs
      → Held cell' h ns xs
  Held-unplaced cell cell' h ns xs same held = record {
    owns = λ i r e.
        let (n, t, at, o) = held.owns i r e in
        let (u, at', list, img, prev, next) =
          unplaced-some (cell' n) t (same n ∙ ap (unplaced fl) at) in
        (
          n,
          u,
          at',
          record {
            points = o.points;
            of_list = list ∙ o.of_list;
            alone = λ z. let (away, a, b) = o.alone z in (away, prev ∙ a, next ∙ b);
            shown = o.shown;
            ready = λ z. elim (o.ready z) [
              | inl failed ↦ inl failed
              | inr (i', is) ↦ inr (i', img ∙ is)
            ];
          },
        );
    differ = held.differ;
  }

module _ (fl : Floats) (h : ℕ) (texman : Texman) (s : Store fl.Float) (xs : Slots) (ns : List ℕ)
    (v : IsValid fl h texman s xs ns) where
  -- A reload of a resource in the table.
  pub resman_reload-IsValid :
      (texman' : Texman) (i : ℕ) (r : Resource (Option ℕ))
      → get_elem? xs i ≡ some (some r)
      → resman_reload texman i ≡ ok texman'
      → (xs' : Slots) × IsValid fl h texman' s xs' ns
  resman_reload-IsValid texman' i r at e =
      let (n, t, at_n, o) = v.held.owns i r at in
      let r' = record r { pending = true } in
      (
        set xs i (some r'),
        record {
          holds = (resman_reload-Becomes texman texman' xs i r v.holds at e).0;
          destroys = resman_reload-destroy_func texman texman' i e ∙ v.destroys;
          list = v.list;
          held =
              Held-set s.cell s.cell h ns ns xs i r n v.held at o.points
                (others-write s.cell s.cell h ns n (λ k ne. refl)) r' refl
                (
                  n,
                  t,
                  at_n,
                  record {
                    points = o.points;
                    of_list = o.of_list;
                    alone = o.alone;
                    shown = o.shown;
                    ready = o.ready;
                  },
                );
        },
      )

  -- The table of resources in a turn of `create_thumbs` for a block that held nothing.
  added-IsValid :
      (texman' : Texman) (s' : Store fl.Float) (t : Thumbnail fl.Float) (n : ℕ)
      (r : Resource (Option ℕ))
      → s.cell n ≡ none
      → s'.cell n ≡ some t
      → ((k : ℕ) → k ≢ n → s'.cell k ≡ s.cell k)
      → t.list ≡ some h
      → t.prev ≡ none
      → t.next ≡ none
      → r.data' ≡ some n
      → r.num_loads ≡ 0
      → r.done_pending ≡ false
      → Holds texman'.res (xs ++ some r ∷ [])
      → texman'.destroy_func ≡ true
      → IsList s'.cell (some h) (h ∷ ns)
      → IsValid fl h texman' s' (xs ++ some r ∷ []) ns
  added-IsValid texman' s' t n r fresh at frame list first last points never undone holds told
        linked =
      record {
        holds = holds;
        destroys = told;
        list = linked;
        held =
            Held-snoc s.cell s'.cell h ns xs r n fresh frame points
              (
                n,
                t,
                at,
                record {
                  points = points;
                  of_list = list;
                  alone = λ z. (
                    Chain-apart s.cell none (some h) (h ∷ ns) n v.list.linked fresh,
                    first,
                    last,
                  );
                  shown = λ z. absurd (z never);
                  ready = λ z. absurd (cc (undone, z));
                },
              )
              v.held;
      }

  -- A turn of `create_thumbs` that loads in the background, for a block that held nothing: the new
  -- thumbnail waits outside the list.
  pub start_thumb-IsValid :
      (e : Entry) (n : ℕ) (fname : List ℕ) (texman' : Texman) (s' : Store fl.Float)
      → s.cell n ≡ none
      → texman.res.szelem * (2 * texman.res.max_elem + 1) < 2 ^ 31
      → start_thumb fl true e texman s (some h) n fname ≡ ok (texman', s')
      → (xs' : Slots) × IsValid fl h texman' s' xs' ns
  unfolding start_thumb
  start_thumb-IsValid e n fname texman' s' fresh small eq =
      let new = record (blank fl) { fname = some fname; aspect = fl.narrow (fl.lit 1 1) } in
      let s1 = write_thumb (record s { names = s.names + 1 }) n (some new) in
      let new' = record new { list = some h; load_count = 0 } in
      let s2 = write_thumb s1 n (some new') in
      let ((texman1, id), added, e1) =
        ok_of_chain (resman_add e.res_alloc e.mem texman fname (some n)) _ eq in
      let ended : end_turn fl s1 (some h) n ≡ ok s2 = rw (update_self s.cell n (some new)) refl in
      let same : ◌≡◌ {A = Texman × Store fl.Float} (texman1, s2) (texman', s') =
        ok-injective (sym (ap (λ m. m >>= λ u. ok (texman1, u)) ended) ∙ e1) in
      let frame : (k : ℕ) → k ≢ n → s2.cell k ≡ s.cell k = λ k ne.
        update_other s1.cell n (some new') k (ne_sym ne)
        ∙ update_other s.cell n (some new) k (ne_sym ne) in
      let away = Chain-apart s.cell none (some h) (h ∷ ns) n v.list.linked fresh in
      let list : IsList s2.cell (some h) (h ∷ ns) = record {
        linked =
            Chain-Agree s.cell s2.cell none (some h) (h ∷ ns)
              (Agree-frame s.cell s2.cell (n ∷ []) (h ∷ ns) (away, tt) (λ k apart. frame k apart.0))
              v.list.linked;
        distinct = v.list.distinct;
      } in
      let told =
        resman_add-destroy_func e.res_alloc e.mem texman texman1 fname (some n) id added
        ∙ v.destroys in
      let valid : (xs' : Slots) × IsValid fl h texman1 s2 xs' ns =
        elim (resman_add-Grows e.res_alloc e.mem texman texman1 xs fname (some n) id v.holds small
          added) [
            | inl kept ↦ (
              xs,
              record {
                holds = subst (λ (q : Texman). Holds q.res xs) kept v.holds;
                destroys = told;
                list = list;
                held = Held-fresh s.cell s2.cell h ns xs n fresh frame v.held;
              },
            )
            | inr (r, _, undone, points, never, b) ↦ (
              xs ++ some r ∷ [],
              added-IsValid texman1 s2 new' n r fresh (update_self s1.cell n (some new')) frame refl
                  refl refl points never undone b.0 told list,
            )
          ] in
      subst (λ (q : Texman × Store fl.Float). (xs' : Slots) × IsValid fl h q.0 q.1 xs' ns) same
        valid
