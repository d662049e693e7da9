-- ===== src/Imgthumbs/Safe.antt =====
-- What holds in every run of the example program (see Imgthumbs/Life).
use libresman.Base.{
  ◌++◌, ℕ, ◌+◌, ◌*◌, ◌^◌, ◌<◌, ◌≡◌, ◌≢◌, refl, ap, ◌∙◌, Bool, true, Option, some, List, [], ◌∷◌, ok,
  length, arith,
}
use libresman.Resman.{Resource}
use libresman.Base.Outcome.{◌>>=◌}
use libresman.Resman.{resman_add, resman_reload, alloc_task}
use libresman.Resman.Owed.{rewrite_slot}
use libresman.Resman.Table.{Table}
use libresman.Resman.Add.{resman_add-find_resource}
use libresman.Imgthumbs.Create.{Entry, start_thumb, end_turn}
use libresman.Imgthumbs.Thumbs.{blank}
use libresman.Imgthumbs.Chain.{update_self}
use libresman.Imgthumbs.{Floats, Image, Store, write_thumb}
use libresman.Imgthumbs.Thumbs.{Texman}
use libresman.Imgthumbs.Chain.{Apart, IsList}
use libresman.Imgthumbs.Callbacks.{run_load, run_done}
use libresman.Imgthumbs.Held.{In}
use libresman.Imgthumbs.Loading.{run_load-IsValid}
use libresman.Imgthumbs.Finishing.{run_done-IsValid}
use libresman.Imgthumbs.Viewer.{Viewer, display}
use libresman.Imgthumbs.Steady.{WindowEvent, InRange, dispatch, Starts}
use libresman.Imgthumbs.Handlers.{dispatch-IsSteady}
use libresman.Imgthumbs.Lives.{Lives, slot, display-IsValid, Run-Lives}
use libresman.Imgthumbs.Life.{App, InTable, Run, Opened}

module _ (fl : Floats) (h : ℕ) where
  module _ (numbers : Starts fl) where
    -- A turn of `create_thumbs` on a table without erased slots and with memory.
    start_thumb-returns :
        (b : App fl h) (rs : List (Resource (Option ℕ))) (e : Entry) (n : ℕ) (fname : List ℕ)
        → Table b.texman rs
        → e.res_alloc ≡ true
        → ((size : ℕ) → e.mem size ≡ true)
        → b.texman.res.szelem * (2 * b.texman.res.max_elem + 1) < 2 ^ 31
        → (p : Texman × Store fl.Float) × (start_thumb fl true e b.texman b.store (some h) n fname
            ≡ ok p)
    unfolding start_thumb
    start_thumb-returns b rs e n fname t given granted small =
        let new = record (blank fl) { fname = some fname; aspect = fl.narrow (fl.lit 1 1) } in
        let s1 = write_thumb (record b.store { names = b.store.names + 1 }) n (some new) in
        let s2 = write_thumb s1 n (some (record new { list = some h; load_count = 0 })) in
        let (texman', id, added, _, _) =
          resman_add-find_resource e.mem b.texman rs fname (some n) granted t small in
        let added' : resman_add e.res_alloc e.mem b.texman fname (some n) ≡ ok (texman', some id) =
          ap (λ a. resman_add a e.mem b.texman fname (some n)) given ∙ added in
        let ended : end_turn fl s1 (some h) n ≡ ok s2 =
          rw (update_self b.store.cell n (some new)) refl in
        ((texman', s2), rw added' (ap (λ m. m >>= λ u. ok (texman', u)) ended))

    resman_reload-returns :
        (b : App fl h) (l : Lives fl h b) (i : ℕ) (r : Resource (Option ℕ))
        → InTable fl h b i r
        → (texman' : Texman) × (resman_reload b.texman i ≡ ok texman')
    unfolding resman_reload
    resman_reload-returns b l i r at =
        let (da, here, w, held) =
          rewrite_slot b.texman.res l.xs i r (some (record r { pending = true })) l.valid.holds
            (slot fl h b i r l at) in
        (
          record b.texman {
            res = da;
            tasks = alloc_task b.texman.tasks;
            jobs = b.texman.jobs ++ i ∷ [];
          },
          rw (here, w) refl,
        )

    -- The callbacks for the resource `r` return, and its thumbnail is behind the head in the list,
    -- with the nodes `ns`, exactly when it was loaded.
    pub record Serves (b : App fl h) (ns : List ℕ) (i : ℕ) (r : Resource (Option ℕ)) : Type 0 where
      load_returns :
          (created : Bool) (image : Option Image)
          → (p : Texman × Store fl.Float) × (run_load fl created image b.texman b.store i ≡ ok p)
      done_returns :
          (texture : ℕ)
          → r.done_pending ≡ true
          → r.num_loads + 1 < 2 ^ 32
          → (p : Texman × Store fl.Float) × (run_done fl texture b.texman b.store i r ≡ ok p)
      reload_returns : (texman' : Texman) × (resman_reload b.texman i ≡ ok texman')
      thumb : ℕ
      points : r.data' ≡ some thumb
      listed : r.num_loads ≢ 0 → In thumb ns
      unlisted : r.num_loads ≡ 0 → Apart thumb (h ∷ ns)

    -- Which steps return in the state `b`: of the turns of `create_thumbs` those on a table without erased
    -- slots and with memory.
    pub record IsSafe (b : App fl h) : Type 0 where
      ns : List ℕ
      list : IsList b.store.cell (some h) (h ∷ ns)
      serves : (i : ℕ) (r : Resource (Option ℕ)) → InTable fl h b i r → Serves b ns i r
      starts_return :
          (rs : List (Resource (Option ℕ))) (e : Entry) (n : ℕ) (fname : List ℕ)
          → Table b.texman rs
          → e.res_alloc ≡ true
          → ((size : ℕ) → e.mem size ≡ true)
          → b.texman.res.szelem * (2 * b.texman.res.max_elem + 1) < 2 ^ 31
          → (p : Texman × Store fl.Float) × (start_thumb fl true e b.texman b.store (some h) n fname
              ≡ ok p)
      draws :
          (fuel : ℕ)
          → length ns < fuel
          → (s' : Store fl.Float) × (display fl fuel b.viewer b.store ≡ ok s')
      answers_all :
          (fuel : ℕ) (ev : WindowEvent)
          → length ns < fuel
          → InRange ev
          → (o : Option (Viewer fl)) × (dispatch fl fuel b.viewer b.store ev ≡ ok o)

    Lives-Serves :
        (b : App fl h) (l : Lives fl h b) (i : ℕ) (r : Resource (Option ℕ))
        → InTable fl h b i r
        → Serves b l.ns i r
    Lives-Serves b l i r at =
        let here = slot fl h b i r l at in
        let (n, t, at_n, o) = l.valid.held.owns i r here in
        record {
          load_returns = λ created image.
              let (texman1, s1, xs', e, v) =
                run_load-IsValid fl h b.texman b.store l.xs l.ns i r n t l.valid here o.points at_n
                  created image o in
              ((texman1, s1), e);
          done_returns = λ texture done few.
              let (ns', (texman1, s1, xs', e, v), more) =
                run_done-IsValid fl h b.texman b.store l.xs l.ns i r n t l.valid here at_n o texture
                  few done in
              ((texman1, s1), e);
          reload_returns = resman_reload-returns b l i r at;
          thumb = n;
          points = o.points;
          listed = o.shown;
          unlisted = λ z. (o.alone z).0;
        }

    -- In every run of the example program that loads in the background, in the build without a file watch,
    -- from an empty table and a list with only its head, the list of thumbnails stays valid, and of
    -- what may come next the following returns: a turn of `create_thumbs`, if there is memory, no slot
    -- of the table is erased and the table's size stays within an `int` (else `resman_add` may come to
    -- a fault); for every resource in the table a reload, a load, and once it is done and as long as
    -- its loads do not wrap around, its turn in `resman_poll` with `done_func` and `destroy_func`;
    -- `display` and, for a button in range, the handlers of the window. So none of these steps through
    -- a thumbnail that was freed. The thumbnail of a resource is in the list if it was loaded and else
    -- is not. The run has the steps named here that returned; a load is one step, and no resource is
    -- marked for deletion, as the program never does that.
    pub Run-IsSafe : (a b : App fl h) → Opened fl h a → Run fl h a b → IsSafe b
    Run-IsSafe a b o run =
        let l = Run-Lives fl h numbers a b o run in
        record {
          ns = l.ns;
          list = l.valid.list;
          serves = Lives-Serves b l;
          starts_return = start_thumb-returns b;
          draws = λ fuel enough. let (s', e, _) = display-IsValid fl h b l fuel enough in (s', e);
          answers_all = λ fuel ev enough range.
              let (v', e, _) =
                dispatch-IsSteady fl (some h) (h ∷ l.ns) fuel b.store (omega (arith, enough))
                  l.valid.list numbers b.viewer ev range l.steady in
              (v', e);
        }
