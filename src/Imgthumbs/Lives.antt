-- ===== src/Imgthumbs/Lives.antt =====
-- What is kept by every step of the example program (see Imgthumbs/Life).
use libresman.Base.{
  ℕ, ◌<◌, ◌≡◌, refl, sym, ap, ◌∙◌, subst, Option, none, some, List, [], ◌∷◌, Exec, ok, length,
  get_elem?, arith, inl, inr, Option-cases,
}
use libresman.Base.Outcome.{ok-injective}
use libresman.Resman.{Resource}
use libresman.Resman.Moves.{get_elem?-item_at}
use libresman.Imgthumbs.{Floats, Store}
use libresman.Imgthumbs.Thumbs.{Texman}
use libresman.Imgthumbs.Draw.{draw_thumbs}
use libresman.Imgthumbs.Found.{draw_thumbs-IsList}
use libresman.Imgthumbs.Held.{Slots, In}
use libresman.Imgthumbs.Loading.{IsValid, run_load-IsValid}
use libresman.Imgthumbs.Finishing.{run_done-IsValid}
use libresman.Imgthumbs.Growing.{Held-unplaced, resman_reload-IsValid, start_thumb-IsValid}
use libresman.Imgthumbs.Fresh.{Chain-In}
use libresman.Imgthumbs.Viewer.{Viewer, display}
use libresman.Imgthumbs.Steady.{Starts, IsSteady}
use libresman.Imgthumbs.Handlers.{dispatch-IsSteady}
use libresman.Imgthumbs.Life.{
  App, InTable, Step, starts, loads, finishes, reloads, shows, answers, Run, at_rest, one_more,
  Opened,
}

module _ (fl : Floats) (h : ℕ) where
  pub record Lives (a : App fl h) : Type 0 where
    pub xs : Slots
    pub ns : List ℕ
    pub valid : IsValid fl h a.texman a.store xs ns
    pub steady : IsSteady fl (some h) (h ∷ ns) a.viewer

  pub slot :
      (a : App fl h) (i : ℕ) (r : Resource (Option ℕ)) (l : Lives a)
      → InTable fl h a i r
      → get_elem? l.xs i ≡ some (some r)
  slot a i r l (lt, at) = get_elem?-item_at a.texman.res l.xs i (some r) l.valid.holds lt at

  -- More thumbnails in the list leave the window steady.
  wider :
      (ls ls' : List ℕ) (v : Viewer fl)
      → ((k : ℕ) → In k ls → In k ls')
      → IsSteady fl (some h) ls v
      → IsSteady fl (some h) ls' v
  wider ls ls' v more k = record {
    states = k.states;
    xs = k.xs;
    ys = k.ys;
    zoom = k.zoom;
    size = k.size;
    begins = k.begins;
    chosen = λ n e. more n (k.chosen n e);
  }

  -- A call that returns gives what is known of it.
  settle :
      (a : App fl h) (m : Exec (Texman × Store fl.Float)) (texman1 texman' : Texman)
      (s1 s' : Store fl.Float) (xs : Slots) (ns : List ℕ)
      → m ≡ ok (texman1, s1)
      → m ≡ ok (texman', s')
      → IsValid fl h texman1 s1 xs ns
      → IsSteady fl (some h) (h ∷ ns) a.viewer
      → Lives (record a { texman = texman'; store = s' })
  settle a m texman1 texman' s1 s' xs ns e e' v k =
      let same : ◌≡◌ {A = Texman × Store fl.Float} (texman1, s1) (texman', s') =
        ok-injective (sym e ∙ e') in
      record {
        xs = xs;
        ns = ns;
        valid = subst (λ (q : Texman × Store fl.Float). IsValid fl h q.0 q.1 xs ns) same v;
        steady = k;
      }

  -- The drawing returns, and leaves what is kept.
  pub display-IsValid :
      (a : App fl h) (l : Lives a) (fuel : ℕ)
      → length l.ns < fuel
      → (s' : Store fl.Float) × (display fl fuel a.viewer a.store ≡ ok s')
        × IsValid fl h a.texman s' l.xs l.ns
  unfolding display
  display-IsValid a l fuel enough = elim (Option-cases a.viewer.show_thumb) [
    | inr (n, shown) ↦
        let (t, at) =
          Chain-In a.store.cell none (some h) (h ∷ l.ns) n l.valid.list.linked
            (l.steady.chosen n shown) in
        (a.store, ground (arith, shown, at), l.valid)
    | inl hidden ↦
        let (s', e, list, same) =
          draw_thumbs-IsList fl a.viewer.thumbs_size a.viewer.pan_y fuel a.store h l.ns l.valid.list
            (omega (arith, enough)) in
        let drawn : draw_thumbs fl fuel a.store a.viewer.thumbs a.viewer.thumbs_size a.viewer.pan_y
            ≡ ok s' =
          ap (λ q. draw_thumbs fl fuel a.store q a.viewer.thumbs_size a.viewer.pan_y)
            l.steady.begins
          ∙ e in
        (
          s',
          ground (arith, hidden, drawn),
          record {
            holds = l.valid.holds;
            destroys = l.valid.destroys;
            list = list;
            held = Held-unplaced fl a.store.cell s'.cell h l.ns l.xs same l.valid.held;
          },
        )
  ]

  module _ (numbers : Starts fl) where
    Step-Lives : (a b : App fl h) → Step fl h a b → Lives a → Lives b
    Step-Lives a _ (starts e n fname texman' s' fresh small eq) l =
        let (xs', v) =
          start_thumb-IsValid fl h a.texman a.store l.xs l.ns l.valid e n fname texman' s' fresh
            small eq in
        record { xs = xs'; ns = l.ns; valid = v; steady = l.steady }
    Step-Lives a _ (loads created image i r texman' s' at eq) l =
        let here = slot a i r l at in
        let (n, t, at_n, o) = l.valid.held.owns i r here in
        let (texman1, s1, xs', e, v) =
          run_load-IsValid fl h a.texman a.store l.xs l.ns i r n t l.valid here o.points at_n
            created image o in
        settle a _ texman1 texman' s1 s' xs' l.ns e eq v l.steady
    Step-Lives a _ (finishes texture i r texman' s' at done few eq) l =
        let here = slot a i r l at in
        let (n, t, at_n, o) = l.valid.held.owns i r here in
        let (ns', (texman1, s1, xs', e, v), more) =
          run_done-IsValid fl h a.texman a.store l.xs l.ns i r n t l.valid here at_n o texture few
            done in
        settle a _ texman1 texman' s1 s' xs' ns' e eq v (
          wider (h ∷ l.ns) (h ∷ ns') a.viewer
            (λ k one. elim one [ inl head ↦ inl head | inr behind ↦ inr (more k behind) ]) l.steady)
    Step-Lives a _ (reloads i r texman' at eq) l =
        let (xs', v) =
          resman_reload-IsValid fl h a.texman a.store l.xs l.ns l.valid texman' i r
            (slot a i r l at) eq in
        record { xs = xs'; ns = l.ns; valid = v; steady = l.steady }
    Step-Lives a _ (shows fuel s' enough eq) l =
        let (s1, e, v) = display-IsValid a l fuel (enough l.ns l.valid.list) in
        record {
          xs = l.xs;
          ns = l.ns;
          valid = subst (λ q. IsValid fl h a.texman q l.xs l.ns) (ok-injective (sym e ∙ eq)) v;
          steady = l.steady;
        }
    Step-Lives a _ (answers fuel ev v' enough range eq) l =
        let (o, e, k) =
          dispatch-IsSteady fl (some h) (h ∷ l.ns) fuel a.store (enough l.ns l.valid.list)
            l.valid.list numbers a.viewer ev range l.steady in
        record { xs = l.xs; ns = l.ns; valid = l.valid; steady = k v' (ok-injective (sym e ∙ eq)) }

    Opened-Lives : (a : App fl h) → Opened fl h a → Lives a
    Opened-Lives a o = record {
      xs = [];
      ns = [];
      valid = record {
        holds = o.table;
        destroys = o.destroys;
        list = o.list;
        held = record { owns = λ i r e. absurd (cc e); differ = λ i j r q e. absurd (cc e) };
      };
      steady = subst (IsSteady fl (some h) (h ∷ [])) (sym o.window) (record {
        states = refl;
        xs = refl;
        ys = refl;
        zoom = inr numbers.one;
        size = inr numbers.quarter;
        begins = refl;
        chosen = λ n e. absurd (cc e);
      });
    }

    pub Run-Lives : (a b : App fl h) → Opened fl h a → Run fl h a b → Lives b
    Run-Lives a _ o at_rest = Opened-Lives a o
    Run-Lives a c o (one_more b _ run step) = Step-Lives b c step (Run-Lives a b o run)
