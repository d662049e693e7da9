-- ===== src/Resman/Refine.antt =====
-- `resman_poll` of src/resman.c in the build without a file watch, as a run of the steps of
-- Resman/Life.
use libresman.Base.{
  ℕ, zero, suc, ◌+◌, ◌%◌, ◌^◌, ◌<◌, ◌≤◌, ◌≡◌, ◌≢◌, refl, sym, ap, ◌∙◌, subst, Bool, true, false,
  ◌&&◌, Option, none, some, List, Exec, ok, ◌==◌, if_true, if_false, length, length-set, get_elem?,
  get_elem?-set_self, get_elem?-set_ne, set, arith, inl, inr, Bool-cases,
}
use libresman.Base.Outcome.{◌>>=◌, ok_of_chain, ok-injective}
use libresman.Dynarr.{dynarr_size}
use libresman.Dynarr.Stack.{Holds}
use libresman.Resman.{Resource, Resman, item_at}
use libresman.Resman.Sweep.{call_destroy, doomed}
use libresman.Resman.Watch.{no_watch}
use libresman.Resman.Work.{delayed_reload, done_callback, due, minus_one}
use libresman.Resman.Owed.{rewrite_slot}
use libresman.Resman.Moves.{
  Becomes, become, get_elem?-item_at, remove_watched-Becomes, delayed_reload-Becomes,
}
use libresman.Resman.Balanced.{idle}
use libresman.Resman.Life.{Life, Step, Run, In, one_more, at_rest, sweeps, delays, calls_back}
use libresman.Resman.Poll.{
  Polling, resman_poll, sweep_watched, poll_from, poll_slot, sweep_watched_slot,
}

module _ {ℓ} {D : Type ℓ} where
  -- A resource that is pending has no delayed reload.
  abbrev pub Calm : Option (Resource D) → Type 0
  Calm none = Unit
  Calm (some r) = r.pending ≡ true → r.reload_timeout ≡ 0

  abbrev pub AllCalm : List (Option (Resource D)) → Type ℓ
  AllCalm xs = (i : ℕ) (x : Option (Resource D)) → get_elem? xs i ≡ some x → Calm x

  AllCalm-set :
      (xs : List (Option (Resource D))) (i : ℕ) (y : Option (Resource D))
      → AllCalm xs
      → i < length xs
      → Calm y
      → AllCalm (set xs i y)
  AllCalm-set xs i y calm lt here k x at = elim (Bool-cases (i == k)) [
    | inl same ↦
        let e : i ≡ k = ground (arith, same) in
        let new : some y ≡ some x =
          sym (get_elem?-set_self xs i y lt) ∙ ap (get_elem? (set xs i y)) e ∙ at in
        let this : y ≡ x = cc new in subst Calm this here
    | inr differ ↦
        let ne : i ≢ k = λ e. absurd (ground (arith, e, differ)) in
        calm k x (sym (get_elem?-set_ne xs i k y ne) ∙ at)
  ]

  resting :
      (start_time : ℕ) (r : Resource D)
      → (r.pending ≡ true → r.reload_timeout ≡ 0)
      → r.done_pending ≡ false
      → due start_time r ≡ true
      → idle r ≡ true
  resting start_time r calm undone now = elim (Bool-cases r.pending) [
    | inl pending ↦ absurd (ground (arith, calm pending, now))
    | inr quiet ↦ rw (undone, quiet) refl
  ]

  -- What holds of a manager `q` that a run of steps took from `p`, with `n` slots in its table.
  record After (p : Life D (Unit {0})) (n : ℕ) (q : Life D (Unit {0})) : Type ℓ where
    slots : List (Option (Resource D))
    held : Holds q.rman.res slots
    counted : length slots ≡ n
    calm : AllCalm slots
    run : Run no_watch p q

  In-After :
      (p q : Life D (Unit {0})) (n i : ℕ) (r : Resource D) (a : After p n q)
      → i < n
      → item_at q.rman.res i ≡ ok (some r)
      → In no_watch q i r × (get_elem? a.slots i ≡ some (some r))
  unfolding dynarr_size
  In-After p q n i r a lt e =
      let inside : i < dynarr_size q.rman.res = omega (arith, lt, a.counted, a.held.counted) in
      ((inside, e), get_elem?-item_at q.rman.res a.slots i (some r) a.held inside e)

  -- One more step, which changes the slot `i` to `y`.
  After-Step :
      (p q q' : Life D (Unit {0})) (n i : ℕ) (js : List ℕ) (y : Option (Resource D))
      (a : After p n q)
      → i < n
      → Becomes q'.rman (set a.slots i y) js
      → Calm y
      → Step no_watch q q'
      → After p n q'
  After-Step p q q' n i js y a lt b here step = record {
    slots = set a.slots i y;
    held = b.0;
    counted = length-set a.slots i y ∙ a.counted;
    calm = AllCalm-set a.slots i y a.calm (omega (arith, lt, a.counted)) here;
    run = one_more q q' a.run step;
  }

  After-same :
      (p q : Life D (Unit {0})) (n : ℕ) (rman' : Resman D) (w' : Unit {0})
      → After p n q
      → ◌≡◌ {A = Exec (Resman D × Unit {0})} (ok (q.rman, q.watched)) (ok (rman', w'))
      → After p n (record q { rman = rman'; watched = w' })
  After-same p q n rman' w' a e =
      subst (λ z. After p n (record q { rman = z.0; watched = z.1 })) (ok-injective e) a

  sweep_watched_slot-After :
      (p q : Life D (Unit {0})) (n i : ℕ) (x : Option (Resource D)) (rman' : Resman D)
      (w' : Unit {0})
      → After p n q
      → i < n
      → item_at q.rman.res i ≡ ok x
      → sweep_watched_slot no_watch q.rman q.watched i x ≡ ok (rman', w')
      → After p n (record q { rman = rman'; watched = w' })
  unfolding sweep_watched_slot
  sweep_watched_slot-After p q n i none rman' w' a lt at e = After-same p q n rman' w' a e
  sweep_watched_slot-After p q n i (some r) rman' w' a lt at e = elim (Bool-cases (doomed r)) [
    | inl dead ↦
        let (inside, here) = In-After p q n i r a lt at in
        let removed = rw dead at e in
        After-Step p q _ n i q.rman.jobs none a lt
          (remove_watched-Becomes no_watch (call_destroy q.rman i) rman' q.watched w' a.slots i r
            a.held here removed)
          tt (sweeps i r rman' w' inside dead removed)
    | inr alive ↦ After-same p q n rman' w' a (rw alive at e)
  ]

  sweep_watched-After :
      (left : ℕ) (p q : Life D (Unit {0})) (n i : ℕ) (rman' : Resman D) (w' : Unit {0})
      → After p n q
      → i + left ≤ n
      → sweep_watched no_watch i left q.rman q.watched ≡ ok (rman', w')
      → After p n (record q { rman = rman'; watched = w' })
  unfolding sweep_watched
  sweep_watched-After zero p q n i rman' w' a le e = After-same p q n rman' w' a e
  sweep_watched-After (suc left) p q n i rman' w' a le e =
      let (x, at, e1) = ok_of_chain (item_at q.rman.res i) _ e in
      let ((rman1, w1), slot, e2) =
        ok_of_chain (sweep_watched_slot no_watch q.rman q.watched i x) _ e1 in
      sweep_watched-After left p (record q { rman = rman1; watched = w1 }) n (i + 1) rman' w'
        (sweep_watched_slot-After p q n i x rman1 w1 a (omega (arith, le)) at slot)
        (omega (arith, le)) e2

  called_back :
      (l : Polling) (p q : Life D (Unit {0})) (n i : ℕ) (r : Resource D) (rman' : Resman D)
      (w' : Unit {0}) (a : After p n q)
      → i < n
      → In no_watch q i r
      → get_elem? a.slots i ≡ some (some r)
      → r.done_pending ≡ true
      → done_callback no_watch (l.answers i) q.rman q.watched i r ≡ ok (rman', w')
      → After p n (record q { rman = rman'; watched = w' })
  unfolding done_callback
  called_back l p q n i r rman' w' a lt inside here done e =
      let step = calls_back (l.answers i) i r rman' w' inside done e in
      elim (Bool-cases ((l.answers i == minus_one) && (r.num_loads == 0))) [
        | inl failed ↦
            After-Step p q _ n i q.rman.jobs none a lt
              (remove_watched-Becomes no_watch q.rman rman' q.watched w' a.slots i r a.held here
                (rw failed at e))
              tt step
        | inr fine ↦
            let r' : Resource D = record r {
              done_pending = false;
              num_loads = (r.num_loads + 1) % 2 ^ 32;
            } in
            let (da, _, wr, held) = rewrite_slot q.rman.res a.slots i r (some r') a.held here in
            let same = ap (λ z. z.0) (ok-injective (rw (fine, wr) at e)) in
            After-Step p q _ n i q.rman.jobs (some r') a lt (become _ _ _ _ same (held, refl))
              (a.calm i (some r) here) step
      ]

  reloaded :
      (l : Polling) (p q : Life D (Unit {0})) (n i : ℕ) (r : Resource D) (rman' : Resman D)
      (a : After p n q)
      → i < n
      → In no_watch q i r
      → get_elem? a.slots i ≡ some (some r)
      → r.done_pending ≡ false
      → delayed_reload l.start_time q.rman i r ≡ ok rman'
      → After p n (record q { rman = rman' })
  unfolding delayed_reload
  reloaded l p q n i r rman' a lt inside here undone e = elim (Bool-cases (due l.start_time r)) [
    | inl now ↦
        let free : idle r ≡ true = resting l.start_time r (a.calm i (some r) here) undone now in
        After-Step p q _ n i _ _ a lt
          (delayed_reload-Becomes l.start_time q.rman rman' a.slots i r a.held here now e)
          (λ pending. refl) (delays l.start_time i r rman' inside free now e)
    | inr later ↦ subst (λ z. After p n (record q { rman = z })) (ok-injective (rw later at e)) a
  ]

  poll_slot-After :
      (l : Polling) (p q : Life D (Unit {0})) (n i : ℕ) (x : Option (Resource D)) (rman' : Resman D)
      (w' : Unit {0}) (stop : Bool)
      → After p n q
      → i < n
      → item_at q.rman.res i ≡ ok x
      → poll_slot no_watch l q.rman q.watched i x ≡ ok (rman', w', stop)
      → After p n (record q { rman = rman'; watched = w' })
  unfolding poll_slot
  poll_slot-After l p q n i none rman' w' stop a lt at e =
      After-same p q n rman' w' a (ap (λ m. do (a, b, c) ← m; ok (a, b)) e)
  poll_slot-After l p q n i (some r) rman' w' stop a lt at e =
      let (inside, here) = In-After p q n i r a lt at in
      elim (Bool-cases r.done_pending) [
        | inl done ↦
            let ((rman1, w1), called, e1) =
              ok_of_chain (done_callback no_watch (l.answers i) q.rman q.watched i r) _
                (sym (if_true r.done_pending _ _ done) ∙ e) in
            let same : ◌≡◌ {A = Exec (Resman D × Unit {0})} (ok (rman1, w1)) (ok (rman', w')) =
              ap (λ m. do (a, b, c) ← m; ok (a, b)) e1 in
            called_back l p q n i r rman' w' a lt inside here done (called ∙ same)
        | inr undone ↦
            let (rman1, started, e1) =
              ok_of_chain (delayed_reload l.start_time q.rman i r) _
                (sym (if_false r.done_pending _ _ undone) ∙ e) in
            let same : ◌≡◌ {A = Exec (Resman D × Unit {0})} (ok (rman1, q.watched))
                (ok (rman', w')) =
              ap (λ m. do (a, b, c) ← m; ok (a, b)) e1 in
            subst (λ z. After p n (record q { rman = z.0; watched = z.1 })) (ok-injective same)
              (reloaded l p q n i r rman1 a lt inside here undone started)
      ]

  poll_from-After :
      (left : ℕ) (l : Polling) (p q : Life D (Unit {0})) (n i : ℕ) (rman' : Resman D)
      (w' : Unit {0})
      → After p n q
      → i + left ≤ n
      → poll_from no_watch l i left q.rman q.watched ≡ ok (rman', w')
      → After p n (record q { rman = rman'; watched = w' })
  unfolding poll_from
  poll_from-After zero l p q n i rman' w' a le e = After-same p q n rman' w' a e
  poll_from-After (suc left) l p q n i rman' w' a le e =
      let (x, at, e1) = ok_of_chain (item_at q.rman.res i) _ e in
      let ((rman1, w1, stop), slot, e2) =
        ok_of_chain (poll_slot no_watch l q.rman q.watched i x) _ e1 in
      let q1 : Life D (Unit {0}) = record q { rman = rman1; watched = w1 } in
      let a1 : After p n q1 =
        poll_slot-After l p q n i x rman1 w1 stop a (omega (arith, le)) at slot in
      elim (Bool-cases stop) [
        | inl late ↦ After-same p q1 n rman' w' a1 (rw late at e2)
        | inr on ↦
            poll_from-After left l p q1 n (i + 1) rman' w' a1 (omega (arith, le)) (rw on at e2)
      ]

  -- A call that returns is a run.
  pub poll_ok-Run :
      (l : Polling) (p : Life D (Unit {0})) (xs : List (Option (Resource D))) (rman' : Resman D)
      (w' : Unit {0})
      → Holds p.rman.res xs
      → AllCalm xs
      → resman_poll no_watch l p.rman p.watched ≡ ok (rman', w')
      → Run no_watch p (record p { rman = rman'; watched = w' })
  unfolding resman_poll dynarr_size
  poll_ok-Run l p xs rman' w' h calm e =
      let n = p.rman.res.nelem in
      let a : After p n p = record {
        slots = xs;
        held = h;
        counted = sym h.counted;
        calm = calm;
        run = at_rest;
      } in
      let ((rman1, w1), swept, e1) =
        ok_of_chain (sweep_watched no_watch 0 n p.rman p.watched) _ e in
      let a1 = sweep_watched-After n p p n 0 rman1 w1 a (omega arith) swept in
      elim (Bool-cases l.has_done) [
        | inl has_done ↦
            (poll_from-After n l p (record p { rman = rman1; watched = w1 }) n 0 rman' w' a1
              (omega arith) (sym (if_true l.has_done _ _ has_done) ∙ e1)).run
        | inr no_done ↦
            (After-same p (record p { rman = rman1; watched = w1 }) n rman' w' a1
              (sym (if_false l.has_done _ _ no_done) ∙ e1)).run
      ]
