-- ===== src/Resman/Life.antt =====
-- Runs of src/resman.c: calls of its user, of `resman_poll` and of the file watch, and the work on the
-- queued jobs, in any order. `work_func` is two steps, up to where it clears `pending` and from there.
-- The calls that reload a resource are those for a resource that is neither pending nor done, and
-- `work_func` ends on a resource that was not reloaded since it cleared `pending`; the code itself
-- does not ask for that. What else may come between the two steps is in Resman/Raced.
use libresman.Base.{
  ℕ, ◌+◌, ◌*◌, ◌^◌, ◌<◌, ◌≡◌, refl, ap, subst, Bool, true, false, Option, none, some, List, [], ◌∷◌,
  ◌++◌, ok, get_elem?, arith, inl, inr,
}
use libresman.Dynarr.{dynarr_size}
use libresman.Dynarr.Stack.{Holds}
use libresman.Resman.{Resource, Resman, item_at, resman_add, resman_remove, resman_reload}
use libresman.Resman.Table.{item_at-Holds}
use libresman.Resman.Sweep.{call_destroy, doomed}
use libresman.Resman.Watch.{Watch, remove_watched}
use libresman.Resman.Work.{clear_pending, finish_work, delayed_reload, due, done_callback}
use libresman.Resman.Owed.{count, tally_self, tally_other, Owed-snoc, Fits}
use libresman.Resman.Moves.{
  get_elem?-item_at, resman_remove-Becomes, resman_reload-Becomes, delayed_reload-Becomes,
  remove_watched-Becomes, clear_pending-Becomes, finish_work-Becomes, done_callback-Becomes,
}
use libresman.Resman.Balanced.{
  idle, once_other, Balanced, Balanced-set, jobs_at, one_job, owing, count-split,
}
use libresman.Resman.Grows.{resman_add-Grows}

-- The manager, what its file watch keeps, the jobs that workers have taken and that are pending yet, and
-- those whose workers have cleared `pending` and are not at the end of `work_func`.
pub record Life {ℓ κ} (D : Type ℓ) (W : Type κ) : Type (ℓ ⊔ κ) where
  pub rman : Resman D
  pub watched : W
  pub running : List ℕ
  pub finishing : List ℕ

module _ {ℓ κ} {D : Type ℓ} {W : Type κ} (watch : Watch D W) where
  -- The slot `i` of the table holds the resource `r`.
  abbrev pub In : Life D W → ℕ → Resource D → Type ℓ
  In p i r = (i < dynarr_size p.rman.res) × (item_at p.rman.res i ≡ ok (some r))

  pub data Step (p : Life D W) : Life D W → Type (ℓ ⊔ κ) where
    -- `resman_add`, with the table's size within an `int`
    adds :
        (alloc : Bool) (mem : ℕ → Bool) (fname : List ℕ) (d : D) (rman' : Resman D) (id : Option ℕ)
        → p.rman.res.szelem * (2 * p.rman.res.max_elem + 1) < 2 ^ 31
        → resman_add alloc mem p.rman fname d ≡ ok (rman', id)
        → Step p (record p { rman = rman' })
    -- `resman_remove`
    marks :
        (i : ℕ) (r : Resource D) (rman' : Resman D)
        → In p i r
        → resman_remove p.rman i ≡ ok rman'
        → Step p (record p { rman = rman' })
    -- the file watch finds a file changed
    reloads :
        (i : ℕ) (r : Resource D) (rman' : Resman D)
        → In p i r
        → idle r ≡ true
        → resman_reload p.rman i ≡ ok rman'
        → Step p (record p { rman = rman' })
    -- `resman_poll`, its two loops
    sweeps :
        (i : ℕ) (r : Resource D) (rman' : Resman D) (w' : W)
        → In p i r
        → doomed r ≡ true
        → remove_watched watch (call_destroy p.rman i) p.watched i ≡ ok (rman', w')
        → Step p (record p { rman = rman'; watched = w' })
    delays :
        (start_time i : ℕ) (r : Resource D) (rman' : Resman D)
        → In p i r
        → idle r ≡ true
        → due start_time r ≡ true
        → delayed_reload start_time p.rman i r ≡ ok rman'
        → Step p (record p { rman = rman' })
    calls_back :
        (result i : ℕ) (r : Resource D) (rman' : Resman D) (w' : W)
        → In p i r
        → r.done_pending ≡ true
        → done_callback watch result p.rman p.watched i r ≡ ok (rman', w')
        → Step p (record p { rman = rman'; watched = w' })
    -- a worker takes the first job, clears `pending`, and comes to the end of `work_func`
    takes :
        (i : ℕ) (js : List ℕ)
        → p.rman.jobs ≡ i ∷ js
        → Step p (record p { rman = record p.rman { jobs = js }; running = i ∷ p.running })
    clears :
        (result i : ℕ) (js ks : List ℕ) (rman' : Resman D)
        → p.running ≡ js ++ i ∷ ks
        → clear_pending result p.rman i ≡ ok rman'
        → Step p (record p { rman = rman'; running = js ++ ks; finishing = i ∷ p.finishing })
    ends :
        (has_done : Bool) (i : ℕ) (r : Resource D) (js ks : List ℕ) (rman' : Resman D) (w' : W)
        → p.finishing ≡ js ++ i ∷ ks
        → In p i r
        → r.pending ≡ false
        → finish_work watch has_done p.rman p.watched i ≡ ok (rman', w')
        → Step p (record p { rman = rman'; watched = w'; finishing = js ++ ks })

  pub data Run (p : Life D W) : Life D W → Type (ℓ ⊔ κ) where
    at_rest : Run p p
    one_more : (q r : Life D W) → Run p q → Step q r → Run p r

  -- The jobs in the queue and with workers are those that the slots of the table owe.
  abbrev pub Sound : Life D W → Type ℓ
  Sound p = Balanced p.rman p.running

  Step-Sound : (p q : Life D W) → Step p q → Sound p → Sound q
  Step-Sound p _ (adds alloc mem fname d rman' id small e) (xs, h, o) =
      elim (resman_add-Grows alloc mem p.rman rman' xs fname d id h small e) [
        | inl same ↦ subst (λ q. Balanced q p.running) same (xs, h, o)
        | inr (r, pend, undone, _, _, b) ↦
            (xs ++ some r ∷ [], b.0, rw b.1 (Owed-snoc xs r p.rman.jobs p.running o pend undone))
      ]
  Step-Sound p _ (marks i r rman' (lt, at) e) (xs, h, o) =
      let here = get_elem?-item_at p.rman.res xs i (some r) h lt at in
      Balanced-set rman' xs i (some r) _ p.rman.jobs p.running p.rman.jobs p.running o here
        (resman_remove-Becomes p.rman rman' xs i r h here e)
        (jobs_at xs i _ p.rman.jobs p.running o here) (λ k ne. refl)
  Step-Sound p _ (reloads i r rman' (lt, at) free e) (xs, h, o) =
      let here = get_elem?-item_at p.rman.res xs i (some r) h lt at in
      Balanced-set rman' xs i (some r) _ p.rman.jobs p.running _ p.running o here
        (resman_reload-Becomes p.rman rman' xs i r h here e)
        (one_job i r p.rman.jobs p.running (jobs_at xs i _ p.rman.jobs p.running o here) free)
        (once_other i p.rman.jobs p.running)
  Step-Sound p _ (sweeps i r rman' w' (lt, at) dead e) (xs, h, o) =
      let here = get_elem?-item_at p.rman.res xs i (some r) h lt at in
      let old = jobs_at xs i _ p.rman.jobs p.running o here in
      Balanced-set rman' xs i (some r) none p.rman.jobs p.running p.rman.jobs p.running o here
        (remove_watched-Becomes watch (call_destroy p.rman i) rman' p.watched w' xs i r h here e)
        (ground (arith, old, dead)) (λ k ne. refl)
  Step-Sound p _ (delays start_time i r rman' (lt, at) free now e) (xs, h, o) =
      let here = get_elem?-item_at p.rman.res xs i (some r) h lt at in
      Balanced-set rman' xs i (some r) _ p.rman.jobs p.running _ p.running o here
        (delayed_reload-Becomes start_time p.rman rman' xs i r h here now e)
        (one_job i r p.rman.jobs p.running (jobs_at xs i _ p.rman.jobs p.running o here) free)
        (once_other i p.rman.jobs p.running)
  Step-Sound p _ (calls_back result i r rman' w' (lt, at) done e) (xs, h, o) =
      let here = get_elem?-item_at p.rman.res xs i (some r) h lt at in
      let old = jobs_at xs i _ p.rman.jobs p.running o here in
      elim (done_callback-Becomes watch result p.rman rman' p.watched w' xs i r h here e) [
        | inl b ↦
            Balanced-set rman' xs i (some r) none p.rman.jobs p.running p.rman.jobs p.running o here
              b (ground (arith, old, done)) (λ k ne. refl)
        | inr (r', pend, undone, b) ↦
            Balanced-set rman' xs i (some r) (some r') p.rman.jobs p.running p.rman.jobs p.running o
              here b (ground (arith, old, done, pend, undone)) (λ k ne. refl)
      ]
  Step-Sound p _ (takes i js e) (xs, h, o) =
      (xs, h, λ k. subst (λ m. Fits m (get_elem? xs k)) (omega (arith, ap (count k) e)) (o k))
  Step-Sound p _ (clears result i js ks rman' e1 e) (xs, h, o) =
      let n = count-split i i p.running js ks e1 in
      let (r, here) = owing xs i p.rman.jobs p.running o (omega (arith, n, tally_self i)) in
      let old = jobs_at xs i _ p.rman.jobs p.running o here in
      Balanced-set rman' xs i (some r) _ p.rman.jobs p.running p.rman.jobs (js ++ ks) o here
        (clear_pending-Becomes watch result p.rman rman' xs i r h here e)
        (ground (arith, old, n, tally_self i))
        (λ k ne. omega (arith, count-split i k p.running js ks e1, tally_other i k ne))
  Step-Sound p _ (ends has_done i r js ks rman' w' e1 (lt, at) still e) (xs, h, o) =
      let here = get_elem?-item_at p.rman.res xs i (some r) h lt at in
      let old = jobs_at xs i _ p.rman.jobs p.running o here in
      let (r', pend, b) =
        finish_work-Becomes watch has_done p.rman rman' p.watched w' xs i r h here e in
      Balanced-set rman' xs i (some r) (some r') p.rman.jobs p.running p.rman.jobs p.running o here
        b (ground (arith, old, pend, still)) (λ k ne. refl)

  pub Run-Sound : (p q : Life D W) → Run p q → Sound p → Sound q
  Run-Sound p _ at_rest s = s
  Run-Sound p _ (one_more q r run step) s = Step-Sound q r step (Run-Sound p q run s)

  -- The resource for which there is a job.
  pub pending_job :
      (q : Life D W) (i : ℕ)
      → Sound q
      → 0 < count i q.rman.jobs + count i q.running
      → (r : Resource D) × (item_at q.rman.res i ≡ ok (some r)) × (r.pending ≡ true)
  pending_job q i (xs, h, o) some_job =
      let (r, here) = owing xs i q.rman.jobs q.running o some_job in
      (
        r,
        item_at-Holds q.rman.res xs i (some r) h here,
        ground (arith, jobs_at xs i _ q.rman.jobs q.running o here, some_job),
      )

  -- In every run from an empty table in which only resources that are neither pending nor done are
  -- reloaded, and none between the two steps of its `work_func`, every job that is queued or with a
  -- worker that has not yet cleared `pending` is for a slot of the table that holds a resource, which
  -- is pending: up to there neither loop of `resman_poll` takes a resource from under a job.
  pub Run-pending_jobs :
      (p q : Life D W)
      → Holds p.rman.res []
      → p.rman.jobs ≡ []
      → p.running ≡ []
      → Run p q
      → (i : ℕ) → 0 < count i q.rman.jobs + count i q.running
      → (r : Resource D) × (item_at q.rman.res i ≡ ok (some r)) × (r.pending ≡ true)
  Run-pending_jobs p q empty no_jobs none_running run i some_job =
      pending_job q i (Run-Sound p q run ([], empty, λ k. rw (no_jobs, none_running) refl)) some_job
