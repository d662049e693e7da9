-- ===== src/Tpool/Pending.antt =====
-- The count of pending jobs of src/tpool.c.

use libresman.Base.{
  ℕ, zero, suc, ◌+◌, ◌%◌, ◌^◌, ◌<◌, ◌≡◌, refl, sym, ap, List, [], ◌∷◌, ◌++◌, length, length-append,
  replicate, arith, inl, inr, Bool-cases,
}
use libresman.Tpool.{
  Pool, Worker, starting, drowsy, asleep, woken, running, finished, stopped, append_job, announce,
  tpool_begin_batch, leave_batch, end_batch_broadcast, tpool_clear, job_done, ask_to_quit,
  quit_broadcast, tpool_create, tpool_pending_jobs, add32,
}
use libresman.Tpool.Turn.{next_job-cases}
use libresman.Tpool.Steps.{
  Step, append, announces, begin_batch, end_batch, end_broadcast, clear, quit, quit_wakes, enters,
  sleeps, wakes, resumes, works, reports, calls, tests, stirs, Label, accepted, started, completed,
  dropped, Run, at_rest, one_more, At, proceed, proceed_labels,
}
use libresman.Tpool.Counts.{IsValid, total, total-set, total-map-wake, busy, busy-wake, nodding}
use libresman.Tpool.Invariant.{Step-IsValid}
use libresman.Tpool.Order.{accepted_jobs, accepted_jobs-append}

module _ {ℓ} {J : Type ℓ} where
  -- How many jobs were completed, and how many were dropped by `resman_tpool_clear`.
  abbrev pub completed_count : List (Label J) → ℕ
  completed_count [] = 0
  completed_count (completed j ∷ es) = 1 + completed_count es
  completed_count (_ ∷ es) = completed_count es

  abbrev pub dropped_count : List (Label J) → ℕ
  dropped_count [] = 0
  dropped_count (dropped js ∷ es) = length js + dropped_count es
  dropped_count (_ ∷ es) = dropped_count es

  completed_count-append :
      (es fs : List (Label J))
      → completed_count (es ++ fs) ≡ completed_count es + completed_count fs
  completed_count-append [] fs = omega arith
  completed_count-append (accepted j ∷ es) fs = completed_count-append es fs
  completed_count-append (started j ∷ es) fs = completed_count-append es fs
  completed_count-append (completed j ∷ es) fs = omega (arith, completed_count-append es fs)
  completed_count-append (dropped js ∷ es) fs = completed_count-append es fs

  pub dropped_count-append :
      (es fs : List (Label J)) → dropped_count (es ++ fs) ≡ dropped_count es + dropped_count fs
  dropped_count-append [] fs = omega arith
  dropped_count-append (accepted j ∷ es) fs = dropped_count-append es fs
  dropped_count-append (started j ∷ es) fs = dropped_count-append es fs
  dropped_count-append (completed j ∷ es) fs = dropped_count-append es fs
  dropped_count-append (dropped js ∷ es) fs = omega (arith, dropped_count-append es fs)

  -- The jobs that wait and those that workers have.
  abbrev pub open_count : Pool J → ℕ
  open_count p = length p.workq + total busy p.workers

  -- A turn of a worker; a job that it had is done.
  proceed-count :
      (p : Pool J) (i : ℕ) (w : Worker J)
      → At p i w
      → open_count p + length (accepted_jobs (proceed_labels p))
        ≡ open_count (proceed p i)
          + busy w
          + completed_count (proceed_labels p)
          + dropped_count (proceed_labels p)
  proceed-count p i w at =
      let move_busy = total-set busy p.workers i w in
      elim (next_job-cases p) [
        | inl e ↦ rw (proceed_labels, e) (omega (arith, move_busy stopped at))
        | inr (inl (none_left, e)) ↦ rw (proceed_labels, e) (omega (arith, move_busy drowsy at))
        | inr (inr (j, rest, some_left, e)) ↦
            rw (proceed_labels, e) (omega (arith, move_busy (running j) at, ap length some_left))
      ]

  pub total-starting :
      (n : ℕ) (f : Worker J → ℕ) → f starting ≡ 0 → total f (replicate n starting) ≡ 0
  total-starting zero f h = refl
  total-starting (suc n) f h = omega (arith, h, total-starting n f h)

  -- A step changes the number of open jobs by those it accepts, completes and drops.
  pub Step-count :
      (p : Pool J) (es : List (Label J)) (q : Pool J)
      → Step p es q
      → open_count p + length (accepted_jobs es)
        ≡ open_count q + completed_count es + dropped_count es
  unfolding append_job announce tpool_begin_batch leave_batch end_batch_broadcast tpool_clear
      job_done ask_to_quit quit_broadcast
  Step-count _ _ _ (append p j free) = omega (arith, length-append p.workq (j ∷ []))
  Step-count _ _ _ (announces p some_call) = elim (Bool-cases p.in_batch) [
    | inl batch ↦ rw batch (omega arith)
    | inr single ↦ rw single (omega (arith, total-map-wake busy busy-wake p.workers))
  ]
  Step-count _ _ _ (begin_batch p) = omega arith
  Step-count _ _ _ (end_batch p) = omega arith
  Step-count _ _ _ (end_broadcast p some_call) =
      omega (arith, total-map-wake busy busy-wake p.workers)
  Step-count _ _ _ (clear p free) = omega arith
  Step-count _ _ _ (quit p) = omega arith
  Step-count _ _ _ (quit_wakes p) = omega (arith, total-map-wake busy busy-wake p.workers)
  Step-count _ _ _ (enters p i free at) = omega (arith, proceed-count p i starting at)
  Step-count _ _ _ (sleeps p i at) = omega (arith, total-set busy p.workers i drowsy asleep at)
  Step-count _ _ _ (wakes p i at) = omega (arith, total-set busy p.workers i asleep woken at)
  Step-count _ _ _ (resumes p i free at) = omega (arith, proceed-count p i woken at)
  Step-count _ _ _ (works p i j at) =
      omega (arith, total-set busy p.workers i (running j) (finished j) at)
  Step-count _ _ _ (reports p i j free at) =
      omega (arith, proceed-count (job_done p) i (finished j) at)
  Step-count _ _ _ (calls p g) = omega arith
  Step-count _ _ _ (tests p k g free at) = omega arith
  Step-count _ _ _ (stirs p k g at) = omega arith

  pub Run-count :
      (n : ℕ) (es : List (Label J)) (q : Pool J)
      → Run (tpool_create n) es q
      → length (accepted_jobs es) ≡ open_count q + completed_count es + dropped_count es
  Run-count n _ _ at_rest = omega (arith, total-starting n busy refl)
  Run-count n _ _ (one_more es q fs r run step) = omega (
    arith,
    ap length (accepted_jobs-append es fs),
    length-append (accepted_jobs es) (accepted_jobs fs),
    completed_count-append es fs,
    dropped_count-append es fs,
    Run-count n es q run,
    Step-count q fs r step,
  )

  -- In every run of a pool `qsize` is the length of the queue and `nactive` the number of the workers
  -- that have a job, both up to the wrap-around of an `int`, `workq_tail` points at the last job of
  -- the queue or is null with it, and a worker holds the mutex on its way to sleep only if the queue
  -- is empty.
  pub Run-IsValid :
      (n : ℕ) (es : List (Label J)) (q : Pool J) → Run (tpool_create n) es q → IsValid q
  Run-IsValid n _ _ at_rest = record {
    queued = refl;
    active = ap (λ m. m % 2 ^ 32) (sym (total-starting n busy refl));
    tail = refl;
    lock = total-starting n nodding refl;
    idle = λ h. refl;
  }
  Run-IsValid n _ _ (one_more es q fs r run step) =
      Step-IsValid q fs r step (Run-IsValid n es q run)

  -- In every run of a pool that accepts fewer than 2 ^ 31 jobs, `resman_tpool_pending_jobs` gives, as an
  -- `int` that is not negative, the number of the jobs accepted less those completed and those
  -- dropped by `resman_tpool_clear`.
  pub Run-pending :
      (n : ℕ) (es : List (Label J)) (q : Pool J)
      → Run (tpool_create n) es q
      → length (accepted_jobs es) < 2 ^ 31
      → (tpool_pending_jobs q + completed_count es + dropped_count es ≡ length (accepted_jobs es))
        × (tpool_pending_jobs q < 2 ^ 31)
  unfolding tpool_pending_jobs
  Run-pending n es q run few =
      let v = Run-IsValid n es q run in
      let counted : add32 q.qsize q.nactive + completed_count es + dropped_count es
          ≡ length (accepted_jobs es) =
        omega (arith, v.queued, v.active, Run-count n es q run) in
      (counted, omega (arith, counted, few))
