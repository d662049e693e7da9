-- ===== src/Tpool/Wakeups.antt =====
-- The broadcasts of src/tpool.c to its workers.

use libresman.Base.{
  ℕ, ◌<◌, ◌≡◌, ◌≢◌, ◌⊎◌, refl, true, false, List, [], ◌∷◌, map, arith, inl, inr, Bool-cases,
}
use libresman.Tpool.{
  Pool, Worker, starting, drowsy, asleep, woken, running, finished, stopped, wake, append_job,
  announce, tpool_begin_batch, leave_batch, end_batch_broadcast, tpool_clear, job_done, ask_to_quit,
  quit_broadcast, tpool_create,
}
use libresman.Tpool.Turn.{next_job-cases}
use libresman.Tpool.Steps.{
  Step, append, announces, begin_batch, end_batch, end_broadcast, clear, quit, quit_wakes, enters,
  sleeps, wakes, resumes, works, reports, calls, tests, stirs, Label, Run, at_rest, one_more, At,
  proceed,
}
use libresman.Tpool.Counts.{IsValid, total, total-set, nodding}
use libresman.Tpool.Pending.{Run-IsValid}

module _ {ℓ} {J : Type ℓ} where
  abbrev pub dozing : Worker J → ℕ
  dozing asleep = 1
  dozing _ = 0

  dozing-wake : (w : Worker J) → dozing (wake w) ≡ 0
  dozing-wake asleep = refl
  dozing-wake starting = refl
  dozing-wake drowsy = refl
  dozing-wake woken = refl
  dozing-wake (running j) = refl
  dozing-wake (finished j) = refl
  dozing-wake stopped = refl

  dozing-map-wake : (ws : List (Worker J)) → total dozing (map wake ws) ≡ 0
  dozing-map-wake [] = refl
  dozing-map-wake (w ∷ ws) = omega (arith, dozing-wake w, dozing-map-wake ws)

  -- No worker sleeps through a queued job, but for a batch or a call that has yet to broadcast.
  abbrev pub Alert : Pool J → Type ℓ
  Alert p =
      (p.workq ≡ [])
      ⊎ ((p.in_batch ≡ true)
          ⊎ ((0 < p.announcing) ⊎ ((0 < p.ending) ⊎ (total dozing p.workers ≡ 0))))

  -- A worker's turn takes jobs off the queue at most, and sends no worker to sleep.
  proceed-Alert :
      (p : Pool J) (i : ℕ) (w : Worker J) → At p i w → dozing w ≡ 0 → Alert p → Alert (proceed p i)
  proceed-Alert p i w at d a =
      let move_dozing = total-set dozing p.workers i w in
      elim (next_job-cases p) [
        | inl e ↦ rw e (ground (arith, a, move_dozing stopped at))
        | inr (inl (none_left, e)) ↦ rw e (inl none_left)
        | inr (inr (j, rest, some_left, e)) ↦
            rw e (ground (arith, a, some_left, move_dozing (running j) at))
      ]

  held-drowsy : (p : Pool J) (i : ℕ) → At p i drowsy → IsValid p → p.held ≡ true
  held-drowsy p i at v = ground (arith, total-set nodding p.workers i drowsy asleep at, v.lock)

  Step-Alert :
      (p : Pool J) (es : List (Label J)) (q : Pool J) → Step p es q → IsValid p → Alert p → Alert q
  unfolding append_job announce tpool_begin_batch leave_batch end_batch_broadcast tpool_clear
      job_done ask_to_quit quit_broadcast
  Step-Alert _ _ _ (append p j free) v a = inr (inr (inl (omega arith)))
  Step-Alert _ _ _ (announces p some_call) v a = elim (Bool-cases p.in_batch) [
    | inl batch ↦ rw batch (inr (inl refl))
    | inr single ↦ rw single (inr (inr (inr (inr (dozing-map-wake p.workers)))))
  ]
  Step-Alert _ _ _ (begin_batch p) v a = inr (inl refl)
  Step-Alert _ _ _ (end_batch p) v a = inr (inr (inr (inl (omega arith))))
  Step-Alert _ _ _ (end_broadcast p some_call) v a =
      inr (inr (inr (inr (dozing-map-wake p.workers))))
  Step-Alert _ _ _ (clear p free) v a = inl refl
  Step-Alert _ _ _ (quit p) v a = a
  Step-Alert _ _ _ (quit_wakes p) v a = inr (inr (inr (inr (dozing-map-wake p.workers))))
  Step-Alert _ _ _ (enters p i free at) v a = proceed-Alert p i starting at refl a
  Step-Alert _ _ _ (sleeps p i at) v a = inl (v.idle (held-drowsy p i at v))
  Step-Alert _ _ _ (wakes p i at) v a =
      ground (arith, a, total-set dozing p.workers i asleep woken at)
  Step-Alert _ _ _ (resumes p i free at) v a = proceed-Alert p i woken at refl a
  Step-Alert _ _ _ (works p i j at) v a =
      ground (arith, a, total-set dozing p.workers i (running j) (finished j) at)
  Step-Alert _ _ _ (reports p i j free at) v a = proceed-Alert (job_done p) i (finished j) at refl a
  Step-Alert _ _ _ (calls p g) v a = a
  Step-Alert _ _ _ (tests p k g free at) v a = a
  Step-Alert _ _ _ (stirs p k g at) v a = a

  Run-Alert : (n : ℕ) (es : List (Label J)) (q : Pool J) → Run (tpool_create n) es q → Alert q
  Run-Alert n _ _ at_rest = inl refl
  Run-Alert n _ _ (one_more es q fs r run step) =
      Step-Alert q fs r step (Run-IsValid n es q run) (Run-Alert n es q run)

  -- In every run of a pool, where a job is queued, no batch is open and no call of
  -- `resman_tpool_enqueue` or `resman_tpool_end_batch` has yet to broadcast, no worker is asleep or
  -- about to sleep.
  pub Run-awake :
      (n : ℕ) (es : List (Label J)) (q : Pool J)
      → Run (tpool_create n) es q
      → q.workq ≢ []
      → q.in_batch ≡ false
      → q.announcing ≡ 0
      → q.ending ≡ 0
      → (total dozing q.workers ≡ 0) × (total nodding q.workers ≡ 0)
  Run-awake n es q run some_left single announced ended =
      let v = Run-IsValid n es q run in
      (
        ground (arith, Run-Alert n es q run, some_left),
        elim (Bool-cases q.held) [
          | inl held ↦ absurd (some_left (v.idle held))
          | inr free ↦ rw free at v.lock
        ],
      )
