-- ===== src/Tpool/Order.antt =====
-- The order in which the jobs of src/tpool.c leave the queue.
use mathlib.Core.List.{append_assoc, append-nil}
use libresman.Base.{ℕ, ◌≡◌, refl, sym, ap, ◌∙◌, List, [], ◌∷◌, ◌++◌, inl, inr, Bool-cases}
use libresman.Tpool.{
  Pool, append_job, announce, tpool_begin_batch, leave_batch, end_batch_broadcast, tpool_clear,
  job_done, ask_to_quit, quit_broadcast, tpool_create,
}
use libresman.Tpool.Turn.{next_job-cases}
use libresman.Tpool.Steps.{
  Step, append, announces, begin_batch, end_batch, end_broadcast, clear, quit, quit_wakes, enters,
  sleeps, wakes, resumes, works, reports, calls, tests, stirs, Label, accepted, started, completed,
  dropped, Run, at_rest, one_more, proceed, proceed_labels,
}

module _ {ℓ} {J : Type ℓ} where
  -- The jobs that were accepted, those that left the queue, and those that were completed.
  abbrev pub accepted_jobs : List (Label J) → List J
  accepted_jobs [] = []
  accepted_jobs (accepted j ∷ es) = j ∷ accepted_jobs es
  accepted_jobs (_ ∷ es) = accepted_jobs es

  abbrev pub removed_jobs : List (Label J) → List J
  removed_jobs [] = []
  removed_jobs (started j ∷ es) = j ∷ removed_jobs es
  removed_jobs (dropped js ∷ es) = js ++ removed_jobs es
  removed_jobs (_ ∷ es) = removed_jobs es

  pub accepted_jobs-append :
      (es fs : List (Label J)) → accepted_jobs (es ++ fs) ≡ accepted_jobs es ++ accepted_jobs fs
  accepted_jobs-append [] fs = refl
  accepted_jobs-append (accepted j ∷ es) fs = ap (λ js. j ∷ js) (accepted_jobs-append es fs)
  accepted_jobs-append (started j ∷ es) fs = accepted_jobs-append es fs
  accepted_jobs-append (completed j ∷ es) fs = accepted_jobs-append es fs
  accepted_jobs-append (dropped js ∷ es) fs = accepted_jobs-append es fs

  removed_jobs-append :
      (es fs : List (Label J)) → removed_jobs (es ++ fs) ≡ removed_jobs es ++ removed_jobs fs
  removed_jobs-append [] fs = refl
  removed_jobs-append (accepted j ∷ es) fs = removed_jobs-append es fs
  removed_jobs-append (started j ∷ es) fs = ap (λ js. j ∷ js) (removed_jobs-append es fs)
  removed_jobs-append (completed j ∷ es) fs = removed_jobs-append es fs
  removed_jobs-append (dropped js ∷ es) fs =
      ap (λ ks. js ++ ks) (removed_jobs-append es fs) ∙ sym (append_assoc js _ _)

  proceed-queue :
      (p : Pool J) (i : ℕ)
      → p.workq ++ accepted_jobs (proceed_labels p)
        ≡ removed_jobs (proceed_labels p) ++ (proceed p i).workq
  proceed-queue p i = elim (next_job-cases p) [
    | inl e ↦ rw (proceed_labels, e) (append-nil p.workq)
    | inr (inl (none_left, e)) ↦ rw (proceed_labels, e) (append-nil p.workq)
    | inr (inr (j, rest, some_left, e)) ↦ rw (proceed_labels, e) (append-nil p.workq ∙ some_left)
  ]

  -- A step adds at the end of the queue, and removes at its front.
  Step-queue :
      (p : Pool J) (es : List (Label J)) (q : Pool J)
      → Step p es q
      → p.workq ++ accepted_jobs es ≡ removed_jobs es ++ q.workq
  unfolding append_job announce tpool_begin_batch leave_batch end_batch_broadcast tpool_clear
      job_done ask_to_quit quit_broadcast
  Step-queue _ _ _ (append p j free) = refl
  Step-queue _ _ _ (announces p some_call) = elim (Bool-cases p.in_batch) [
    | inl batch ↦ rw batch (append-nil p.workq)
    | inr single ↦ rw single (append-nil p.workq)
  ]
  Step-queue _ _ _ (begin_batch p) = append-nil p.workq
  Step-queue _ _ _ (end_batch p) = append-nil p.workq
  Step-queue _ _ _ (end_broadcast p some_call) = append-nil p.workq
  Step-queue _ _ _ (clear p free) = append-nil p.workq ∙ sym (append-nil _ ∙ append-nil p.workq)
  Step-queue _ _ _ (quit p) = append-nil p.workq
  Step-queue _ _ _ (quit_wakes p) = append-nil p.workq
  Step-queue _ _ _ (enters p i free at) = proceed-queue p i
  Step-queue _ _ _ (sleeps p i at) = append-nil p.workq
  Step-queue _ _ _ (wakes p i at) = append-nil p.workq
  Step-queue _ _ _ (resumes p i free at) = proceed-queue p i
  Step-queue _ _ _ (works p i j at) = append-nil p.workq
  Step-queue _ _ _ (reports p i j free at) = proceed-queue (job_done p) i
  Step-queue _ _ _ (calls p g) = append-nil p.workq
  Step-queue _ _ _ (tests p k g free at) = append-nil p.workq
  Step-queue _ _ _ (stirs p k g at) = append-nil p.workq

  -- In every run of a pool the jobs leave the queue in the order in which they were accepted: those
  -- accepted are those that left it (taken by workers, or dropped by `resman_tpool_clear`) and then
  -- those still queued.
  pub Run-queue :
      (n : ℕ) (es : List (Label J)) (q : Pool J)
      → Run (tpool_create n) es q
      → accepted_jobs es ≡ removed_jobs es ++ q.workq
  Run-queue n _ _ at_rest = refl
  Run-queue n _ _ (one_more es q fs r run step) =
      accepted_jobs-append es fs
      ∙ ap (λ js. js ++ accepted_jobs fs) (Run-queue n es q run)
      ∙ append_assoc (removed_jobs es) q.workq (accepted_jobs fs)
      ∙ ap (λ js. removed_jobs es ++ js) (Step-queue q fs r step)
      ∙ sym (append_assoc (removed_jobs es) (removed_jobs fs) r.workq)
      ∙ ap (λ js. js ++ r.workq) (sym (removed_jobs-append es fs))
