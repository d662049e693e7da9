-- ===== src/Tpool/Steps.antt =====
-- The runs of src/tpool.c: the steps that a thread pool's workers and callers take, in any order that
-- the mutex allows. A step that takes the mutex asks that no drowsy worker holds it.
use libresman.Base.{ℕ, false, ◌≡◌, List, [], ◌∷◌, ◌++◌, some, get_elem?, set, ◌<◌}
use libresman.Tpool.{
  Pool, Worker, starting, drowsy, asleep, woken, running, finished, Goal, testing, blocked,
  append_job, announce, tpool_begin_batch, leave_batch, end_batch_broadcast, tpool_clear, next_job,
  job_done, test_goal, ask_to_quit, quit_broadcast,
}

-- What a step does to the jobs.
pub data Label {ℓ} (J : Type ℓ) : Type ℓ where
  accepted : J → Label J
  started : J → Label J
  completed : J → Label J
  dropped : List J → Label J

module _ {ℓ} {J : Type ℓ} where
  -- The worker `i` is in the state `w`.
  abbrev pub At : Pool J → ℕ → Worker J → Type ℓ
  At p i w = get_elem? p.workers i ≡ some w

  abbrev pub move : Pool J → ℕ → Worker J → Pool J
  move p i w = record p { workers = set p.workers i w }

  -- The worker `i` goes on from where it holds the mutex.
  abbrev pub proceed : Pool J → ℕ → Pool J
  proceed p i = let r = next_job p in move r.0 i r.1

  abbrev pub turn_labels : Worker J → List (Label J)
  turn_labels (running j) = started j ∷ []
  turn_labels _ = []

  abbrev pub proceed_labels : Pool J → List (Label J)
  proceed_labels p = turn_labels (next_job p).1

  -- One step, and what it does to the jobs, in order.
  pub data Step : Pool J → List (Label J) → Pool J → Type ℓ where
    -- `resman_tpool_enqueue`
    append : (p : Pool J) (j : J) → p.held ≡ false → Step p (accepted j ∷ []) (append_job j p)
    announces : (p : Pool J) → 0 < p.announcing → Step p [] (announce p)
    -- `resman_tpool_begin_batch` and `resman_tpool_end_batch`
    begin_batch : (p : Pool J) → Step p [] (tpool_begin_batch p)
    end_batch : (p : Pool J) → Step p [] (leave_batch p)
    end_broadcast : (p : Pool J) → 0 < p.ending → Step p [] (end_batch_broadcast p)
    -- `resman_tpool_clear`
    clear : (p : Pool J) → p.held ≡ false → Step p (dropped p.workq ∷ []) (tpool_clear p)
    -- `resman_tpool_destroy`
    quit : (p : Pool J) → Step p [] (ask_to_quit p)
    quit_wakes : (p : Pool J) → Step p [] (quit_broadcast p)
    -- `thread_func`
    enters :
        (p : Pool J) (i : ℕ)
        → p.held ≡ false
        → At p i starting
        → Step p (proceed_labels p) (proceed p i)
    sleeps :
        (p : Pool J) (i : ℕ) → At p i drowsy → Step p [] (move (record p { held = false }) i asleep)
    wakes : (p : Pool J) (i : ℕ) → At p i asleep → Step p [] (move p i woken)
    resumes :
        (p : Pool J) (i : ℕ)
        → p.held ≡ false
        → At p i woken
        → Step p (proceed_labels p) (proceed p i)
    works : (p : Pool J) (i : ℕ) (j : J) → At p i (running j) → Step p [] (move p i (finished j))
    reports :
        (p : Pool J) (i : ℕ) (j : J)
        → p.held ≡ false
        → At p i (finished j)
        → Step p (completed j ∷ proceed_labels (job_done p)) (proceed (job_done p) i)
    -- `resman_tpool_wait` and `resman_tpool_wait_pending`
    calls : (p : Pool J) (g : Goal) → Step p [] (record p { clients = testing g ∷ p.clients })
    tests :
        (p : Pool J) (k : ℕ) (g : Goal)
        → p.held ≡ false
        → get_elem? p.clients k ≡ some (testing g)
        → Step p [] (record p { clients = set p.clients k (test_goal p g) })
    stirs :
        (p : Pool J) (k : ℕ) (g : Goal)
        → get_elem? p.clients k ≡ some (blocked g)
        → Step p [] (record p { clients = set p.clients k (testing g) })

  -- A run, and what its steps do to the jobs.
  pub data Run (p : Pool J) : List (Label J) → Pool J → Type ℓ where
    at_rest : Run p [] p
    one_more :
        (es : List (Label J)) (q : Pool J) (fs : List (Label J)) (r : Pool J)
        → Run p es q
        → Step q fs r
        → Run p (es ++ fs) r
