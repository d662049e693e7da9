-- ===== src/Tpool.antt =====
-- src/tpool.c: the state of a thread pool, and what its threads and its callers do to it. Whatever
-- is done while `workq_mutex` is held is one step, but for the call of `pthread_cond_wait` by a
-- worker: `should_quit` and broadcasts are free of the mutex and may come right before it. An `int`
-- is its bit pattern, below 2 ^ 32.
pub mod Steps
pub mod Turn
pub mod Counts
pub mod Invariant
pub mod Order
pub mod Pending
pub mod Wakeups
pub mod Waiters
pub mod Shutdown
pub mod Items
pub mod Timed
mod Tests
mod TimedTests
use libresman.Base.{
  ℕ, ◌+◌, ◌-◌, ◌%◌, ◌^◌, Bool, true, false, not, ◌||◌, Option, none, some, List, [], ◌∷◌, ◌++◌, map,
  if◌then◌else◌, ltb, ◌==◌, length, replicate,
}

-- `++x`, `--x`, `x + y` and `x > y` on `int`
abbrev pub inc32 : ℕ → ℕ
inc32 x = (x + 1) % 2 ^ 32

abbrev pub dec32 : ℕ → ℕ
dec32 x = (x + (2 ^ 32 - 1)) % 2 ^ 32

abbrev pub add32 : ℕ → ℕ → ℕ
add32 x y = (x + y) % 2 ^ 32

abbrev pub gt32 : ℕ → ℕ → Bool
gt32 x y = ltb ((y + 2 ^ 31) % 2 ^ 32) ((x + 2 ^ 31) % 2 ^ 32)

-- `struct work_item`, `C` the callbacks and `A` their arguments; the link is the queue's.
pub record Job {ℓ κ} (C : Type ℓ) (A : Type κ) : Type (ℓ ⊔ κ) where
  pub work : C
  pub done : Option C
  pub arg : A

-- Where a worker is in `thread_func`.
pub data Worker {ℓ} (J : Type ℓ) : Type ℓ where
  -- about to take the mutex for the first time
  starting : Worker J
  -- holding the mutex, about to call `pthread_cond_wait`
  drowsy : Worker J
  -- in `pthread_cond_wait`, not woken
  asleep : Worker J
  -- woken, about to take the mutex again
  woken : Worker J
  -- about to call the callbacks of its job, without the mutex
  running : J → Worker J
  -- past the callbacks, about to take the mutex again
  finished : J → Worker J
  -- past the loop
  stopped : Worker J

-- What a caller waits for: `resman_tpool_wait`, or `resman_tpool_wait_pending` with its target.
pub data Goal : Type 0 where
  all_done : Goal
  pending_target : ℕ → Goal

-- Where a caller is in one of these functions.
pub data Client : Type 0 where
  -- about to take the mutex and test the condition
  testing : Goal → Client
  -- in `pthread_cond_wait`, not woken
  blocked : Goal → Client
  returned : Client

-- `struct resman_thread_pool`, with its threads and the callers that wait on `done_condvar`. `held`
-- says that a drowsy worker holds the mutex, `announcing` and `ending` how many calls of
-- `resman_tpool_enqueue` and `resman_tpool_end_batch` are about to end with a broadcast. `piped` is
-- what is in the pipe, `none` before there is one.
pub record Pool {ℓ} (J : Type ℓ) : Type ℓ where
  pub qsize : ℕ
  pub workq : List J
  pub workq_tail : Option J
  pub nactive : ℕ
  pub should_quit : Bool
  pub in_batch : Bool
  pub workers : List (Worker J)
  pub clients : List Client
  pub held : Bool
  pub announcing : ℕ
  pub ending : ℕ
  pub piped : Option ℕ

module _ {ℓ κ} {C : Type ℓ} {A : Type κ} where
  -- The calls of a worker between its two critical sections.
  abbrev pub run_job : Job C A → List (C × A)
  run_job job = (job.work, job.arg) ∷ elim job.done [ none ↦ [] | some f ↦ (f, job.arg) ∷ [] ]

-- A caller that a broadcast on `done_condvar` reaches.
abbrev pub rouse : Client → Client
rouse (blocked g) = testing g
rouse c = c

module _ {ℓ} {J : Type ℓ} where
  -- `pthread_cond_broadcast(&tpool->workq_condvar)`
  abbrev pub wake : Worker J → Worker J
  wake asleep = woken
  wake w = w

  abbrev pub broadcast_workq : Pool J → Pool J
  broadcast_workq p = record p { workers = map wake p.workers }

  -- `pthread_cond_broadcast(&tpool->done_condvar)`
  abbrev pub broadcast_done : Pool J → Pool J
  broadcast_done p = record p { clients = map rouse p.clients }

  -- `send_done_event`
  abbrev pub send_done_event : Pool J → Pool J
  send_done_event p = record p { piped = elim p.piped [ none ↦ none | some n ↦ some (n + 1) ] }

  -- The pool that `resman_tpool_create` leaves, its threads started.
  abbrev pub tpool_create : ℕ → Pool J
  tpool_create num_threads = record {
    qsize = 0;
    workq = [];
    workq_tail = none;
    nactive = 0;
    should_quit = false;
    in_batch = false;
    workers = replicate num_threads starting;
    clients = [];
    held = false;
    announcing = 0;
    ending = 0;
    piped = none;
  }

  -- The critical section of `resman_tpool_enqueue`.
  unfoldable pub append_job : J → Pool J → Pool J
  append_job job p = record p {
    workq = p.workq ++ job ∷ [];
    workq_tail = some job;
    qsize = inc32 p.qsize;
    announcing = p.announcing + 1;
  }

  -- Its end: `if(!tpool->in_batch) pthread_cond_broadcast(...)`.
  unfoldable pub announce : Pool J → Pool J
  announce p =
      let q = record p { announcing = p.announcing - 1 } in
      if p.in_batch then q else broadcast_workq q

  unfoldable pub tpool_begin_batch : Pool J → Pool J
  tpool_begin_batch p = record p { in_batch = true }

  -- `resman_tpool_end_batch`, up to its broadcast and from there.
  unfoldable pub leave_batch : Pool J → Pool J
  leave_batch p = record p { in_batch = false; ending = p.ending + 1 }

  unfoldable pub end_batch_broadcast : Pool J → Pool J
  end_batch_broadcast p = broadcast_workq (record p { ending = p.ending - 1 })

  unfoldable pub tpool_clear : Pool J → Pool J
  tpool_clear p = record p { workq = []; workq_tail = none; qsize = 0 }

  unfoldable pub tpool_queued_jobs : Pool J → ℕ
  tpool_queued_jobs p = p.qsize

  unfoldable pub tpool_active_jobs : Pool J → ℕ
  tpool_active_jobs p = p.nactive

  unfoldable pub tpool_pending_jobs : Pool J → ℕ
  tpool_pending_jobs p = add32 p.qsize p.nactive

  -- The condition of the loops in `resman_tpool_wait` and `resman_tpool_wait_pending`.
  abbrev pub must_wait : Pool J → Goal → Bool
  must_wait p all_done = not (p.nactive == 0) || not (p.qsize == 0)
  must_wait p (pending_target t) = gt32 (add32 p.qsize p.nactive) t

  -- One turn of these loops: to sleep, or out.
  unfoldable pub test_goal : Pool J → Goal → Client
  test_goal p g = if must_wait p g then blocked g else returned

  -- `thread_func` from the point where it holds the mutex, outside the inner loop's body: it leaves
  -- the loops, gets ready to sleep, or takes the first job.
  unfoldable pub next_job : Pool J → Pool J × Worker J
  next_job p = if p.should_quit then (p, stopped) else elim p.workq [
    | [] ↦ (record p { held = true }, drowsy)
    | job ∷ rest ↦ (
      record p {
        workq = rest;
        workq_tail = elim rest [ [] ↦ none | _ ∷ _ ↦ p.workq_tail ];
        nactive = inc32 p.nactive;
        qsize = dec32 p.qsize;
      },
      running job,
    )
  ]

  -- The end of the inner loop's body: the job is done.
  unfoldable pub job_done : Pool J → Pool J
  job_done p = let q = send_done_event (broadcast_done p) in record q { nactive = dec32 q.nactive }

  -- The two steps of `resman_tpool_destroy` after the call of `resman_tpool_clear`.
  unfoldable pub ask_to_quit : Pool J → Pool J
  ask_to_quit p = record p { should_quit = true }

  unfoldable pub quit_broadcast : Pool J → Pool J
  quit_broadcast p = broadcast_workq p
