-- ===== src/Tpool/Tests.antt =====
-- Runs of the model of src/tpool.c, and its theorems at concrete runs.
use libresman.Base.{ℕ, ◌<◌, ◌^◌, ◌+◌, ◌≡◌, refl, true, none, some, List, [], ◌∷◌, arith}
use libresman.Tpool.{
  Pool, asleep, woken, Job, run_job, tpool_create, append_job, announce, next_job, all_done,
  blocked, testing, must_wait, test_goal, tpool_pending_jobs, tpool_queued_jobs, tpool_active_jobs,
}
use libresman.Tpool.Steps.{
  append, announces, enters, calls, tests, Label, accepted, started, Run, at_rest, one_more, At,
  proceed,
}
use libresman.Tpool.Counts.{IsValid, total, nodding}
use libresman.Tpool.Order.{Run-queue}
use libresman.Tpool.Pending.{Run-pending, Run-IsValid}
use libresman.Tpool.Wakeups.{dozing, Run-awake}
use libresman.Tpool.Waiters.{Run-must_wait}
use libresman.Tpool.Shutdown.{hung, destroy-hung}
use libresman.Tpool.Items.{
  Wpool, alloc_work_item, free_work_item, IsBounded, alloc_work_item-free_work_item,
}

-- A pool of one worker: two jobs come, the worker takes the first, and a caller waits for all.
abbrev queued_once : Pool ℕ
queued_once = announce (append_job 7 (tpool_create 1))

abbrev queued_twice : Pool ℕ
queued_twice = announce (append_job 8 queued_once)

abbrev begun : Pool ℕ
begun = proceed queued_twice 0

abbrev called : Pool ℕ
called = record begun { clients = testing all_done ∷ [] }

abbrev waiting : Pool ℕ
waiting = record called { clients = test_goal called all_done ∷ [] }

abbrev labels : List (Label ℕ)
labels = accepted 7 ∷ accepted 8 ∷ started 7 ∷ []

run : Run (tpool_create 1) labels waiting
unfolding append_job announce next_job test_goal
run =
    one_more labels called [] waiting
      (one_more labels begun [] called
        (one_more (accepted 7 ∷ accepted 8 ∷ []) queued_twice (started 7 ∷ []) begun
          (one_more (accepted 7 ∷ accepted 8 ∷ []) (append_job 8 queued_once) [] queued_twice
            (one_more (accepted 7 ∷ []) queued_once (accepted 8 ∷ []) (append_job 8 queued_once)
              (one_more (accepted 7 ∷ []) (append_job 7 (tpool_create 1)) [] queued_once
                (one_more [] (tpool_create 1) (accepted 7 ∷ []) (append_job 7 (tpool_create 1))
                  at_rest (append (tpool_create 1) 7 refl))
                (announces (append_job 7 (tpool_create 1)) (omega arith)))
              (append queued_once 8 refl))
            (announces (append_job 8 queued_once) (omega arith)))
          (enters queued_twice 0 refl refl))
        (calls begun all_done))
      (tests called 0 all_done refl refl)

Run-queue_example : 7 ∷ 8 ∷ [] ≡ 7 ∷ waiting.workq
unfolding append_job announce next_job test_goal
Run-queue_example = Run-queue 1 labels waiting run

Run-pending_example :
    (tpool_pending_jobs waiting + 0 + 0 ≡ 2) × (tpool_pending_jobs waiting < 2 ^ 31)
Run-pending_example = Run-pending 1 labels waiting run (omega arith)

Run-awake_example : (total dozing waiting.workers ≡ 0) × (total nodding waiting.workers ≡ 0)
unfolding append_job announce next_job test_goal
Run-awake_example = Run-awake 1 labels waiting run (λ e. absurd (cc e)) refl refl refl

Run-must_wait_example : must_wait waiting all_done ≡ true
unfolding append_job announce next_job test_goal
Run-must_wait_example = Run-must_wait 1 labels waiting run (omega arith) refl 0 all_done refl

Run-IsValid_example : IsValid waiting
Run-IsValid_example = Run-IsValid 1 labels waiting run

-- A pool of two workers that have yet to run.
abbrev pair_pool : Pool ℕ
pair_pool = tpool_create 2

destroy-hung_example :
    (es : List (Label ℕ)) × Run pair_pool es (hung pair_pool 1)
    × At (hung pair_pool 1) 1 asleep
    × ((hung pair_pool 1).should_quit ≡ true)
    × ((hung pair_pool 1).announcing ≡ 0)
    × ((hung pair_pool 1).ending ≡ 0)
destroy-hung_example = destroy-hung pair_pool 1 refl refl refl refl refl

-- A job is queued, no worker has taken it, and a caller waits.
abbrev idle_pool : Pool ℕ
idle_pool = record (tpool_create 1) {
  qsize = 1;
  workq = 7 ∷ [];
  workq_tail = some 7;
  workers = woken ∷ [];
  clients = blocked all_done ∷ [];
}

idle_pool-IsValid : IsValid idle_pool
idle_pool-IsValid = record {
  queued = refl;
  active = refl;
  tail = refl;
  lock = refl;
  idle = λ h. absurd (cc h);
}

abbrev no_items : Wpool ℕ
no_items = record { wpool = []; wpool_size = 0 }

no_items-IsBounded : IsBounded no_items
no_items-IsBounded = record { counted = refl; bounded = omega arith }

alloc_work_item-free_work_item_example :
    alloc_work_item none (free_work_item 3 no_items).0 ≡ (some 3, no_items)
alloc_work_item-free_work_item_example =
    alloc_work_item-free_work_item 3 no_items none no_items-IsBounded (omega arith)

counters : (tpool_queued_jobs waiting ≡ 1) × (tpool_active_jobs waiting ≡ 1)
unfolding append_job announce next_job test_goal tpool_queued_jobs tpool_active_jobs
counters = (refl, refl)

-- A job with a callback for its end.
abbrev job : Job ℕ ℕ
job = record { work = 1; done = some 2; arg = 5 }

calls_of_job : run_job job ≡ (1, 5) ∷ (2, 5) ∷ []
calls_of_job = refl
