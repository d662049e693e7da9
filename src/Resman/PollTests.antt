-- ===== src/Resman/PollTests.antt =====
-- Polling, waiting, setting up and watching in the model of src/resman.c, at concrete tables.
use libresman.Base.{
  ℕ, ◌+◌, ◌<◌, true, zero, suc, ◌≡◌, refl, subst, Bool, true, false, Option, none, some, List, [],
  ◌∷◌, Exec, ok, null_deref, arith,
}
use libresman.Base.Int.{ℤ, pos}
use libresman.Dynarr.{Dynarr, dynarr_size}
use libresman.Dynarr.Stack.{Holds}
use libresman.Tpool.{tpool_create, blocked, test_goal, tpool_pending_jobs}
use libresman.Tpool.Steps
use libresman.Rbtree.Keying.{rb_init, key_int}
use libresman.Resman.{
  Resource, Resman, new_resource, item_at, write_at, erase_resource, resman_reload,
}
use libresman.Resman.Watch.{no_watch, remove_watched}
use libresman.Resman.Work.{minus_one, done_callback, delayed_reload}
use libresman.Resman.Life.{Life, Run}
use libresman.Resman.Poll.{
  Polling, resman_poll, poll_from, poll_slot, sweep_watched, sweep_watched_slot,
}
use libresman.Resman.Polled.{poll_from-polled}
use libresman.Resman.Refine.{Calm, AllCalm}
use libresman.Resman.Owed.{Owed, count}
use libresman.Resman.Returns.{resman_poll-Run}
use libresman.Resman.Waiting.{
  resman_pending, resman_wait_any, resman_wait_job, resman_wait_any-blocked,
}
use libresman.Resman.Setup.{SharedPool, Manager, resman_destroy, resman_init}
use libresman.Resman.Teardown.{resman_destroy-resman_init}
use libresman.Resman.Inotify.{Inotify, InotifyEvent, event_loop}
use libresman.Resman.Unwatch.{inotify_watch, remove_watched-alone}
use libresman.Resman.Events.{event_loop-third}

-- "a" is done, "b" waits for a reload that was put off, and "c" is marked for deletion.
abbrev done_one : Resource ℕ
done_one = record (new_resource (97 ∷ []) 11) { done_pending = true }

abbrev late_one : Resource ℕ
late_one = record (new_resource (98 ∷ []) 22) { id = 1; reload_timeout = 5 }

abbrev marked_one : Resource ℕ
marked_one = record (new_resource (99 ∷ []) 33) { id = 2; delete_pending = true }

abbrev three_rman : Resman ℕ
three_rman = record {
  res = record {
    nelem = 3;
    szelem = 8;
    max_elem = 4;
    bufsz = 32;
    slots = some (some done_one) ∷ some (some late_one) ∷ some (some marked_one) ∷ none ∷ [];
  };
  tasks = 0;
  jobs = [];
  destroy_func = true;
  destroyed = [];
}

abbrev three_slots : List (Option (Resource ℕ))
three_slots = some done_one ∷ some late_one ∷ some marked_one ∷ []

three-Holds : Holds three_rman.res three_slots
three-Holds = record {
  counted = refl;
  rest = none ∷ [];
  stored = refl;
  sized = refl;
  item_pos = omega arith;
  fits = omega arith;
  bytes = refl;
  dense = omega arith;
}

-- The first load of "a" fails.
abbrev failing : Polling
failing = record {
  has_done = true;
  answers = λ i. minus_one;
  start_time = 10;
  now = λ i. 11;
  opt = 16;
}

poll_from-polled_example :
    (rman' : Resman ℕ) × (poll_from no_watch failing 0 3 three_rman tt ≡ ok (rman', tt))
    × Holds rman'.res (
        none ∷ some (record late_one { reload_timeout = 0; pending = true }) ∷ some marked_one ∷ [])
    × (rman'.jobs ≡ 1 ∷ [])
    × (rman'.destroyed ≡ 0 ∷ [])
poll_from-polled_example = poll_from-polled failing three_rman [] three_slots tt three-Holds refl

-- The whole call.
abbrev polled_rman : Resman ℕ
polled_rman = record three_rman {
  res = record three_rman.res {
    slots =
        some none
        ∷ some (some (record late_one { reload_timeout = 0; pending = true }))
        ∷ some none
        ∷ none
        ∷ [];
  };
  jobs = 1 ∷ [];
  destroyed = 2 ∷ 2 ∷ 0 ∷ [];
}

poll_three : resman_poll no_watch failing three_rman tt ≡ ok (polled_rman, tt)
unfolding resman_poll poll_from poll_slot sweep_watched sweep_watched_slot remove_watched
    erase_resource item_at write_at done_callback delayed_reload resman_reload dynarr_size
poll_three = refl

along : (y x : Option (Resource ℕ)) → some y ≡ some x → Calm y → Calm x
along y x e c = let same : y ≡ x = cc e in subst Calm same c

three-AllCalm : AllCalm three_slots
three-AllCalm zero x at = along _ x at (λ p. refl)
three-AllCalm (suc zero) x at = along _ x at (λ p. cc)
three-AllCalm (suc (suc zero)) x at = along _ x at (λ p. refl)
three-AllCalm (suc (suc (suc i))) x at = cc

three-Owed : Owed three_slots [] []
three-Owed zero = (refl, refl)
three-Owed (suc zero) = (refl, refl)
three-Owed (suc (suc zero)) = (refl, refl)
three-Owed (suc (suc (suc i))) = refl

abbrev before_poll : Life ℕ (Unit {0})
before_poll = record { rman = three_rman; watched = tt; running = []; finishing = [] }

resman_poll-Run_example :
    (rman' : Resman ℕ) × (resman_poll no_watch failing three_rman tt ≡ ok (rman', tt))
    × Run no_watch before_poll (record before_poll { rman = rman' })
    × ((i : ℕ)
        → 0 < count i rman'.jobs + count i []
        → (r : Resource ℕ) × (item_at rman'.res i ≡ ok (some r)) × (r.pending ≡ true))
resman_poll-Run_example =
    resman_poll-Run failing before_poll three_slots three-Holds refl three-AllCalm three-Owed

idle_pool : resman_pending (tpool_create {J = ℕ} 1) ≡ 0
unfolding resman_pending tpool_pending_jobs
idle_pool = refl

waiting_one :
    item_at polled_rman.res 1 ≡ ok (some (record late_one { reload_timeout = 0; pending = true }))
unfolding item_at
waiting_one = refl

-- A pool with one thread and no job.
resman_wait_any-blocked_example :
    (test_goal (tpool_create {J = ℕ} 1) (resman_wait_any (tpool_create {J = ℕ} 1))
      ≡ blocked (resman_wait_any (tpool_create {J = ℕ} 1)))
    × (resman_wait_job polled_rman (tpool_create {J = ℕ} 1) 1
        ≡ ok (some (resman_wait_any (tpool_create {J = ℕ} 1))))
resman_wait_any-blocked_example =
    resman_wait_any-blocked (tpool_create 1) polled_rman 1
      (record late_one { reload_timeout = 0; pending = true }) idle_pool waiting_one refl 1 []
      (tpool_create 1) Steps.at_rest (omega arith)

abbrev three_manager : Manager ℕ (Unit {0})
three_manager = record {
  rman = three_rman;
  watched = tt;
  tpool_wait_fd = 3;
  wait_fds = record { nelem = 1; szelem = 4; max_elem = 1; bufsz = 4; slots = some 3 ∷ [] };
  options = 16 ∷ [];
}

abbrev last_ref : SharedPool
last_ref = record { nref = 1; num_threads = 2; destroyed = false }

resman_destroy-resman_init_example :
    (tpool' : SharedPool) × (resman_destroy three_manager (some last_ref)
      ≡ ok (0 ∷ 1 ∷ 2 ∷ [], some tpool'))
    × (tpool'.destroyed ≡ true)
    × ((can_create : Bool) (env : Option ℤ) (processors : ℤ) (mem : ℕ → Bool) (wait_fd : ℕ)
          (monitor : Dynarr ℕ → Exec (Option (Dynarr ℕ × Unit {0})))
          (q : Option SharedPool × Option (Manager ℕ (Unit {0})))
        → resman_init can_create env processors mem wait_fd monitor (some tpool') ≡ ok q
        → q.0 ≡ some (record tpool' { nref = 1 }))
resman_destroy-resman_init_example =
    resman_destroy-resman_init three_manager three_slots last_ref three-Holds refl refl

-- Nothing is watched yet.
abbrev no_strcmp : ℕ → ℕ → ℤ
no_strcmp a b = pos 0

abbrev no_watches : Inotify
no_watches = record {
  nresmap = rb_init no_strcmp key_int;
  modset = rb_init no_strcmp key_int;
  added = some 1 ∷ [];
  reads = [];
  rm_calls = [];
  msec = 0;
}

remove_watched-alone_example :
    (r' : Resource ℕ) × (w' : Inotify) × (inotify_watch.start_watch 0 done_one no_watches
      ≡ ok (r', w'))
    × (r'.nfd ≡ 1)
    × ((rman : Resman ℕ)
        → item_at rman.res 0 ≡ ok (some r')
        → remove_watched inotify_watch rman w' 0 ≡ null_deref)
remove_watched-alone_example =
    remove_watched-alone no_strcmp 0 1 [] done_one no_watches refl refl refl (omega arith)

-- Three events, one behind the other.
abbrev modified : InotifyEvent
modified = record { wd = 1; in_modify = true; in_close_write = false; in_ignored = false; len = 0 }

event_loop-third_example :
    ¬ (event_loop 33 (λ off. modified) 0 48 three_rman no_watches ≡ ok (three_rman, no_watches))
event_loop-third_example =
    event_loop-third (λ off. modified) 30 48 three_rman no_watches (three_rman, no_watches) refl
      refl (omega arith) (omega arith)
