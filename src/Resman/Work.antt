-- ===== src/Resman/Work.antt =====
-- Loading in src/resman.c: `work_func`, and the second loop of `resman_poll`. `load_func` and
-- `done_func` are known by what they return; -1 is `2 ^ 32 - 1`.
use libresman.Base.{
  ℕ, ◌+◌, ◌-◌, ◌%◌, ◌^◌, Bool, true, false, not, ◌&&◌, some, Exec, ok, if◌then◌else◌, ◌==◌, leb,
}
use libresman.Base.Outcome.{◌>>=◌}
use libresman.Resman.{Resource, Resman, deref, item_at, write_at, resman_reload, free_task}
use libresman.Resman.Watch.{Watch, remove_watched}

abbrev pub minus_one : ℕ
minus_one = 2 ^ 32 - 1

module _ {ℓ} {D : Type ℓ} where
  -- `res->reload_timeout && res->reload_timeout <= start_time`
  abbrev pub due : ℕ → Resource D → Bool
  due start_time r = not (r.reload_timeout == 0) && leb r.reload_timeout start_time

  -- The branch of the second loop of `resman_poll` for a resource that is not done: a reload that was
  -- put off is started once it is due.
  unfoldable pub delayed_reload : ℕ → Resman D → ℕ → Resource D → Exec (Resman D)
  delayed_reload start_time rman i r =
      if due start_time r
      then (do
        res' ← write_at rman.res i (some (record r { reload_timeout = 0 }))
        resman_reload (record rman { res = res' }) i)
      else ok rman

  -- `work_func` up to where it clears `pending`, which `resman_poll` reads without the lock.
  unfoldable pub clear_pending : ℕ → Resman D → ℕ → Exec (Resman D)
  clear_pending result rman i = do
    slot ← item_at rman.res i
    r ← deref slot
    res' ← write_at rman.res i (some (record r { result = result; pending = false }))
    ok (record rman { res = res'; tasks = free_task rman.tasks })

module _ {ℓ κ} {D : Type ℓ} {W : Type κ} (watch : Watch D W) where
  -- What `work_func` makes of the resource in the slot `i` once it was loaded: `has_done` says whether
  -- there is a `done_func`, `result` is what `load_func` returned.
  unfoldable pub loaded : Bool → ℕ → ℕ → Resource D → W → Exec (Resource D × W)
  loaded true result i r w =
      ok (record r { result = result; pending = false; done_pending = true }, w)
  loaded false result i r w =
      let r1 = record r { result = result; pending = false } in
      if result == minus_one
      then ok (if r.num_loads == 0 then record r1 { delete_pending = true } else r1, w)
      else watch.start_watch i r1 w

  -- `work_func` without interruption: the task goes back to the free list, and the resource is loaded.
  unfoldable pub work_func : Bool → ℕ → Resman D → W → ℕ → Exec (Resman D × W)
  unfolding loaded
  work_func has_done result rman w i = do
    slot ← item_at rman.res i
    r ← deref slot
    (r', w') ← loaded has_done result i r w
    res' ← write_at rman.res i (some r')
    ok (record rman { res = res'; tasks = free_task rman.tasks }, w')

  -- The part of `work_func` from where it tests `done_func`.
  unfoldable pub mark_loaded : Bool → ℕ → Resource D → W → Exec (Resource D × W)
  mark_loaded true i r w = ok (record r { done_pending = true }, w)
  mark_loaded false i r w =
      if r.result == minus_one
      then ok (if r.num_loads == 0 then record r { delete_pending = true } else r, w)
      else watch.start_watch i r w

  unfoldable pub finish_work : Bool → Resman D → W → ℕ → Exec (Resman D × W)
  unfolding mark_loaded
  finish_work has_done rman w i = do
    slot ← item_at rman.res i
    r ← deref slot
    (r', w') ← mark_loaded has_done i r w
    res' ← write_at rman.res i (some r')
    ok (record rman { res = res' }, w')

  -- The branch for a resource that is done; `result` is what `done_func` returned.
  unfoldable pub done_callback : ℕ → Resman D → W → ℕ → Resource D → Exec (Resman D × W)
  done_callback result rman w i r =
      if (result == minus_one) && (r.num_loads == 0) then remove_watched watch rman w i else (do
        (r', w') ←
            watch.start_watch i
              (record r { done_pending = false; num_loads = (r.num_loads + 1) % 2 ^ 32 }) w
        res' ← write_at rman.res i (some r')
        ok (record rman { res = res' }, w'))
