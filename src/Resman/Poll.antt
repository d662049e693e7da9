-- ===== src/Resman/Poll.antt =====
-- `resman_poll` of src/resman.c. `answers` are the results of `done_func` by the number of the
-- resource, `start_time` the time when the second loop begins, and `now` the time after the
-- callback for a resource, in milliseconds. Emptying the event pipe is not part of the model.
use libresman.Base.{
  ℕ, zero, suc, ◌+◌, ◌-◌, ◌%◌, ◌^◌, Bool, false, not, ◌&&◌, Option, none, some, Exec, ok,
  if◌then◌else◌, ◌==◌, ltb,
}
use libresman.Base.Outcome.{◌>>=◌}
use libresman.Dynarr.{dynarr_size}
use libresman.Resman.{Resource, Resman, item_at}
use libresman.Resman.Sweep.{call_destroy, doomed}
use libresman.Resman.Watch.{Watch, remove_watched}
use libresman.Resman.Work.{delayed_reload, done_callback, minus_one}

-- The option, an `int`, as an `unsigned long`.
abbrev pub unsigned_long : ℕ → ℕ
unsigned_long opt = if ltb opt (2 ^ 31) then opt else opt + (2 ^ 64 - 2 ^ 32)

-- `timeslice > 0 && now - start_time > timeslice`
abbrev pub late : ℕ → ℕ → ℕ → Bool
late timeslice start_time now =
    ltb 0 timeslice && ltb timeslice ((now + (2 ^ 64 - start_time % 2 ^ 64)) % 2 ^ 64)

-- What `resman_poll` is given by its surroundings.
pub record Polling : Type 0 where
  pub has_done : Bool
  pub answers : ℕ → ℕ
  pub start_time : ℕ
  pub now : ℕ → ℕ
  pub opt : ℕ

module _ {ℓ κ} {D : Type ℓ} {W : Type κ} (watch : Watch D W) where
  -- The body of the first loop.
  unfoldable pub sweep_watched_slot : Resman D → W → ℕ → Option (Resource D) → Exec (Resman D × W)
  sweep_watched_slot rman w i none = ok (rman, w)
  sweep_watched_slot rman w i (some r) =
      if doomed r then remove_watched watch (call_destroy rman i) w i else ok (rman, w)

  unfoldable pub sweep_watched : ℕ → ℕ → Resman D → W → Exec (Resman D × W)
  sweep_watched i zero rman w = ok (rman, w)
  sweep_watched i (suc left) rman w = do
    slot ← item_at rman.res i
    (rman', w') ← sweep_watched_slot rman w i slot
    sweep_watched (i + 1) left rman' w'

  -- The body of the second loop, with whether it breaks off.
  unfoldable pub poll_slot :
      Polling → Resman D → W → ℕ → Option (Resource D) → Exec (Resman D × W × Bool)
  poll_slot p rman w i none = ok (rman, w, false)
  poll_slot p rman w i (some r) =
      if r.done_pending
      then (do
        (rman', w') ← done_callback watch (p.answers i) rman w i r
        ok (
          rman',
          w',
          not ((p.answers i == minus_one) && (r.num_loads == 0))
              && late (unsigned_long p.opt) p.start_time (p.now i),
        ))
      else (do rman' ← delayed_reload p.start_time rman i r; ok (rman', w, false))

  unfoldable pub poll_from : Polling → ℕ → ℕ → Resman D → W → Exec (Resman D × W)
  poll_from p i zero rman w = ok (rman, w)
  poll_from p i (suc left) rman w = do
    slot ← item_at rman.res i
    (rman', w', stop) ← poll_slot p rman w i slot
    if stop then ok (rman', w') else poll_from p (i + 1) left rman' w'

  unfoldable pub resman_poll : Polling → Resman D → W → Exec (Resman D × W)
  resman_poll p rman w =
      let num_res = dynarr_size rman.res in
      do
        (rman1, w1) ← sweep_watched 0 num_res rman w
        (rman2, w2) ← watch.check_watch rman1 w1
        if p.has_done then poll_from p 0 num_res rman2 w2 else ok (rman2, w2)
