-- ===== src/Tpool/Timed.antt =====
-- `resman_tpool_timedwait` of src/tpool.c, on Unix, and `resman_tpool_get_wait_fd`.
-- `pthread_cond_timedwait` is the parameter `wait`: the pool after it, and what it gives.
use libresman.Base.{
  ℕ, zero, suc, ◌+◌, ◌*◌, ◌/◌, ◌%◌, ◌≤◌, ◌≡◌, refl, Bool, true, false, none, some, Exec, ok,
  no_fuel, if◌then◌else◌,
}
use libresman.Base.Outcome.{◌>>=◌}
use libresman.Timer.{Time, elapsed}
use libresman.Tpool.{Pool, all_done, must_wait}

-- The results of `pthread_cond_timedwait`: 0, `ETIMEDOUT`, and `EINVAL`.
pub data Wake : Type 0 where
  signalled : Wake
  timed_out : Wake
  invalid : Wake

-- `tout_ts`: the time `tv0` in microseconds, and `timeout` milliseconds more, in nanoseconds.
unfoldable pub deadline : Time → ℕ → Time
deadline tv0 timeout = record {
  sec = tv0.sec + timeout / 1000;
  rest = tv0.rest * 1000 + (timeout % 1000) * 1000000;
}

abbrev pub on_wake {ℓ} : {A : Type ℓ} → Wake → A → A → A
on_wake timed_out stop rest = stop
on_wake signalled stop rest = rest
on_wake invalid stop rest = rest

module _ {ℓ} {J : Type ℓ} (wait : Pool J → Time → Pool J × Wake) where
  -- The loop, on a pool whose mutex is held. It ends when nothing is pending, or on `ETIMEDOUT`.
  unfoldable pub timed_loop : ℕ → Time → Pool J → Exec (Pool J)
  timed_loop zero tout_ts p = no_fuel
  timed_loop (suc fuel) tout_ts p =
      let rest = timed_loop fuel tout_ts (wait p tout_ts).0 in
      if must_wait p all_done then on_wake (wait p tout_ts).1 (ok (wait p tout_ts).0) rest else ok p

  -- The whole call, with the time `tv` at its end: the time it took, in milliseconds.
  unfoldable pub tpool_timedwait : ℕ → Time → Time → ℕ → Pool J → Exec (Pool J × ℕ)
  unfolding timed_loop deadline elapsed
  tpool_timedwait fuel tv0 tv timeout p = do
    p' ← timed_loop fuel (deadline tv0 timeout) p
    ok (p', elapsed 1000 tv0 tv)

  timed_loop-invalid :
      (fuel : ℕ) (ts : Time) (p : Pool J)
      → wait p ts ≡ (p, invalid)
      → must_wait p all_done ≡ true
      → timed_loop fuel ts p ≡ no_fuel
  unfolding timed_loop
  timed_loop-invalid zero ts p e busy = refl
  timed_loop-invalid (suc fuel) ts p e busy = rw (busy, e) (timed_loop-invalid fuel ts p e busy)

  -- `pthread_cond_timedwait` refuses a time whose nanoseconds make a second or more, without letting go
  -- of the mutex. When the nanoseconds of the deadline come to that, which nothing prevents, and a job
  -- is pending, the call of `resman_tpool_timedwait` never returns, however many turns the loop takes:
  -- it keeps the mutex, so that no worker can end the job.
  pub tpool_timedwait-stuck :
      (documented : (p : Pool J) (ts : Time) → 1000000000 ≤ ts.rest → wait p ts ≡ (p, invalid))
      (fuel : ℕ) (tv0 tv : Time) (timeout : ℕ) (p : Pool J)
      → 1000000000 ≤ tv0.rest * 1000 + (timeout % 1000) * 1000000
      → must_wait p all_done ≡ true
      → tpool_timedwait fuel tv0 tv timeout p ≡ no_fuel
  unfolding tpool_timedwait deadline
  tpool_timedwait-stuck documented fuel tv0 tv timeout p long busy =
      let ts : Time = deadline tv0 timeout in
      rw (timed_loop-invalid fuel ts p (documented p ts long) busy) refl

-- `resman_tpool_get_wait_fd`: whether there is a pipe to give, and the pool after it; `granted` says
-- whether `pipe` makes one.
unfoldable pub tpool_get_wait_fd {ℓ} : {J : Type ℓ} → Bool → Pool J → Bool × Pool J
tpool_get_wait_fd granted p = elim p.piped [
  | none ↦ if granted then (true, record p { piped = some 0 }) else (false, p)
  | some n ↦ (true, p)
]
