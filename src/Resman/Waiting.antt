-- ===== src/Resman/Waiting.antt =====
-- `resman_pending`, `resman_wait_job`, `resman_wait_any` and `resman_wait_all` of src/resman.c: what
-- they ask of the thread pool of src/tpool.c.
use libresman.Base.{
  ℕ, ◌^◌, ◌<◌, ◌≡◌, refl, true, Option, none, some, List, Exec, ok, if◌then◌else◌, length, arith,
}
use libresman.Base.Outcome.{◌>>=◌}
use libresman.Tpool.{
  Pool, Goal, all_done, pending_target, blocked, test_goal, tpool_pending_jobs, tpool_create, dec32,
  gt32, add32,
}
use libresman.Tpool.Steps.{Run, Label}
use libresman.Tpool.Order.{accepted_jobs}
use libresman.Tpool.Pending.{Run-pending}
use libresman.Resman.{Resource, Resman, deref, item_at}

module _ {ℓ} {J : Type ℓ} where
  unfoldable pub resman_pending : Pool J → ℕ
  resman_pending tpool = tpool_pending_jobs tpool

  -- What `resman_wait_any` waits for, when it finds the pool in the state `tpool`.
  unfoldable pub resman_wait_any : Pool J → Goal
  resman_wait_any tpool = pending_target (dec32 (tpool_pending_jobs tpool))

  -- One turn of the loop of `resman_wait_job`; `none` ends it.
  unfoldable pub resman_wait_job {κ} : {D : Type κ} → Resman D → Pool J → ℕ → Exec (Option Goal)
  resman_wait_job rman tpool id = do
    slot ← item_at rman.res id
    r ← deref slot
    ok (if r.pending then some (pending_target (dec32 (tpool_pending_jobs tpool))) else none)

abbrev pub resman_wait_all : Goal
resman_wait_all = all_done

never_met : (x : ℕ) → x < 2 ^ 31 → gt32 x (dec32 0) ≡ true
never_met x small = ground (arith, small)

module _ {ℓ κ} {J : Type ℓ} {D : Type κ} where
  -- A caller of `resman_wait_any` who finds no job pending never returns: whatever state the pool comes
  -- to, while fewer than 2 ^ 31 jobs are accepted, the test sends the caller back to sleep. The same
  -- goes for a caller of `resman_wait_job` who saw the resource pending but asks the pool for its jobs
  -- only after the last of them has ended.
  pub resman_wait_any-blocked :
      (idle : Pool J) (rman : Resman D) (id : ℕ) (res : Resource D)
      → resman_pending idle ≡ 0
      → item_at rman.res id ≡ ok (some res)
      → res.pending ≡ true
      → (n : ℕ) (es : List (Label J)) (later : Pool J) → Run (tpool_create n) es later
      → length (accepted_jobs es) < 2 ^ 31
      → (test_goal later (resman_wait_any idle) ≡ blocked (resman_wait_any idle))
        × (resman_wait_job rman idle id ≡ ok (some (resman_wait_any idle)))
  unfolding resman_pending resman_wait_any resman_wait_job test_goal tpool_pending_jobs
  resman_wait_any-blocked idle rman id res none_open at pending n es later run few =
      let count : add32 later.qsize later.nactive < 2 ^ 31 = (Run-pending n es later run few).1 in
      (rw (none_open, never_met _ count) refl, rw (at, pending) refl)
