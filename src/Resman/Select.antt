-- ===== src/Resman/Select.antt =====
-- `resman_wait`, `wait_for_any_event` and `resman_get_wait_fds` of src/resman.c, on Unix. A file
-- descriptor is the bit pattern of an `int`; `answers` are the results of `select`, call by call.
use libresman.Base.{
  ℕ, zero, suc, ◌+◌, ◌%◌, ◌^◌, Bool, true, false, Option, none, some, List, [], ◌∷◌, ◌++◌, Exec, ok,
  out_of_bounds, no_fuel, if◌then◌else◌, ltb, ◌==◌,
}
use libresman.Base.Outcome.{◌>>=◌}
use libresman.Dynarr.{Dynarr, dynarr_size}
use libresman.Tpool.{gt32}
use libresman.Resman.{item_at}

-- `FD_SETSIZE`
abbrev pub fd_setsize : ℕ
fd_setsize = 1024

-- What a call of `select` ends with.
pub data Answer : Type 0 where
  interrupted : Answer
  failed : Answer
  ready : Answer

-- `FD_SET(fd, &rdset)`
abbrev pub fd_set : ℕ → List ℕ → Exec (List ℕ)
fd_set fd rdset = if ltb fd fd_setsize then ok (rdset ++ fd ∷ []) else out_of_bounds

-- The loop that fills the set, with the descriptors from `i` left.
unfoldable pub collect_fds : Dynarr ℕ → ℕ → ℕ → List ℕ → ℕ → Exec (List ℕ × ℕ)
collect_fds wait_fds i zero rdset maxfd = ok (rdset, maxfd)
collect_fds wait_fds i (suc left) rdset maxfd = do
  fd ← item_at wait_fds i
  rdset' ← fd_set fd rdset
  collect_fds wait_fds (i + 1) left rdset' (if gt32 fd maxfd then fd else maxfd)

-- The loop around `select`: whether it failed.
unfoldable pub select_loop : List Answer → Exec Bool
select_loop [] = no_fuel
select_loop (interrupted ∷ answers) = select_loop answers
select_loop (failed ∷ answers) = ok true
select_loop (ready ∷ answers) = ok false

-- `none` where there is nothing to wait for; else the set and the number that `select` is given, and
-- whether it failed.
unfoldable pub wait_for_any_event : Dynarr ℕ → List Answer → Exec (Option (List ℕ × ℕ × Bool))
wait_for_any_event wait_fds answers =
    let numfds = dynarr_size wait_fds in
    if numfds == 0 then ok none else (do
      (rdset, maxfd) ← collect_fds wait_fds 0 numfds [] 0
      res ← select_loop answers
      ok (some (rdset, (maxfd + 1) % 2 ^ 32, res)))

unfoldable pub resman_wait : Dynarr ℕ → List Answer → Exec (Option (List ℕ × ℕ × Bool))
resman_wait wait_fds answers = wait_for_any_event wait_fds answers

-- The array, and `*num_fds`.
unfoldable pub resman_get_wait_fds : Dynarr ℕ → Dynarr ℕ × ℕ
resman_get_wait_fds wait_fds = (wait_fds, dynarr_size wait_fds)
