-- ===== src/Tpool/Shutdown.antt =====
-- `resman_tpool_destroy` and `resman_tpool_clear` of src/tpool.c against threads that sleep.
use libresman.Base.{
  ℕ, zero, suc, ◌≡◌, ◌∙◌, refl, ap, true, false, some, List, [], ◌∷◌, get_elem?, map, arith,
}
use libresman.Tpool.{
  Pool, Worker, starting, drowsy, asleep, wake, blocked, all_done, must_wait, next_job, tpool_clear,
  ask_to_quit, quit_broadcast,
}
use libresman.Tpool.Turn.{get_elem?-set_at}
use libresman.Tpool.Counts.{IsValid, total, busy}
use libresman.Tpool.Steps.{
  Step, clear, quit, quit_wakes, enters, sleeps, Label, dropped, Run, at_rest, one_more, At, move,
  proceed,
}

module _ {ℓ} {J : Type ℓ} where
  -- The worker `i` takes the mutex before `resman_tpool_destroy` sets `should_quit`, and calls
  -- `pthread_cond_wait` after its broadcast.
  abbrev pub hung : Pool J → ℕ → Pool J
  hung p i =
      move (record (quit_broadcast (ask_to_quit (proceed (tpool_clear p) i))) { held = false }) i
        asleep

  get_elem?-map-wake :
      (ws : List (Worker J)) (i : ℕ) (w : Worker J)
      → get_elem? ws i ≡ some w
      → get_elem? (map wake ws) i ≡ some (wake w)
  get_elem?-map-wake [] i w h = absurd (cc h)
  get_elem?-map-wake (x ∷ ws) zero w h = let e : x ≡ w = cc in ap (λ v. some (wake v)) e
  get_elem?-map-wake (x ∷ ws) (suc i) w h = get_elem?-map-wake ws i w h

  -- A worker that finds the cleared queue gets ready to sleep.
  next_job-tpool_clear :
      (p : Pool J)
      → p.should_quit ≡ false
      → next_job (tpool_clear p) ≡ (record (tpool_clear p) { held = true }, drowsy)
  unfolding next_job tpool_clear
  next_job-tpool_clear p stay = simp stay refl

  drowsy-At :
      (p : Pool J) (i : ℕ)
      → p.should_quit ≡ false
      → At p i starting
      → At (quit_broadcast (ask_to_quit (proceed (tpool_clear p) i))) i drowsy
  unfolding tpool_clear ask_to_quit quit_broadcast
  drowsy-At p i stay at =
      get_elem?-map-wake _ i drowsy
        (rw (next_job-tpool_clear p stay) (get_elem?-set_at p.workers i starting drowsy at))

  -- Where no call of `resman_tpool_enqueue` or `resman_tpool_end_batch` has its broadcast before it,
  -- nothing keeps a worker that starts from sleeping through `resman_tpool_destroy`: there is a run in
  -- which the pool is cleared, `should_quit` is set and the broadcast is made, and after which the
  -- worker sleeps though it should quit, and still no such call has its broadcast before it.
  pub destroy-hung :
      (p : Pool J) (i : ℕ)
      → p.held ≡ false
      → p.should_quit ≡ false
      → p.announcing ≡ 0
      → p.ending ≡ 0
      → At p i starting
      → (es : List (Label J)) × Run p es (hung p i)
        × At (hung p i) i asleep
        × ((hung p i).should_quit ≡ true)
        × ((hung p i).announcing ≡ 0)
        × ((hung p i).ending ≡ 0)
  unfolding tpool_clear ask_to_quit quit_broadcast
  destroy-hung p i free stay none_announced none_ended at =
      let p1 = tpool_clear p in
      let p2 = proceed p1 i in
      let p3 = ask_to_quit p2 in
      let p4 = quit_broadcast p3 in
      let ready = drowsy-At p i stay at in
      (
        _,
        one_more _ p4 _ _
            (one_more _ p3 _ _
              (one_more _ p2 _ _
                (one_more _ p1 _ _ (one_more _ p _ _ at_rest (clear p free)) (enters p1 i free at))
                (quit p2))
              (quit_wakes p3))
            (sleeps p4 i ready),
        get_elem?-set_at p4.workers i drowsy asleep ready,
        refl,
        ap (λ q. q.0.announcing) (next_job-tpool_clear p stay) ∙ none_announced,
        ap (λ q. q.0.ending) (next_job-tpool_clear p stay) ∙ none_ended,
      )

  -- `resman_tpool_clear` wakes nobody: a caller that sleeps in `resman_tpool_wait` while no worker has
  -- a job sleeps on, though what it waits for has come.
  pub clear-blocked :
      (p : Pool J) (k : ℕ)
      → IsValid p
      → p.held ≡ false
      → total busy p.workers ≡ 0
      → get_elem? p.clients k ≡ some (blocked all_done)
      → Step p (dropped p.workq ∷ []) (tpool_clear p)
        × (get_elem? (tpool_clear p).clients k ≡ some (blocked all_done))
        × (must_wait (tpool_clear p) all_done ≡ false)
  unfolding tpool_clear
  clear-blocked p k v free none_busy at = (clear p free, at, ground (arith, v.active, none_busy))
