-- ===== src/Tpool/Invariant.antt =====
-- The steps of src/tpool.c keep the counters and pointers of a pool in order.
use libresman.Base.{
  ℕ, ◌%◌, ◌^◌, ◌≡◌, refl, subst, sym, ap, ◌∙◌, false, List, [], ◌∷◌, length, length-append, arith,
  inl, inr, Bool-cases,
}
use libresman.Tpool.{
  Pool, Worker, starting, drowsy, asleep, woken, running, finished, stopped, append_job, announce,
  tpool_begin_batch, leave_batch, end_batch_broadcast, tpool_clear, job_done, ask_to_quit,
  quit_broadcast, broadcast_workq, test_goal,
}
use libresman.Tpool.Turn.{taken, next_job-cases, proceed-move, get_elem?-set_at}
use libresman.Tpool.Steps.{
  Step, Label, append, announces, begin_batch, end_batch, end_broadcast, clear, quit, quit_wakes,
  enters, sleeps, wakes, resumes, works, reports, calls, tests, stirs, At, move, proceed,
}
use libresman.Tpool.Counts.{
  last, last-snoc, busy, nodding, total-set, total-map-wake, busy-wake, nodding-wake, IsValid,
}

module _ {ℓ} {J : Type ℓ} where
  taken-tail :
      (p : Pool J) (j : J) (rest : List J)
      → p.workq_tail ≡ last (j ∷ rest)
      → (taken p rest).workq_tail ≡ last rest
  taken-tail p j [] h = refl
  taken-tail p j (x ∷ rest) h = h

  -- A worker without a job that holds the mutex goes on.
  proceed-IsValid :
      (p : Pool J) (i : ℕ) (w : Worker J)
      → IsValid p
      → p.held ≡ false
      → At p i w
      → busy w ≡ 0
      → nodding w ≡ 0
      → IsValid (proceed p i)
  proceed-IsValid p i w v free at b n =
      let move_busy = total-set busy p.workers i w in
      let move_nod = total-set nodding p.workers i w in
      elim (next_job-cases p) [
        | inl e ↦ rw e (record {
          queued = v.queued;
          active = v.active ∙ ap (λ m. m % 2 ^ 32) (omega (arith, move_busy stopped at, b));
          tail = v.tail;
          lock = omega (arith, move_nod stopped at, n, v.lock);
          idle = v.idle;
        })
        | inr (inl (none_left, e)) ↦ rw e (record {
          queued = v.queued;
          active = v.active ∙ ap (λ m. m % 2 ^ 32) (omega (arith, move_busy drowsy at, b));
          tail = v.tail;
          lock = ground (arith, move_nod drowsy at, n, v.lock);
          idle = λ h. none_left;
        })
        | inr (inr (j, rest, some_left, e)) ↦ rw e (record {
          queued = omega (arith, v.queued, ap length some_left);
          active = omega (arith, v.active, move_busy (running j) at, b);
          tail = taken-tail p j rest (v.tail ∙ ap last some_left);
          lock = omega (arith, move_nod (running j) at, n, v.lock);
          idle = λ h. absurd (cc (free, h));
        })
      ]

  move-IsValid :
      (p : Pool J) (i : ℕ) (w w' : Worker J)
      → IsValid p
      → At p i w
      → busy w' ≡ busy w
      → nodding w' ≡ nodding w
      → IsValid (move p i w')
  move-IsValid p i w w' v at b n = record {
    queued = v.queued;
    active = v.active ∙ ap (λ m. m % 2 ^ 32) (omega (arith, total-set busy p.workers i w w' at, b));
    tail = v.tail;
    lock = omega (arith, total-set nodding p.workers i w w' at, n, v.lock);
    idle = v.idle;
  }

  woken-IsValid : (p : Pool J) → IsValid p → IsValid (broadcast_workq p)
  woken-IsValid p v = record {
    queued = v.queued;
    active = v.active ∙ ap (λ m. m % 2 ^ 32) (sym (total-map-wake busy busy-wake p.workers));
    tail = v.tail;
    lock = total-map-wake nodding nodding-wake p.workers ∙ v.lock;
    idle = v.idle;
  }

  -- A worker that reports its job no longer has it.
  job_done-IsValid :
      (p : Pool J) (i : ℕ) (j : J)
      → IsValid p
      → At p i (finished j)
      → IsValid (move (job_done p) i woken)
  unfolding job_done
  job_done-IsValid p i j v at = record {
    queued = v.queued;
    active = omega (arith, v.active, total-set busy p.workers i (finished j) woken at);
    tail = v.tail;
    lock = omega (arith, total-set nodding p.workers i (finished j) woken at, v.lock);
    idle = v.idle;
  }

  -- Every step keeps the pool valid.
  pub Step-IsValid :
      (p : Pool J) (es : List (Label J)) (q : Pool J) → Step p es q → IsValid p → IsValid q
  unfolding append_job announce tpool_begin_batch leave_batch end_batch_broadcast tpool_clear
      job_done ask_to_quit quit_broadcast test_goal
  Step-IsValid _ _ _ (append p j free) v = record {
    queued = omega (arith, v.queued, length-append p.workq (j ∷ []));
    active = v.active;
    tail = sym (last-snoc p.workq j);
    lock = v.lock;
    idle = λ h. absurd (cc (free, h));
  }
  Step-IsValid _ _ _ (announces p some_call) v = elim (Bool-cases p.in_batch) [
    | inl batch ↦ rw batch (record {
      queued = v.queued;
      active = v.active;
      tail = v.tail;
      lock = v.lock;
      idle = v.idle;
    })
    | inr single ↦ rw single (
        woken-IsValid _ (record {
          queued = v.queued;
          active = v.active;
          tail = v.tail;
          lock = v.lock;
          idle = v.idle;
        }))
  ]
  Step-IsValid _ _ _ (begin_batch p) v = record {
    queued = v.queued;
    active = v.active;
    tail = v.tail;
    lock = v.lock;
    idle = v.idle;
  }
  Step-IsValid _ _ _ (end_batch p) v = record {
    queued = v.queued;
    active = v.active;
    tail = v.tail;
    lock = v.lock;
    idle = v.idle;
  }
  Step-IsValid _ _ _ (end_broadcast p some_call) v =
      woken-IsValid _ (record {
        queued = v.queued;
        active = v.active;
        tail = v.tail;
        lock = v.lock;
        idle = v.idle;
      })
  Step-IsValid _ _ _ (clear p free) v = record {
    queued = refl;
    active = v.active;
    tail = refl;
    lock = v.lock;
    idle = λ h. refl;
  }
  Step-IsValid _ _ _ (quit p) v = record {
    queued = v.queued;
    active = v.active;
    tail = v.tail;
    lock = v.lock;
    idle = v.idle;
  }
  Step-IsValid _ _ _ (quit_wakes p) v = woken-IsValid p v
  Step-IsValid _ _ _ (enters p i free at) v = proceed-IsValid p i starting v free at refl refl
  Step-IsValid _ _ _ (sleeps p i at) v = record {
    queued = v.queued;
    active =
        v.active
        ∙ ap (λ m. m % 2 ^ 32) (omega (arith, total-set busy p.workers i drowsy asleep at));
    tail = v.tail;
    lock = ground (arith, total-set nodding p.workers i drowsy asleep at, v.lock);
    idle = λ h. absurd (cc h);
  }
  Step-IsValid _ _ _ (wakes p i at) v = move-IsValid p i asleep woken v at refl refl
  Step-IsValid _ _ _ (resumes p i free at) v = proceed-IsValid p i woken v free at refl refl
  Step-IsValid _ _ _ (works p i j at) v = move-IsValid p i (running j) (finished j) v at refl refl
  Step-IsValid _ _ _ (reports p i j free at) v = subst IsValid (proceed-move (job_done p) i woken) (
      proceed-IsValid (move (job_done p) i woken) i woken (job_done-IsValid p i j v at) free
        (get_elem?-set_at p.workers i _ _ at) refl refl)
  Step-IsValid _ _ _ (calls p g) v = record {
    queued = v.queued;
    active = v.active;
    tail = v.tail;
    lock = v.lock;
    idle = v.idle;
  }
  Step-IsValid _ _ _ (tests p k g free at) v = record {
    queued = v.queued;
    active = v.active;
    tail = v.tail;
    lock = v.lock;
    idle = v.idle;
  }
  Step-IsValid _ _ _ (stirs p k g at) v = record {
    queued = v.queued;
    active = v.active;
    tail = v.tail;
    lock = v.lock;
    idle = v.idle;
  }
