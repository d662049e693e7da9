-- ===== src/Tpool/Waiters.antt =====
-- The callers of src/tpool.c that wait for jobs to be done.

use libresman.Base.{
  ℕ, suc, ◌+◌, ◌^◌, ◌<◌, ◌≡◌, ◌⊎◌, ◌≤◌, not, ◌&&◌, ◌==◌, zero, refl, sym, ap, ◌∙◌, Bool, true,
  false, some, List, [], ◌∷◌, ◌++◌, map, length, length-append, get_elem?, set, arith, inl, inr,
  Bool-cases,
}
use libresman.Tpool.{
  Pool, Goal, all_done, pending_target, Client, testing, blocked, returned, rouse, must_wait,
  test_goal, gt32, append_job, announce, tpool_begin_batch, leave_batch, end_batch_broadcast,
  tpool_clear, job_done, ask_to_quit, quit_broadcast, tpool_create,
}
use libresman.Tpool.Turn.{next_job-cases}
use libresman.Tpool.Steps.{
  Step, append, announces, begin_batch, end_batch, end_broadcast, clear, quit, quit_wakes, enters,
  sleeps, wakes, resumes, works, reports, calls, tests, stirs, Label, Run, at_rest, one_more,
  proceed, proceed_labels,
}
use libresman.Tpool.Counts.{IsValid}
use libresman.Tpool.Order.{accepted_jobs, accepted_jobs-append}
use libresman.Tpool.Pending.{
  Run-IsValid, completed_count, dropped_count, dropped_count-append, open_count, Step-count,
  Run-count,
}

-- With `n` jobs open a caller has to go on waiting for its goal.
abbrev pub unmet : ℕ → Goal → Bool
unmet n all_done = not (n == 0)
unmet n (pending_target t) = gt32 n t

unmet-le : (m n : ℕ) (g : Goal) → m ≤ n → n < 2 ^ 31 → unmet m g ≡ true → unmet n g ≡ true
unmet-le m n all_done h small u = ground arith
unmet-le m n (pending_target t) h small u = ground arith

-- A caller that is asleep has to go on waiting.
abbrev waits : ℕ → Client → Bool
waits n (blocked g) = unmet n g
waits n _ = true

abbrev all_wait : ℕ → List Client → Bool
all_wait n [] = true
all_wait n (c ∷ cs) = waits n c && all_wait n cs

waits-le : (m n : ℕ) (c : Client) → m ≤ n → n < 2 ^ 31 → waits m c ≡ true → waits n c ≡ true
waits-le m n (blocked g) h small u = unmet-le m n g h small u
waits-le m n (testing g) h small u = refl
waits-le m n returned h small u = refl

&&-left : (a b : Bool) → (a && b) ≡ true → a ≡ true
&&-left true b h = refl
&&-left false b h = h

&&-right : (a b : Bool) → (a && b) ≡ true → b ≡ true
&&-right true b h = h
&&-right false b h = absurd (cc h)

&&-both : (a b : Bool) → a ≡ true → b ≡ true → (a && b) ≡ true
&&-both a b ha hb = rw (ha, hb) refl

all_wait-le :
    (m n : ℕ) (cs : List Client) → m ≤ n → n < 2 ^ 31 → all_wait m cs ≡ true → all_wait n cs ≡ true
all_wait-le m n [] h small a = refl
all_wait-le m n (c ∷ cs) h small a =
    rw
      (
        waits-le m n c h small (&&-left _ _ a),
        all_wait-le m n cs h small (&&-right (waits m c) _ a),
      )
      refl

all_wait-map-rouse : (n : ℕ) (cs : List Client) → all_wait n (map rouse cs) ≡ true
all_wait-map-rouse n [] = refl
all_wait-map-rouse n (blocked g ∷ cs) = all_wait-map-rouse n cs
all_wait-map-rouse n (testing g ∷ cs) = all_wait-map-rouse n cs
all_wait-map-rouse n (returned ∷ cs) = all_wait-map-rouse n cs

all_wait-set :
    (n : ℕ) (cs : List Client) (k : ℕ) (c : Client)
    → all_wait n cs ≡ true
    → waits n c ≡ true
    → all_wait n (set cs k c) ≡ true
all_wait-set n [] k c a h = refl
all_wait-set n (x ∷ cs) zero c a h = &&-both _ _ h (&&-right (waits n x) _ a)
all_wait-set n (x ∷ cs) (suc k) c a h =
    &&-both _ _ (&&-left _ _ a) (all_wait-set n cs k c (&&-right (waits n x) _ a) h)

all_wait-get :
    (n : ℕ) (cs : List Client) (k : ℕ) (g : Goal)
    → all_wait n cs ≡ true
    → get_elem? cs k ≡ some (blocked g)
    → unmet n g ≡ true
all_wait-get n [] k g a h = absurd (cc h)
all_wait-get n (x ∷ cs) zero g a h =
    let e : x ≡ blocked g = cc in ap (waits n) (sym e) ∙ &&-left _ _ a
all_wait-get n (x ∷ cs) (suc k) g a h = all_wait-get n cs k g (&&-right (waits n x) _ a) h

module _ {ℓ} {J : Type ℓ} where
  -- The code's test agrees with the number of open jobs.
  must_wait-unmet :
      (p : Pool J) (g : Goal)
      → IsValid p
      → open_count p < 2 ^ 31
      → must_wait p g ≡ unmet (open_count p) g
  must_wait-unmet p all_done v small = ground (arith, v.queued, v.active)
  must_wait-unmet p (pending_target t) v small =
      ap (λ n. gt32 n t) (omega (arith, v.queued, v.active))

  test_goal-waits :
      (p : Pool J) (g : Goal)
      → IsValid p
      → open_count p < 2 ^ 31
      → waits (open_count p) (test_goal p g) ≡ true
  unfolding test_goal
  test_goal-waits p g v small = elim (Bool-cases (must_wait p g)) [
    | inl on ↦ rw on (sym (must_wait-unmet p g v small) ∙ on)
    | inr over ↦ rw over refl
  ]

  proceed-clients :
      (p : Pool J) (i : ℕ)
      → ((proceed p i).clients ≡ p.clients)
        × (completed_count (proceed_labels p) ≡ 0)
        × (dropped_count (proceed_labels p) ≡ 0)
  proceed-clients p i = elim (next_job-cases p) [
    | inl e ↦ rw (proceed_labels, e) (refl, refl, refl)
    | inr (inl (none_left, e)) ↦ rw (proceed_labels, e) (refl, refl, refl)
    | inr (inr (j, rest, some_left, e)) ↦ rw (proceed_labels, e) (refl, refl, refl)
  ]

  -- A step either rouses all callers that sleep, or completes no job and leaves them their reason.
  Step-clients :
      (p : Pool J) (es : List (Label J)) (q : Pool J)
      → Step p es q
      → IsValid p
      → open_count q < 2 ^ 31
      → (all_wait (open_count q) q.clients ≡ true)
        ⊎ ((completed_count es ≡ 0)
            × (all_wait (open_count q) p.clients ≡ true → all_wait (open_count q) q.clients ≡ true))
  unfolding append_job announce tpool_begin_batch leave_batch end_batch_broadcast tpool_clear
      job_done ask_to_quit quit_broadcast
  Step-clients _ _ _ (append p j free) v small = inr (refl, λ a. a)
  Step-clients _ _ _ (announces p some_call) v small = elim (Bool-cases p.in_batch) [
    | inl batch ↦ rw batch (inr (refl, λ a. a))
    | inr single ↦ rw single (inr (refl, λ a. a))
  ]
  Step-clients _ _ _ (begin_batch p) v small = inr (refl, λ a. a)
  Step-clients _ _ _ (end_batch p) v small = inr (refl, λ a. a)
  Step-clients _ _ _ (end_broadcast p some_call) v small = inr (refl, λ a. a)
  Step-clients _ _ _ (clear p free) v small = inr (refl, λ a. a)
  Step-clients _ _ _ (quit p) v small = inr (refl, λ a. a)
  Step-clients _ _ _ (quit_wakes p) v small = inr (refl, λ a. a)
  Step-clients _ _ _ (enters p i free at) v small =
      let c = proceed-clients p i in inr (c.1, λ a. rw c.0 a)
  Step-clients _ _ _ (sleeps p i at) v small = inr (refl, λ a. a)
  Step-clients _ _ _ (wakes p i at) v small = inr (refl, λ a. a)
  Step-clients _ _ _ (resumes p i free at) v small =
      let c = proceed-clients p i in inr (c.1, λ a. rw c.0 a)
  Step-clients _ _ _ (works p i j at) v small = inr (refl, λ a. a)
  Step-clients _ _ _ (reports p i j free at) v small =
      inl (rw ((proceed-clients (job_done p) i).0) (all_wait-map-rouse _ p.clients))
  Step-clients _ _ _ (calls p g) v small = inr (refl, λ a. a)
  Step-clients _ _ _ (tests p k g free at) v small =
      inr (refl, λ a. all_wait-set _ p.clients k _ a (test_goal-waits p g v small))
  Step-clients _ _ _ (stirs p k g at) v small = inr (refl, λ a. all_wait-set _ p.clients k _ a refl)

  Run-all_wait :
      (n : ℕ) (es : List (Label J)) (q : Pool J)
      → Run (tpool_create n) es q
      → length (accepted_jobs es) < 2 ^ 31
      → dropped_count es ≡ 0
      → all_wait (open_count q) q.clients ≡ true
  Run-all_wait n _ _ at_rest few kept = refl
  Run-all_wait n _ _ (one_more es q fs r run step) few kept =
      let acc : length (accepted_jobs (es ++ fs))
          ≡ length (accepted_jobs es) + length (accepted_jobs fs) =
        ap length (accepted_jobs-append es fs)
        ∙ length-append (accepted_jobs es) (accepted_jobs fs) in
      let small : open_count r < 2 ^ 31 =
        omega (arith, Run-count n _ r (one_more es q fs r run step)) in
      let drop = dropped_count-append es fs in
      elim (Step-clients q fs r step (Run-IsValid n es q run) small) [
        | inl roused ↦ roused
        | inr (steady, keep) ↦ keep (
            all_wait-le (open_count q) (open_count r) q.clients
              (omega (arith, Step-count q fs r step, steady, drop)) small
              (Run-all_wait n es q run (omega (arith, acc)) (omega (arith, drop))))
      ]

  -- In every run of a pool that accepts fewer than 2 ^ 31 jobs and in which `resman_tpool_clear` drops
  -- none, no caller misses its broadcast: whenever one sleeps in `resman_tpool_wait` or
  -- `resman_tpool_wait_pending`, the condition that it waits on still holds.
  pub Run-must_wait :
      (n : ℕ) (es : List (Label J)) (q : Pool J)
      → Run (tpool_create n) es q
      → length (accepted_jobs es) < 2 ^ 31
      → dropped_count es ≡ 0
      → (k : ℕ) (g : Goal) → get_elem? q.clients k ≡ some (blocked g)
      → must_wait q g ≡ true
  Run-must_wait n es q run few kept k g at =
      must_wait-unmet q g (Run-IsValid n es q run) (omega (arith, Run-count n es q run))
      ∙ all_wait-get (open_count q) q.clients k g (Run-all_wait n es q run few kept) at
