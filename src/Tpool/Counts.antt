-- ===== src/Tpool/Counts.antt =====
-- What the counters and pointers of a pool of src/tpool.c stand for.
use libresman.Base.{
  ℕ, zero, suc, ◌+◌, ◌%◌, ◌^◌, ◌≡◌, refl, ap, true, Option, none, some, List, [], ◌∷◌, ◌++◌, map,
  length, if◌then◌else◌, get_elem?, set, arith,
}
use libresman.Tpool.{
  Pool, Worker, starting, drowsy, asleep, woken, running, finished, stopped, wake,
}

module _ {ℓ} {J : Type ℓ} where
  abbrev pub last : List J → Option J
  last [] = none
  last (x ∷ []) = some x
  last (x ∷ y ∷ ys) = last (y ∷ ys)

  pub last-snoc : (xs : List J) (x : J) → last (xs ++ x ∷ []) ≡ some x
  last-snoc [] x = refl
  last-snoc (y ∷ []) x = refl
  last-snoc (y ∷ z ∷ xs) x = last-snoc (z ∷ xs) x

  -- A worker that has a job, and one that holds the mutex on its way to sleep.
  abbrev pub busy : Worker J → ℕ
  busy (running j) = 1
  busy (finished j) = 1
  busy _ = 0

  abbrev pub nodding : Worker J → ℕ
  nodding drowsy = 1
  nodding _ = 0

  abbrev pub total : (Worker J → ℕ) → List (Worker J) → ℕ
  total f [] = 0
  total f (w ∷ ws) = f w + total f ws

  pub total-set :
      (f : Worker J → ℕ) (ws : List (Worker J)) (i : ℕ) (w w' : Worker J)
      → get_elem? ws i ≡ some w
      → total f (set ws i w') + f w ≡ total f ws + f w'
  total-set f [] i w w' h = absurd (cc)
  total-set f (x ∷ ws) zero w w' h = let e : x ≡ w = cc in omega (arith, ap f e)
  total-set f (x ∷ ws) (suc i) w w' h = omega (arith, total-set f ws i w w' h)

  pub total-map-wake :
      (f : Worker J → ℕ)
      → ((w : Worker J) → f (wake w) ≡ f w)
      → (ws : List (Worker J)) → total f (map wake ws) ≡ total f ws
  total-map-wake f h [] = refl
  total-map-wake f h (w ∷ ws) = omega (arith, h w, total-map-wake f h ws)

  pub busy-wake : (w : Worker J) → busy (wake w) ≡ busy w
  busy-wake asleep = refl
  busy-wake starting = refl
  busy-wake drowsy = refl
  busy-wake woken = refl
  busy-wake (running j) = refl
  busy-wake (finished j) = refl
  busy-wake stopped = refl

  pub nodding-wake : (w : Worker J) → nodding (wake w) ≡ nodding w
  nodding-wake asleep = refl
  nodding-wake starting = refl
  nodding-wake drowsy = refl
  nodding-wake woken = refl
  nodding-wake (running j) = refl
  nodding-wake (finished j) = refl
  nodding-wake stopped = refl

  -- The counters are right, up to their wrap-around, the tail pointer is at the last job, and a
  -- worker that holds the mutex on its way to sleep found no job.
  pub record IsValid (p : Pool J) : Type ℓ where
    pub queued : p.qsize ≡ length p.workq % 2 ^ 32
    pub active : p.nactive ≡ total busy p.workers % 2 ^ 32
    pub tail : p.workq_tail ≡ last p.workq
    pub lock : total nodding p.workers ≡ (if p.held then 1 else 0)
    pub idle : p.held ≡ true → p.workq ≡ []
