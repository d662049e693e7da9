-- ===== src/Tpool/Turn.antt =====
-- What a worker of src/tpool.c does when it holds the mutex: the branches of `thread_func`.
use libresman.Base.{
  ℕ, zero, suc, ◌≡◌, refl, ap, true, none, some, List, [], ◌∷◌, get_elem?, set, inl, inr, ◌⊎◌,
  Bool-cases, List-cases,
}
use libresman.Tpool.{Pool, Worker, drowsy, running, stopped, next_job, inc32, dec32}
use libresman.Tpool.Steps.{move, proceed}

module _ {ℓ} {J : Type ℓ} where
  -- The pool after its first job was taken, the jobs in `rest` left.
  abbrev pub taken : Pool J → List J → Pool J
  taken p rest = record p {
    workq = rest;
    workq_tail = elim rest [ [] ↦ none | _ ∷ _ ↦ p.workq_tail ];
    nactive = inc32 p.nactive;
    qsize = dec32 p.qsize;
  }

  pub next_job-cases :
      (p : Pool J)
      → (next_job p ≡ (p, stopped))
        ⊎ ((p.workq ≡ []) × (next_job p ≡ (record p { held = true }, drowsy)))
        ⊎ ((j : J) × (rest : List J) × (p.workq ≡ j ∷ rest)
            × (next_job p ≡ (taken p rest, running j)))
  unfolding next_job
  next_job-cases p = elim (Bool-cases p.should_quit) [
    | inl quit ↦ inl (rw quit refl)
    | inr stay ↦ elim (List-cases p.workq) [
      | inl none_left ↦ inr (inl (none_left, simp (stay, none_left) refl))
      | inr (j, rest, some_left) ↦ inr (inr (j, rest, some_left, simp (stay, some_left) refl))
    ]
  ]

  set-set : (ws : List (Worker J)) (i : ℕ) (a b : Worker J) → set (set ws i a) i b ≡ set ws i b
  set-set [] i a b = refl
  set-set (w ∷ ws) zero a b = refl
  set-set (w ∷ ws) (suc i) a b = ap (λ vs. w ∷ vs) (set-set ws i a b)

  pub get_elem?-set_at :
      (ws : List (Worker J)) (i : ℕ) (w w' : Worker J)
      → get_elem? ws i ≡ some w
      → get_elem? (set ws i w') i ≡ some w'
  get_elem?-set_at [] i w w' h = absurd (cc)
  get_elem?-set_at (x ∷ ws) zero w w' h = refl
  get_elem?-set_at (x ∷ ws) (suc i) w w' h = get_elem?-set_at ws i w w' h

  -- Where a worker came from does not show once it went on.
  pub proceed-move : (p : Pool J) (i : ℕ) (w : Worker J) → proceed (move p i w) i ≡ proceed p i
  unfolding next_job
  proceed-move p i w = elim (Bool-cases p.should_quit) [
    | inl quit ↦ rw (quit, set-set) refl
    | inr stay ↦ elim (List-cases p.workq) [
      | inl none_left ↦ rw (stay, none_left, set-set) refl
      | inr (j, rest, some_left) ↦ rw (stay, some_left, set-set) refl
    ]
  ]
