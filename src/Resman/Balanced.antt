-- ===== src/Resman/Balanced.antt =====
-- The jobs of src/resman.c that the slots of its table owe, when a slot changes.
use libresman.Base.{
  ℕ, ◌+◌, ◌<◌, ◌≡◌, ◌≢◌, ap, ◌∙◌, subst, Bool, true, false, not, ◌&&◌, Option, some, List, [], ◌∷◌,
  ◌++◌, get_elem?, set, arith, inl, inr, Option-cases,
}
use libresman.Dynarr.Stack.{Holds}
use libresman.Resman.{Resource, Resman}
use libresman.Resman.Owed.{
  count, count-append, tally, tally_self, tally_other, Owed, Owed-set, Fits, lt-of-get_elem?,
}
use libresman.Resman.Moves.{Becomes}

abbrev pub idle {ℓ} : {D : Type ℓ} → Resource D → Bool
idle r = not r.pending && not r.done_pending

pub once_other :
    (i : ℕ) (js ks : List ℕ) (k : ℕ)
    → i ≢ k
    → count k (js ++ i ∷ []) + count k ks ≡ count k js + count k ks
once_other i js ks k ne = omega (arith, count-append k js (i ∷ []), tally_other i k ne)

module _ {ℓ} {D : Type ℓ} where
  abbrev pub Balanced : Resman D → List ℕ → Type ℓ
  Balanced rman ks = (xs : List (Option (Resource D))) × Holds rman.res xs × Owed xs rman.jobs ks

  -- A step that changes a slot and, for it alone, the jobs.
  pub Balanced-set :
      (rman' : Resman D) (xs : List (Option (Resource D))) (i : ℕ) (x y : Option (Resource D))
      (js ks js' ks' : List ℕ)
      → Owed xs js ks
      → get_elem? xs i ≡ some x
      → Becomes rman' (set xs i y) js'
      → Fits (count i js' + count i ks') (some y)
      → ((k : ℕ) → i ≢ k → count k js' + count k ks' ≡ count k js + count k ks)
      → Balanced rman' ks'
  Balanced-set rman' xs i x y js ks js' ks' o at b here other = (
    set xs i y,
    b.0,
    rw b.1 (Owed-set xs i y js ks js' ks' o (lt-of-get_elem? xs i x at) here other),
  )

  pub jobs_at :
      (xs : List (Option (Resource D))) (i : ℕ) (x : Option (Resource D)) (js ks : List ℕ)
      → Owed xs js ks
      → get_elem? xs i ≡ some x
      → Fits (count i js + count i ks) (some x)
  jobs_at xs i x js ks o at = subst (Fits (count i js + count i ks)) at (o i)

  -- A reload of an idle resource owes its first job.
  pub one_job :
      (i : ℕ) (r : Resource D) (js ks : List ℕ)
      → Fits (count i js + count i ks) (some (some r))
      → idle r ≡ true
      → (count i (js ++ i ∷ []) + count i ks ≡ 1) × (r.done_pending ≡ false)
  one_job i r js ks old free =
      (ground (arith, old, free, count-append i js (i ∷ []), tally_self i), ground (arith, free))

  -- A slot for which there is a job holds a resource.
  pub owing :
      (xs : List (Option (Resource D))) (i : ℕ) (js ks : List ℕ)
      → Owed xs js ks
      → 0 < count i js + count i ks
      → (r : Resource D) × (get_elem? xs i ≡ some (some r))
  owing xs i js ks o h = elim (Option-cases (get_elem? xs i)) [
    | inl beyond ↦ absurd (omega (arith, h, subst (Fits (count i js + count i ks)) beyond (o i)))
    | inr (x, at) ↦ elim (Option-cases x) [
      | inl erased ↦
          absurd
            (omega (arith, h, subst (Fits (count i js + count i ks)) (at ∙ ap some erased) (o i)))
      | inr (r, there) ↦ (r, at ∙ ap some there)
    ]
  ]

pub count-split :
    (i k : ℕ) (ls js ks : List ℕ) → ls ≡ js ++ i ∷ ks → count k ls ≡ count k (js ++ ks) + tally k i
count-split i k ls js ks e =
    omega (arith, ap (count k) e, count-append k js (i ∷ ks), count-append k js ks)
