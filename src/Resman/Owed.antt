-- ===== src/Resman/Owed.antt =====
-- The jobs that are owed for each slot of the table of src/resman.c, as lists and counts.
use Prim.Native.Nat.{compare}
use libresman.Base.{
  ℕ, zero, suc, ◌+◌, ◌<◌, ◌≤◌, ok, ◌≡◌, ◌≢◌, refl, sym, ap, ◌∙◌, subst, true, false, ◌&&◌, Option,
  none, some, List, [], ◌∷◌, ◌++◌, if◌then◌else◌, ◌==◌, length, length-append, get_elem?,
  get_elem?-set_self, get_elem?-set_ne, set, arith, inl, inr, Bool-cases, Ordering-cases,
}
use libresman.Dynarr.{Dynarr}
use libresman.Dynarr.Stack.{Holds}
use libresman.Resman.{Resource, item_at, write_at}
use libresman.Resman.Table.{item_at-Holds, write_at-Holds}

abbrev pub tally : ℕ → ℕ → ℕ
tally i j = if i == j then 1 else 0

abbrev pub count : ℕ → List ℕ → ℕ
count i [] = 0
count i (j ∷ js) = tally i j + count i js

pub count-append : (i : ℕ) (js ks : List ℕ) → count i (js ++ ks) ≡ count i js + count i ks
count-append i [] ks = omega arith
count-append i (j ∷ js) ks = omega (arith, count-append i js ks)

pub tally_self : (i : ℕ) → tally i i ≡ 1
tally_self i = ground arith

pub tally_other : (i j : ℕ) → i ≢ j → tally j i ≡ 0
tally_other i j h = ground (arith, h)

pub get_elem?-lt {ℓ} :
    {A : Type ℓ} (xs : List A) (i : ℕ) → i < length xs → (x : A) × (get_elem? xs i ≡ some x)
get_elem?-lt [] i h = absurd (omega (arith, h))
get_elem?-lt (x ∷ xs) zero h = (x, refl)
get_elem?-lt (x ∷ xs) (suc i) h = get_elem?-lt xs i (omega (arith, h))

pub get_elem?-ge {ℓ} : {A : Type ℓ} (xs : List A) (i : ℕ) → length xs ≤ i → get_elem? xs i ≡ none
get_elem?-ge [] i h = refl
get_elem?-ge (x ∷ xs) zero h = absurd (omega (arith, h))
get_elem?-ge (x ∷ xs) (suc i) h = get_elem?-ge xs i (omega (arith, h))

pub lt-of-get_elem? {ℓ} :
    {A : Type ℓ} (xs : List A) (i : ℕ) (x : A) → get_elem? xs i ≡ some x → i < length xs
lt-of-get_elem? [] i x h = absurd (cc h)
lt-of-get_elem? (y ∷ xs) zero x h = omega arith
lt-of-get_elem? (y ∷ xs) (suc i) x h = omega (arith, lt-of-get_elem? xs i x h)

pub set-set_slot {ℓ} :
    {A : Type ℓ} (xs : List A) (i : ℕ) (a b : A) → set (set xs i a) i b ≡ set xs i b
set-set_slot [] i a b = refl
set-set_slot (x ∷ xs) zero a b = refl
set-set_slot (x ∷ xs) (suc i) a b = ap (λ zs. x ∷ zs) (set-set_slot xs i a b)

module _ {ℓ} {D : Type ℓ} where
  -- `n` jobs fit a slot: one where its resource is pending, and none otherwise; and a resource is not
  -- both pending and done.
  abbrev pub Fits : ℕ → Option (Option (Resource D)) → Type 0
  Fits n none = n ≡ 0
  Fits n (some none) = n ≡ 0
  Fits n (some (some r)) =
      (n ≡ (if r.pending then 1 else 0)) × ((r.pending && r.done_pending) ≡ false)

  -- The jobs `js` that are queued and `ks` that are being worked on are those that the slots owe.
  abbrev pub Owed : List (Option (Resource D)) → List ℕ → List ℕ → Type 0
  Owed xs js ks = (k : ℕ) → Fits (count k js + count k ks) (get_elem? xs k)

  -- A slot changes, and with it only its own jobs.
  pub Owed-set :
      (xs : List (Option (Resource D))) (i : ℕ) (y : Option (Resource D)) (js ks js' ks' : List ℕ)
      → Owed xs js ks
      → i < length xs
      → Fits (count i js' + count i ks') (some y)
      → ((k : ℕ) → i ≢ k → count k js' + count k ks' ≡ count k js + count k ks)
      → Owed (set xs i y) js' ks'
  Owed-set xs i y js ks js' ks' o lt here other k = elim (Bool-cases (i == k)) [
    | inl same ↦
        let e : i ≡ k = ground (arith, same) in
        subst (λ m. Fits (count m js' + count m ks') (get_elem? (set xs i y) m)) e
          (rw (get_elem?-set_self xs i y lt) here)
    | inr differ ↦
        let ne : i ≢ k = λ e. absurd (ground (arith, e, differ)) in
        rw (get_elem?-set_ne xs i k y ne, other k ne) (o k)
  ]

  get_elem?-snoc_lt :
      (xs : List (Option (Resource D))) (y : Option (Resource D)) (k : ℕ)
      → k < length xs
      → get_elem? (xs ++ y ∷ []) k ≡ get_elem? xs k
  get_elem?-snoc_lt [] y k h = absurd (omega (arith, h))
  get_elem?-snoc_lt (x ∷ xs) y zero h = refl
  get_elem?-snoc_lt (x ∷ xs) y (suc k) h = get_elem?-snoc_lt xs y k (omega (arith, h))

  get_elem?-snoc :
      (xs : List (Option (Resource D))) (y : Option (Resource D))
      → get_elem? (xs ++ y ∷ []) (length xs) ≡ some y
  get_elem?-snoc [] y = refl
  get_elem?-snoc (x ∷ xs) y = get_elem?-snoc xs y

  -- A pending resource comes to the end of the table, and a job for it to the end of the queue.
  pub Owed-snoc :
      (xs : List (Option (Resource D))) (r : Resource D) (js ks : List ℕ)
      → Owed xs js ks
      → r.pending ≡ true
      → r.done_pending ≡ false
      → Owed (xs ++ some r ∷ []) (js ++ length xs ∷ []) ks
  Owed-snoc xs r js ks o p d k =
      let n = count-append k js (length xs ∷ []) in
      elim (Ordering-cases (compare k (length xs))) [
        | inl below ↦
            let lt : k < length xs = ground (arith, below) in
            let same : tally k (length xs) ≡ 0 =
              tally_other (length xs) k (λ e. absurd (omega (arith, lt, e))) in
            rw (get_elem?-snoc_lt xs (some r) k lt)
              (subst (λ m. Fits m (get_elem? xs k)) (omega (arith, n, same)) (o k))
        | inr (inl at) ↦
            let e : length xs ≡ k = ground (arith, at) in
            let none_yet : count k js + count k ks ≡ 0 =
              subst (Fits (count k js + count k ks)) (get_elem?-ge xs k (omega (arith, e))) (o k) in
            subst (Fits (count k (js ++ length xs ∷ []) + count k ks))
              (sym (get_elem?-snoc xs (some r)) ∙ ap (get_elem? (xs ++ some r ∷ [])) e)
              (rw (p, d) (ground (arith, n, none_yet, e), refl))
        | inr (inr above) ↦
            let lt : length xs < k = ground (arith, above) in
            let same : tally k (length xs) ≡ 0 =
              tally_other (length xs) k (λ e. absurd (omega (arith, lt, e))) in
            let none_yet : count k js + count k ks ≡ 0 =
              subst (Fits (count k js + count k ks)) (get_elem?-ge xs k (omega (arith, lt)))
                (o k) in
            subst (Fits (count k (js ++ length xs ∷ []) + count k ks))
              (sym (
                get_elem?-ge (xs ++ some r ∷ []) k
                  (omega (arith, lt, length-append xs (some r ∷ [])))))
              (omega (arith, n, same, none_yet))
      ]

  -- A resource in the table is overwritten.
  pub rewrite_slot :
      (da : Dynarr (Option (Resource D))) (xs : List (Option (Resource D))) (i : ℕ) (r : Resource D)
      (y : Option (Resource D))
      → Holds da xs
      → get_elem? xs i ≡ some (some r)
      → (da' : Dynarr (Option (Resource D))) × (item_at da i ≡ ok (some r))
        × (write_at da i y ≡ ok da')
        × Holds da' (set xs i y)
  rewrite_slot da xs i r y h at =
      let (da', e, held, _) = write_at-Holds da xs i y h (lt-of-get_elem? xs i (some r) at) in
      (da', item_at-Holds da xs i (some r) h at, e, held)
