-- ===== src/Rbtree/Entries/Search.antt =====
-- Comparisons of a key with an entry of an ordered list, for the descents of src/rbtree.c.
use Prim.Native.Nat.Ordering.{lt, gt}
use libresman.Base.{◌≡◌, refl, ap, true, false, none, List, [], ◌∷◌, ◌++◌, arith}
use libresman.Base.Int.{sign}
use libresman.Rbtree.{Keys}
use libresman.Rbtree.Entries.{
  IsLawful, Above, Below, IsSorted, has, lookup, put, has-append, Below-append, Above-append,
  Above-mid,
}

module _ {ℓ} {K : Type ℓ} (o : Keys K) (law : IsLawful o) where
  gt_of_not_lt :
      (x k key : K) → sign (o.cmp x k) ≡ lt → ¬ (sign (o.cmp key k) ≡ lt) → sign (o.cmp key x) ≡ gt
  gt_of_not_lt x k key h ge = ground (
    arith,
    law.eq_of_cmp key k,
    law.lt_of_gt key k,
    law.lt_trans x k key,
    law.gt_of_lt x key,
    law.gt_of_lt x k,
  )

module _ {ℓ κ} {K : Type ℓ} {D : Type κ} (o : Keys K) (law : IsLawful o) where
  pub Above-has :
      (xs : List (K × D)) (a key : K) → Above o a xs → has o key xs ≡ true → sign (o.cmp a key) ≡ lt
  Above-has [] a key h e = cc
  Above-has ((k, d) ∷ xs) a key h e = ground (arith, Above-has xs a key h.1, (law.same_iff key k).0)

  pub Below-has :
      (xs : List (K × D)) (b key : K) → Below o xs b → has o key xs ≡ true → sign (o.cmp key b) ≡ lt
  Below-has [] b key h e = cc
  Below-has ((k, d) ∷ xs) b key h e = ground (arith, Below-has xs b key h.1, (law.same_iff key k).0)

  -- A smaller key stands before the entry.
  pub has_of_lt :
      (xs ys : List (K × D)) (key k : K) (d : D)
      → IsSorted o (xs ++ ((k, d) ∷ ys))
      → sign (o.cmp key k) ≡ lt
      → has o key (xs ++ ((k, d) ∷ ys)) ≡ true
      → has o key xs ≡ true
  has_of_lt xs ys key k d s c h = ground (
    arith,
    has-append o key xs ((k, d) ∷ ys),
    (law.same_iff key k).0,
    law.cmp_refl key,
    Above-has ys k key (Above-append o xs ys k d s),
    law.gt_of_lt key k c,
  )

  -- A key that is not smaller does not.
  pub not_has_before :
      (xs ys : List (K × D)) (key k : K) (d : D)
      → IsSorted o (xs ++ ((k, d) ∷ ys))
      → ¬ (sign (o.cmp key k) ≡ lt)
      → has o key xs ≡ false
  not_has_before xs ys key k d s c = ground (arith, Below-has xs k key (Below-append o xs ys k d s))

  -- So a greater key stands behind the entry.
  pub has_of_gt :
      (xs ys : List (K × D)) (key k : K) (d : D)
      → IsSorted o (xs ++ ((k, d) ∷ ys))
      → sign (o.cmp key k) ≡ gt
      → has o key (xs ++ ((k, d) ∷ ys)) ≡ true
      → has o key ys ≡ true
  has_of_gt xs ys key k d s c h = ground (
    arith,
    has-append o key xs ((k, d) ∷ ys),
    (law.same_iff key k).0,
    law.cmp_refl key,
    Below-has xs k key (Below-append o xs ys k d s),
  )

  -- Where a smaller key goes.
  pub put-append_lt :
      (xs ys : List (K × D)) (key k : K) (d v : D)
      → sign (o.cmp key k) ≡ lt
      → put o key v (xs ++ ((k, d) ∷ ys)) ≡ put o key v xs ++ ((k, d) ∷ ys)
  unfolding put
  put-append_lt [] ys key k d v c = rw (c, put)
  put-append_lt ((x, e) ∷ xs) ys key k d v c = ground (arith, put-append_lt xs ys key k d v c)

  -- A key that is not smaller goes behind what stands before the entry.
  pub put-append_ge :
      (xs ys : List (K × D)) (key k : K) (d v : D)
      → IsSorted o (xs ++ ((k, d) ∷ ys))
      → ¬ (sign (o.cmp key k) ≡ lt)
      → put o key v (xs ++ ((k, d) ∷ ys)) ≡ xs ++ put o key v ((k, d) ∷ ys)
  unfolding put
  put-append_ge [] ys key k d v s ge = refl
  put-append_ge ((x, e) ∷ xs) ys key k d v s ge =
      rw (gt_of_not_lt o law x k key (Above-mid o xs ys x k d s.0) ge, put)
        (ap (λ zs. (x, e) ∷ zs) (put-append_ge xs ys key k d v s.1 ge))

  lookup-Above :
      (ys : List (K × D)) (key k : K)
      → Above o k ys
      → sign (o.cmp key k) ≡ lt
      → lookup o key ys ≡ none
  unfolding lookup
  lookup-Above [] key k a c = refl
  lookup-Above ((y, e) ∷ ys) key k a c =
      ground (arith, (law.same_iff key y).0, law.gt_of_lt key k c, lookup-Above ys key k a.1 c)

  -- Look-up goes where `put` goes.
  pub lookup-append_lt :
      (xs ys : List (K × D)) (key k : K) (d : D)
      → IsSorted o (xs ++ ((k, d) ∷ ys))
      → sign (o.cmp key k) ≡ lt
      → lookup o key (xs ++ ((k, d) ∷ ys)) ≡ lookup o key xs
  unfolding lookup
  lookup-append_lt [] ys key k d s c =
      ground (arith, (law.same_iff key k).0, law.cmp_refl key, lookup-Above ys key k s.0 c)
  lookup-append_lt ((x, e) ∷ xs) ys key k d s c =
      ground (arith, lookup-append_lt xs ys key k d s.1 c)

  pub lookup-append_ge :
      (xs ys : List (K × D)) (key k : K) (d : D)
      → IsSorted o (xs ++ ((k, d) ∷ ys))
      → ¬ (sign (o.cmp key k) ≡ lt)
      → lookup o key (xs ++ ((k, d) ∷ ys)) ≡ lookup o key ((k, d) ∷ ys)
  unfolding lookup
  lookup-append_ge [] ys key k d s ge = refl
  lookup-append_ge ((x, e) ∷ xs) ys key k d s ge = ground (
    arith,
    (law.same_iff key x).0,
    law.cmp_refl key,
    gt_of_not_lt o law x k key (Above-mid o xs ys x k d s.0) ge,
    lookup-append_ge xs ys key k d s.1 ge,
  )
