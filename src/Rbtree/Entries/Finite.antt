-- ===== src/Rbtree/Entries/Finite.antt =====
-- The ordered lists of entries, the view of the trees of src/rbtree.c, as finite maps.
use Prim.Native.Nat.Ordering.{lt}
use libresman.Base.{
  ◌+◌, ◌<◌, ◌≡◌, refl, true, false, none, some, List, [], ◌∷◌, length, arith, if◌then◌else◌,
}
use libresman.Base.Int.{sign}
use libresman.Rbtree.{Keys}
use libresman.Rbtree.Entries.{IsLawful, Above, IsSorted, has, lookup, erase, put}

module _ {ℓ κ} {K : Type ℓ} {D : Type κ} (o : Keys K) (law : IsLawful o) where
  pub lookup-put :
      (xs : List (K × D)) (key j : K) (v : D)
      → lookup o j (put o key v xs) ≡ (if o.same j key then some v else lookup o j xs)
  unfolding lookup put
  lookup-put [] key j v = refl
  lookup-put ((k, d) ∷ xs) key j v = ground (
    arith,
    lookup-put xs key j v,
    law.eq_of_cmp key k,
    (law.same_iff j key).0,
    (law.same_iff j k).0,
    (law.same_iff j key).1,
    (law.same_iff j k).1,
    law.cmp_refl key,
  )

  Above-put :
      (xs : List (K × D)) (a key : K) (v : D)
      → Above o a xs
      → sign (o.cmp a key) ≡ lt
      → Above o a (put o key v xs)
  unfolding put
  Above-put [] a key v h c = (c, tt)
  Above-put ((k, d) ∷ xs) a key v h c = ground (arith, Above-put xs a key v h.1 c)

  Above-trans : (xs : List (K × D)) (a b : K) → sign (o.cmp a b) ≡ lt → Above o b xs → Above o a xs
  Above-trans [] a b c h = tt
  Above-trans ((k, d) ∷ xs) a b c h = (law.lt_trans a b k c h.0, Above-trans xs a b c h.1)

  pub put-IsSorted :
      (xs : List (K × D)) (key : K) (v : D) → IsSorted o xs → IsSorted o (put o key v xs)
  unfolding put
  put-IsSorted [] key v s = (tt, tt)
  put-IsSorted ((k, d) ∷ xs) key v s = ground (
    arith,
    put-IsSorted xs key v s.1,
    Above-trans xs key k,
    law.lt_of_gt key k,
    Above-put xs k key v s.0,
  )

  Above-erase : (xs : List (K × D)) (a key : K) → Above o a xs → Above o a (erase o key xs)
  unfolding erase
  Above-erase [] a key h = tt
  Above-erase ((k, d) ∷ xs) a key h = ground (arith, Above-erase xs a key h.1)

  pub erase-IsSorted : (xs : List (K × D)) (key : K) → IsSorted o xs → IsSorted o (erase o key xs)
  unfolding erase
  erase-IsSorted [] key s = tt
  erase-IsSorted ((k, d) ∷ xs) key s =
      ground (arith, erase-IsSorted xs key s.1, Above-erase xs k key s.0)

  lookup_self-Above : (xs : List (K × D)) (a : K) → Above o a xs → lookup o a xs ≡ none
  unfolding lookup
  lookup_self-Above [] a h = refl
  lookup_self-Above ((k, d) ∷ xs) a h =
      ground (arith, lookup_self-Above xs a h.1, (law.same_iff a k).0, law.cmp_refl a)

  pub lookup-erase :
      (xs : List (K × D)) (key j : K)
      → IsSorted o xs
      → lookup o j (erase o key xs) ≡ (if o.same j key then none else lookup o j xs)
  unfolding lookup erase
  lookup-erase [] key j s = ground arith
  lookup-erase ((k, d) ∷ xs) key j s = ground (
    arith,
    lookup-erase xs key j s.1,
    lookup_self-Above xs k s.0,
    (law.same_iff key k).0,
    (law.same_iff key k).1,
    (law.same_iff j key).0,
    (law.same_iff j k).0,
    (law.same_iff j key).1,
    (law.same_iff j k).1,
  )

  pub length-erase :
      (xs : List (K × D)) (key : K) → has o key xs ≡ true → length (erase o key xs) + 1 ≡ length xs
  unfolding erase
  length-erase [] key h = cc
  length-erase ((k, d) ∷ xs) key h = ground (arith, length-erase xs key)

  pub has-lookup :
      (xs : List (K × D)) (key : K) (v : D) → lookup o key xs ≡ some v → has o key xs ≡ true
  unfolding lookup
  has-lookup [] key v h = cc
  has-lookup ((k, d) ∷ xs) key v h = ground (arith, has-lookup xs key v)

  pub put_pos : (xs : List (K × D)) (key : K) (v : D) → 0 < length (put o key v xs)
  unfolding put
  put_pos [] key v = omega arith
  put_pos ((k, d) ∷ xs) key v = ground arith

  pub lookup-not_has : (xs : List (K × D)) (key : K) → lookup o key xs ≡ none → has o key xs ≡ false
  unfolding lookup
  lookup-not_has [] key h = refl
  lookup-not_has ((k, d) ∷ xs) key h = ground (arith, lookup-not_has xs key)
