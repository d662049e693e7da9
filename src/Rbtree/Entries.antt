-- ===== src/Rbtree/Entries.antt =====
-- Ordered lists of entries, the abstract view of the trees of src/rbtree.c: look-up, replacement and
-- removal of an entry by its key.
pub mod Search
pub mod Finite
use Prim.Native.Nat.Ordering.{lt, eq, gt}
use libresman.Base.{
  ◌≡◌, refl, ◌↔◌, Bool, true, false, ◌||◌, Option, none, some, List, [], ◌∷◌, ◌++◌, arith,
  if◌then◌else◌,
}
use libresman.Base.Int.{sign}
use libresman.Rbtree.{Keys, Tree, node, traverse}

-- What the functions rely on: `cmp` gives an order of the keys by the sign of its result, and keys
-- that compare equal are the same pointer.
pub record IsLawful {ℓ} {K : Type ℓ} (o : Keys K) : Type ℓ where
  pub cmp_refl : (a : K) → sign (o.cmp a a) ≡ eq
  pub eq_of_cmp : (a b : K) → sign (o.cmp a b) ≡ eq → a ≡ b
  pub lt_of_gt : (a b : K) → sign (o.cmp a b) ≡ gt → sign (o.cmp b a) ≡ lt
  pub gt_of_lt : (a b : K) → sign (o.cmp a b) ≡ lt → sign (o.cmp b a) ≡ gt
  pub lt_trans : (a b c : K) → sign (o.cmp a b) ≡ lt → sign (o.cmp b c) ≡ lt → sign (o.cmp a c) ≡ lt
  pub same_iff : (a b : K) → (o.same a b ≡ true) ↔ (a ≡ b)

module _ {ℓ κ} {K : Type ℓ} {D : Type κ} (o : Keys K) where
  -- `a` comes before each key of the list.
  abbrev pub Above : K → List (K × D) → Type 0
  Above a [] = Unit
  Above a ((k, d) ∷ xs) = (sign (o.cmp a k) ≡ lt) × Above a xs

  -- Each key of the list comes before `b`.
  abbrev pub Below : List (K × D) → K → Type 0
  Below [] b = Unit
  Below ((k, d) ∷ xs) b = (sign (o.cmp k b) ≡ lt) × Below xs b

  abbrev pub IsSorted : List (K × D) → Type 0
  IsSorted [] = Unit
  IsSorted ((k, d) ∷ xs) = Above k xs × IsSorted xs

  abbrev pub has : K → List (K × D) → Bool
  has key [] = false
  has key ((k, d) ∷ xs) = o.same key k || has key xs

  unfoldable pub lookup : K → List (K × D) → Option D
  lookup key [] = none
  lookup key ((k, d) ∷ xs) = if o.same key k then some d else lookup key xs

  unfoldable pub erase : K → List (K × D) → List (K × D)
  erase key [] = []
  erase key ((k, d) ∷ xs) = if o.same key k then xs else (k, d) ∷ erase key xs

  -- The entry of the key is replaced, or one is put in its place.
  unfoldable pub put : K → D → List (K × D) → List (K × D)
  put key v [] = (key, v) ∷ []
  put key v ((k, d) ∷ xs) = elim (sign (o.cmp key k)) [
    | lt ↦ (key, v) ∷ (k, d) ∷ xs
    | eq ↦ (k, v) ∷ xs
    | gt ↦ (k, d) ∷ put key v xs
  ]

  -- Where the lists are joined.
  pub has-append :
      (key : K) (xs ys : List (K × D)) → has key (xs ++ ys) ≡ (has key xs || has key ys)
  has-append key [] ys = refl
  has-append key ((k, d) ∷ xs) ys = ground (arith, has-append key xs ys)

  pub erase-append_left :
      (key : K) (xs ys : List (K × D))
      → has key xs ≡ true
      → erase key (xs ++ ys) ≡ erase key xs ++ ys
  unfolding erase
  erase-append_left key [] ys h = cc
  erase-append_left key ((k, d) ∷ xs) ys h = ground (arith, erase-append_left key xs ys)

  pub erase-append_right :
      (key : K) (xs ys : List (K × D))
      → has key xs ≡ false
      → erase key (xs ++ ys) ≡ xs ++ erase key ys
  unfolding erase
  erase-append_right key [] ys h = refl
  erase-append_right key ((k, d) ∷ xs) ys h = ground (arith, erase-append_right key xs ys)

  pub IsSorted-append_left : (xs ys : List (K × D)) → IsSorted (xs ++ ys) → IsSorted xs
  IsSorted-append_left [] ys h = tt
  IsSorted-append_left ((k, d) ∷ xs) ys h =
      (Above-append_left k xs ys h.0, IsSorted-append_left xs ys h.1)
    where
      Above-append_left : (a : K) (xs ys : List (K × D)) → Above a (xs ++ ys) → Above a xs
      Above-append_left a [] ys h = tt
      Above-append_left a ((k, d) ∷ xs) ys h = (h.0, Above-append_left a xs ys h.1)

  pub IsSorted-append_right : (xs ys : List (K × D)) → IsSorted (xs ++ ys) → IsSorted ys
  IsSorted-append_right [] ys h = h
  IsSorted-append_right ((k, d) ∷ xs) ys h = IsSorted-append_right xs ys h.1

  pub Above-mid :
      (xs ys : List (K × D)) (a k : K) (d : D)
      → Above a (xs ++ ((k, d) ∷ ys))
      → sign (o.cmp a k) ≡ lt
  Above-mid [] ys a k d h = h.0
  Above-mid (x ∷ xs) ys a k d h = Above-mid xs ys a k d h.1

  -- The keys before an entry of an ordered list are below its key, those behind it above.
  pub Below-append :
      (xs ys : List (K × D)) (k : K) (d : D) → IsSorted (xs ++ ((k, d) ∷ ys)) → Below xs k
  Below-append [] ys k d h = tt
  Below-append ((x, _) ∷ xs) ys k d h = (Above-mid xs ys x k d h.0, Below-append xs ys k d h.1)

  pub Above-append :
      (xs ys : List (K × D)) (k : K) (d : D) → IsSorted (xs ++ ((k, d) ∷ ys)) → Above k ys
  Above-append xs ys k d h = (IsSorted-append_right xs ((k, d) ∷ ys) h).0

  -- The entries of a subtree are in order.
  pub IsSorted-left :
      (c : Bool) (k : K) (d : D) (l r : Tree K D)
      → IsSorted (traverse (node c k d l r))
      → IsSorted (traverse l)
  unfolding traverse
  IsSorted-left c k d l r s = IsSorted-append_left (traverse l) ((k, d) ∷ traverse r) s

  pub IsSorted-right :
      (c : Bool) (k : K) (d : D) (l r : Tree K D)
      → IsSorted (traverse (node c k d l r))
      → IsSorted (traverse r)
  unfolding traverse
  IsSorted-right c k d l r s = (IsSorted-append_right (traverse l) ((k, d) ∷ traverse r) s).1
