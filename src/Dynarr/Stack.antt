-- ===== src/Dynarr/Stack.antt =====
-- The arrays of src/dynarr.c as stacks.
use mathlib.Core.List.{append_assoc}
use native.Mathlib.Nat.{mod-eq_of_lt, mul-div_cancel_left}
use libresman.Base.{
  ℕ, zero, suc, ◌+◌, ◌-◌, ◌*◌, ◌/◌, ◌^◌, ◌≤◌, ◌<◌, ◌≡◌, refl, ap, ◌∙◌, Bool, true, false, Option,
  none, some, List, [], ◌∷◌, ◌++◌, map, ok, length, length-append, set, take, replicate,
  length-replicate, take-append, length-take, length-set, arith,
}
use libresman.Dynarr.{Dynarr, refit, request, mul32, dynarr_resize, append_item}

pub mul32-small : (a b : ℕ) → a * b < 2 ^ 31 → mul32 a b ≡ a * b
mul32-small a b h = mod-eq_of_lt (omega (arith, h))

module _ {ℓ} {A : Type ℓ} where
  -- The array holds the items `xs`, the last one on top, and its sizes fit an `int`.
  pub record Holds (da : Dynarr A) (xs : List A) : Type ℓ where
    pub counted : da.nelem ≡ length xs
    pub rest : List (Option A)
    pub stored : da.slots ≡ map some xs ++ rest
    pub sized : length da.slots ≡ da.max_elem
    pub item_pos : 0 < da.szelem
    pub fits : da.szelem * da.max_elem < 2 ^ 31
    pub bytes : da.bufsz ≡ da.szelem * da.max_elem
    -- No more than about two thirds of the buffer is spare.
    pub dense : da.max_elem / 3 ≤ da.nelem

  pub length-map-some : (xs : List A) → length (map some xs) ≡ length xs
  length-map-some [] = refl
  length-map-some (x ∷ xs) = ap suc (length-map-some xs)

  set-append :
      (xs : List (Option A)) (y v : Option A) (ys : List (Option A)) (i : ℕ)
      → i ≡ length xs
      → set (xs ++ y ∷ ys) i v ≡ xs ++ v ∷ ys
  set-append [] y v ys zero h = refl
  set-append [] y v ys (suc i) h = absurd (omega arith)
  set-append (x ∷ xs) y v ys zero h = absurd (omega arith)
  set-append (x ∷ xs) y v ys (suc i) h = ap (λ zs. x ∷ zs) (set-append xs y v ys i (omega arith))

  pub map-some-snoc :
      (xs : List A) (x : A) (ys : List (Option A))
      → map some xs ++ some x ∷ ys ≡ map some (xs ++ x ∷ []) ++ ys
  map-some-snoc [] x ys = refl
  map-some-snoc (y ∷ xs) x ys = ap (λ zs. some y ∷ zs) (map-some-snoc xs x ys)

  set-snoc :
      (xs : List A) (x : A) (n : ℕ) (ys : List (Option A))
      → n ≡ length xs
      → n < length (map some xs ++ ys)
      → (zs : List (Option A)) × (set (map some xs ++ ys) n (some x)
          ≡ map some (xs ++ x ∷ []) ++ zs)
  set-snoc xs x n [] e room =
      absurd (omega (arith, length-append (map some xs) [], length-map-some xs))
  set-snoc xs x n (y ∷ ys) e room = (
    ys,
    set-append (map some xs) y (some x) ys n (omega (arith, length-map-some xs))
        ∙ map-some-snoc xs x ys,
  )

  pub length-snoc : (xs : List A) (x : A) → length (xs ++ x ∷ []) ≡ length xs + 1
  length-snoc xs x = omega (arith, length-append xs (x ∷ []))

  -- The array with room for one more: the item goes on top.
  pub append_item-Holds :
      (da : Dynarr A) (xs : List A) (x : A)
      → Holds da xs
      → da.nelem < da.max_elem
      → (da' : Dynarr A) × (append_item da x ≡ ok da') × Holds da' (xs ++ x ∷ [])
  unfolding append_item
  append_item-Holds da xs x h room =
      let m =
        set-snoc xs x da.nelem h.rest h.counted (omega (arith, h.sized, ap length h.stored)) in
      (
        record da { nelem = da.nelem + 1; slots = set da.slots da.nelem (some x) },
        ground (arith, h.sized),
        record {
          counted = omega (arith, h.counted, length-snoc xs x);
          rest = m.0;
          stored = ap (λ zs. set zs da.nelem (some x)) h.stored ∙ m.1;
          sized = length-set da.slots da.nelem (some x) ∙ h.sized;
          item_pos = h.item_pos;
          fits = h.fits;
          bytes = h.bytes;
          dense = omega (arith, h.dense);
        },
      )

  refit-map-some :
      (n : ℕ) (xs : List A) (ys : List (Option A))
      → length xs ≤ n
      → (zs : List (Option A)) × (refit n (map some xs ++ ys) ≡ map some xs ++ zs)
  refit-map-some n xs ys h = (
    _,
    ap (take n) (append_assoc (map some xs) ys _)
        ∙ take-append n (map some xs) _ (omega (arith, length-map-some xs)),
  )

  length-refit : (n : ℕ) (ys : List (Option A)) → length (refit n ys) ≡ n
  length-refit n ys = length-take n _ (
      omega (
        arith,
        length-append ys (replicate {A = Option A} (n - length ys) none),
        length-replicate {A = Option A} (n - length ys) none,
      ))

  -- The array that a granted change of size gives.
  abbrev pub resized : Dynarr A → ℕ → Dynarr A
  resized da n = record da {
    nelem = n;
    max_elem = n;
    bufsz = da.szelem * n;
    slots = refit n da.slots;
  }

  pub dynarr_resize-granted :
      (mem : ℕ → Bool) (da : Dynarr A) (n : ℕ)
      → mem (request (mul32 da.szelem n)) ≡ true
      → 0 < da.szelem
      → da.szelem * n < 2 ^ 31
      → dynarr_resize mem da n ≡ some (resized da n)
  unfolding dynarr_resize
  dynarr_resize-granted mem da n granted pos small =
      rw (granted, mul32-small da.szelem n small, mul-div_cancel_left n pos) refl

  pub dynarr_resize-denied :
      (mem : ℕ → Bool) (da : Dynarr A) (n : ℕ)
      → mem (request (mul32 da.szelem n)) ≡ false
      → dynarr_resize mem da n ≡ none
  unfolding dynarr_resize
  dynarr_resize-denied mem da n denied = rw denied refl

  pub resized-Holds :
      (da : Dynarr A) (xs : List A) (n : ℕ)
      → Holds da xs
      → length xs ≤ n
      → n / 3 ≤ length xs
      → da.szelem * n < 2 ^ 31
      → Holds (record (resized da n) { nelem = da.nelem }) xs
  resized-Holds da xs n h room few small =
      let m = refit-map-some n xs h.rest room in
      record {
        counted = h.counted;
        rest = m.0;
        stored = ap (refit n) h.stored ∙ m.1;
        sized = length-refit n da.slots;
        item_pos = h.item_pos;
        fits = small;
        bytes = refl;
        dense = omega (arith, h.counted);
      }

  pub nelem-le : (da : Dynarr A) (xs : List A) → Holds da xs → da.nelem ≤ da.max_elem
  nelem-le da xs h = omega (
    arith,
    h.sized,
    h.counted,
    ap length h.stored,
    length-append (map some xs) h.rest,
    length-map-some xs,
  )
