-- ===== src/Dynarr/Grow.antt =====
-- `dynarr_push` of src/dynarr.c, which takes more memory.

use native.Mathlib.Nat.{mul-le-mul_left, mul-le-mul_right}
use libresman.Base.{
  ◌⊎◌, ℕ, ◌+◌, ◌*◌, ◌/◌, ◌^◌, ◌≤◌, ◌<◌, ◌≡◌, refl, Bool, true, false, some, List, [], ◌∷◌, ◌++◌, ok,
  if◌then◌else◌, leb, ◌==◌, arith, inl, inr, Bool-cases,
}
use libresman.Dynarr.{Dynarr, request, mul32, dynarr_push, put_item}
use libresman.Dynarr.Stack.{
  Holds, append_item-Holds, resized, dynarr_resize-granted, dynarr_resize-denied, resized-Holds,
  nelem-le,
}

module _ {ℓ} {A : Type ℓ} where
  -- The size that a full array grows to.
  abbrev pub grown : Dynarr A → ℕ
  grown da = if da.max_elem == 0 then 1 else mul32 da.max_elem 2

  grown-bounds :
      (da : Dynarr A)
      → 0 < da.szelem
      → da.szelem * (2 * da.max_elem + 1) < 2 ^ 31
      → (da.max_elem < grown da) × (grown da / 3 ≤ da.max_elem) × (da.szelem * grown da < 2 ^ 31)
  grown-bounds da pos small =
      let few = mul-le-mul_right (2 * da.max_elem + 1) pos in
      let bound : grown da ≤ 2 * da.max_elem + 1 = ground (arith, few) in
      (ground (arith, few), ground (arith, few), omega (arith, mul-le-mul_left da.szelem bound))

  -- Whatever memory is granted, a push that fits an `int` stays within the buffer: it puts the item
  -- on top or leaves the array as it was, the latter only where the array is full and the larger
  -- buffer is denied.
  pub dynarr_push-total :
      (mem : ℕ → Bool) (da : Dynarr A) (xs : List A) (x : A)
      → Holds da xs
      → da.szelem * (2 * da.max_elem + 1) < 2 ^ 31
      → (da' : Dynarr A) × (dynarr_push mem da (some x) ≡ ok da')
        × (Holds da' (xs ++ x ∷ [])
            ⊎ ((da' ≡ da)
                × (da.nelem ≡ da.max_elem)
                × (mem (request (mul32 da.szelem (grown da))) ≡ false)))
  unfolding dynarr_push put_item
  dynarr_push-total mem da xs x h small =
      let b = grown-bounds da h.item_pos small in
      let le = nelem-le da xs h in
      elim (Bool-cases (leb da.max_elem da.nelem)) [
        | inr room ↦
            let m = append_item-Holds da xs x h (ground arith) in rw room (m.0, m.1, inl m.2)
        | inl full ↦
            let filled : da.nelem ≡ da.max_elem = ground arith in
            elim (Bool-cases (mem (request (mul32 da.szelem (grown da))))) [
              | inr denied ↦
                  rw (full, dynarr_resize-denied mem da (grown da) denied)
                    (da, refl, inr (refl, filled, denied))
              | inl granted ↦
                  let m =
                    append_item-Holds (record (resized da (grown da)) { nelem = da.nelem }) xs x
                      (resized-Holds da xs (grown da) h (omega (arith, h.counted, b.0))
                        (omega (arith, h.counted, b.1)) b.2)
                      (omega (arith, b.0)) in
                  rw (full, dynarr_resize-granted mem da (grown da) granted h.item_pos b.2)
                    (m.0, m.1, inl m.2)
            ]
      ]

  -- Where all memory is granted, a push that fits an `int` puts the item on top.
  pub dynarr_push-Holds :
      (mem : ℕ → Bool) (da : Dynarr A) (xs : List A) (x : A)
      → ((size : ℕ) → mem size ≡ true)
      → Holds da xs
      → da.szelem * (2 * da.max_elem + 1) < 2 ^ 31
      → (da' : Dynarr A) × (dynarr_push mem da (some x) ≡ ok da') × Holds da' (xs ++ x ∷ [])
  dynarr_push-Holds mem da xs x granted h small =
      let m = dynarr_push-total mem da xs x h small in
      (
        m.0,
        m.1,
        elim m.2 [
          | inl held ↦ held
          | inr lost ↦ absurd (cc (lost.2, granted (request (mul32 da.szelem (grown da)))))
        ],
      )

  -- A full array to which a larger buffer is denied.
  pub dynarr_push-denied :
      (mem : ℕ → Bool) (da : Dynarr A) (x : A)
      → leb da.max_elem da.nelem ≡ true
      → mem (request (mul32 da.szelem (grown da))) ≡ false
      → dynarr_push mem da (some x) ≡ ok da
  unfolding dynarr_push
  dynarr_push-denied mem da x full denied =
      rw (full, dynarr_resize-denied mem da (grown da) denied) refl
