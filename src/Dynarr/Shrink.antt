-- ===== src/Dynarr/Shrink.antt =====
-- `dynarr_pop` of src/dynarr.c, which gives memory back.
use native.Mathlib.Nat.{mul-le-mul_left, mul-zero, zero-mul, zero-div}
use libresman.Base.{
  ℕ, ◌-◌, ◌*◌, ◌/◌, ◌^◌, ◌≤◌, ◌<◌, ◌≡◌, refl, sym, ap, ◌∙◌, Bool, true, false, Option, none, some,
  List, [], ◌∷◌, ◌++◌, leb, ◌==◌, length, replicate, ◌%◌, arith, inl, inr, Bool-cases, ◌⊎◌,
}
use libresman.Dynarr.{Dynarr, request, mul32, dynarr_pop, dynarr_alloc}
use libresman.Dynarr.Stack.{
  Holds, map-some-snoc, length-snoc, resized, dynarr_resize-granted, dynarr_resize-denied,
  dynarr_resize-denied, resized-Holds,
}

module _ {ℓ} {A : Type ℓ} where
  -- One item less.
  abbrev lowered : Dynarr A → Dynarr A
  lowered da = record da { nelem = da.nelem - 1 }

  lowered-Holds :
      (da : Dynarr A) (xs : List A) (x : A)
      → Holds da (xs ++ x ∷ [])
      → da.max_elem / 3 < da.nelem
      → Holds (lowered da) xs
  lowered-Holds da xs x h more = record {
    counted = omega (arith, h.counted, length-snoc xs x);
    rest = some x ∷ h.rest;
    stored = h.stored ∙ sym (map-some-snoc xs x h.rest);
    sized = h.sized;
    item_pos = h.item_pos;
    fits = h.fits;
    bytes = h.bytes;
    dense = omega (arith, more);
  }

  -- Whatever memory is granted, a pop takes the item on top off, and the array keeps to its bound on
  -- spare room; or it leaves the array as it was, only where the smaller buffer is denied.
  pub dynarr_pop-total :
      (mem : ℕ → Bool) (da : Dynarr A) (xs : List A) (x : A)
      → Holds da (xs ++ x ∷ [])
      → Holds (dynarr_pop mem da) xs
        ⊎ ((dynarr_pop mem da ≡ da)
            × (da.nelem ≤ da.max_elem / 3)
            × (mem (request (mul32 da.szelem (da.max_elem / 2))) ≡ false))
  unfolding dynarr_pop
  dynarr_pop-total mem da xs x h =
      let some_left : (da.nelem == 0) ≡ false = ground (arith, h.counted, length-snoc xs x) in
      elim (Bool-cases (leb da.nelem (da.max_elem / 3))) [
        | inr many ↦ rw (some_left, many) (inl (lowered-Holds da xs x h (ground arith)))
        | inl few ↦
            let half : da.max_elem / 2 ≤ da.max_elem = omega arith in
            let small : da.szelem * (da.max_elem / 2) < 2 ^ 31 =
              omega (arith, h.fits, mul-le-mul_left da.szelem half) in
            let le : da.nelem ≤ da.max_elem / 3 = ground arith in
            let pos : 0 < da.nelem = ground arith in
            elim (Bool-cases (mem (request (mul32 da.szelem (da.max_elem / 2))))) [
              | inr denied ↦
                  rw (some_left, few, dynarr_resize-denied mem da (da.max_elem / 2) denied)
                    (inr (refl, le, denied))
              | inl granted ↦
                  rw
                    (
                      some_left,
                      few,
                      dynarr_resize-granted mem da (da.max_elem / 2) granted h.item_pos small,
                    )
                    (inl (
                      lowered-Holds (record (resized da (da.max_elem / 2)) { nelem = da.nelem }) xs
                        x
                        (resized-Holds da (xs ++ x ∷ []) (da.max_elem / 2) h
                          (omega (arith, h.counted)) (omega (arith, h.counted, h.dense)) small)
                        (omega (arith, h.dense))))
            ]
      ]

  -- Where all memory is granted, a pop takes the item on top off.
  pub dynarr_pop-Holds :
      (mem : ℕ → Bool) (da : Dynarr A) (xs : List A) (x : A)
      → ((size : ℕ) → mem size ≡ true)
      → Holds da (xs ++ x ∷ [])
      → Holds (dynarr_pop mem da) xs
  dynarr_pop-Holds mem da xs x granted h = elim (dynarr_pop-total mem da xs x h) [
    | inl held ↦ held
    | inr kept ↦ absurd (cc (kept.2, granted (request (mul32 da.szelem (da.max_elem / 2)))))
  ]

  -- A new array of no items.
  pub dynarr_alloc-Holds :
      (mem : ℕ → Bool) (szelem : ℕ)
      → ((size : ℕ) → mem size ≡ true)
      → 0 < szelem
      → (da : Dynarr A) × (dynarr_alloc mem 0 szelem ≡ some da) × Holds da []
  unfolding dynarr_alloc
  dynarr_alloc-Holds mem szelem granted pos =
      let none_at : (mul32 0 szelem / szelem) ≡ 0 =
        ap (λ n. n % 2 ^ 32 / szelem) (zero-mul szelem) ∙ zero-div szelem in
      rw (granted (request (mul32 0 szelem))) (
        _,
        refl,
        record {
          counted = refl;
          rest = [];
          stored = ap (λ n. replicate n none) none_at;
          sized = ap (λ n. length (replicate {A = Option A} n none)) none_at;
          item_pos = pos;
          fits = omega (arith, mul-zero szelem);
          bytes = omega (arith, zero-mul szelem, mul-zero szelem);
          dense = omega arith;
        },
      )
