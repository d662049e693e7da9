-- ===== src/Resman/Add.antt =====
-- `resman_add` of src/resman.c on tables without erased slots.

use libresman.Base.{
  ℕ, ◌+◌, ◌*◌, ◌^◌, ◌<◌, ◌≡◌, refl, ap, ◌∙◌, subst, Bool, true, false, Option, none, some, List, [],
  ◌∷◌, ◌++◌, map, ok, out_of_bounds, length, arith, inl, inr, Bool-cases, Option-cases, ◌⊎◌,
}
use libresman.Dynarr.{Dynarr, dynarr_push}
use libresman.Dynarr.Stack.{Holds}
use libresman.Dynarr.Grow.{dynarr_push-Holds, dynarr_push-denied}
use libresman.Resman.{
  Resource, Resman, same_string, find_resource, new_resource, add_resource, resman_add,
}
use libresman.Resman.Table.{Table, index_from, find_resource-Table}
use libresman.Resman.Append.{
  same_string_refl, map-some-end, added, add_resource-pushed, add_resource-lost,
}

module _ {ℓ} {D : Type ℓ} where
  push_last :
      (mem : ℕ → Bool) (rman : Resman D) (rs : List (Resource D)) (r : Resource D)
      → ((size : ℕ) → mem size ≡ true)
      → Table rman rs
      → rman.res.szelem * (2 * rman.res.max_elem + 1) < 2 ^ 31
      → (da : Dynarr (Option (Resource D))) × (dynarr_push mem rman.res (some (some r)) ≡ ok da)
        × Holds da (map some (rs ++ r ∷ []))
  push_last mem rman rs r granted h small =
      let (da, e, held) = dynarr_push-Holds mem rman.res (map some rs) (some r) granted h small in
      (da, e, subst (Holds da) (map-some-end rs r) held)

  add_resource-Table :
      (mem : ℕ → Bool) (rman : Resman D) (rs : List (Resource D)) (fname : List ℕ) (d : D)
      → ((size : ℕ) → mem size ≡ true)
      → Table rman rs
      → rman.res.szelem * (2 * rman.res.max_elem + 1) < 2 ^ 31
      → (rman' : Resman D) × (add_resource true mem rman fname d ≡ ok (rman', some (length rs)))
        × Table rman' (rs ++ added fname d (length rs) ∷ [])
        × (rman'.jobs ≡ rman.jobs ++ length rs ∷ [])
  add_resource-Table mem rman rs fname d granted h small =
      let (da, e, held) = push_last mem rman rs (new_resource fname d) granted h small in
      add_resource-pushed mem rman rs fname d da h e held

  index_from-append :
      (fname : List ℕ) (i : ℕ) (rs ts : List (Resource D))
      → index_from fname i rs ≡ none
      → index_from fname i (rs ++ ts) ≡ index_from fname (i + length rs) ts
  index_from-append fname i [] ts h = ap (λ n. index_from fname n ts) (omega arith)
  index_from-append fname i (r ∷ rs) ts h = elim (Bool-cases (same_string r.name fname)) [
    | inl same ↦ absurd (cc (rw same at h))
    | inr other ↦ rw other (
        index_from-append fname (i + 1) rs ts (rw other at h)
        ∙ ap (λ n. index_from fname n ts) (omega arith))
  ]

  index_from-added :
      (fname : List ℕ) (i : ℕ) (d : D) (id : ℕ)
      → index_from fname i (added fname d id ∷ []) ≡ some i
  index_from-added fname i d id = rw (same_string_refl fname) refl

  -- On a table without erased slots, with memory and the table's size within an `int`, `resman_add` of
  -- a name gives an id under which `find_resource` then finds it. Where the name was there before,
  -- nothing changes; where it was not, the table has one resource more, at its end and pending, and
  -- one job was handed to the thread pool, for that resource.
  pub resman_add-find_resource :
      (mem : ℕ → Bool) (rman : Resman D) (rs : List (Resource D)) (fname : List ℕ) (d : D)
      → ((size : ℕ) → mem size ≡ true)
      → Table rman rs
      → rman.res.szelem * (2 * rman.res.max_elem + 1) < 2 ^ 31
      → (rman' : Resman D) × (id : ℕ) × (resman_add true mem rman fname d ≡ ok (rman', some id))
        × (find_resource rman' fname ≡ ok (some id))
        × (((index_from fname 0 rs ≡ some id) × (rman' ≡ rman))
            ⊎ ((index_from fname 0 rs ≡ none)
                × Table rman' (rs ++ added fname d id ∷ [])
                × (rman'.jobs ≡ rman.jobs ++ id ∷ [])))
  unfolding resman_add
  resman_add-find_resource mem rman rs fname d granted h small =
      let search = find_resource-Table rman rs fname h in
      elim (Option-cases (index_from fname 0 rs)) [
        | inr (id, there) ↦
            let found : find_resource rman fname ≡ ok (some id) = search ∙ ap ok there in
            (rman, id, rw found refl, found, inl (there, refl))
        | inl absent ↦
            let missed : find_resource rman fname ≡ ok none = search ∙ ap ok absent in
            let (rman', e, held, jobs) = add_resource-Table mem rman rs fname d granted h small in
            (
              rman',
              length rs,
              rw missed e,
              find_resource-Table rman' _ fname held
                  ∙ ap ok (
                      index_from-append fname 0 rs _ absent
                      ∙ index_from-added fname _ d (length rs)
                      ∙ ap some (omega arith)),
              inr (absent, held, jobs),
            )
      ]

  -- On a full table without erased slots, where memory for the new resource is there but a larger table
  -- is denied, `resman_add` of a new name reads the table beyond its buffer: it takes the unchanged
  -- table that `dynarr_push` gives back for one with the resource in it.
  pub resman_add-denied :
      (mem : ℕ → Bool) (rman : Resman D) (rs : List (Resource D)) (fname : List ℕ) (d : D)
      → ((size : ℕ) → mem size ≡ false)
      → Table rman rs
      → rman.res.nelem ≡ rman.res.max_elem
      → index_from fname 0 rs ≡ none
      → resman_add true mem rman fname d ≡ out_of_bounds
  unfolding resman_add
  resman_add-denied mem rman rs fname d denied h full absent =
      let missed : find_resource rman fname ≡ ok none =
        find_resource-Table rman rs fname h ∙ ap ok absent in
      let kept =
        dynarr_push-denied mem rman.res (some (new_resource fname d)) (ground (arith, full))
          (denied _) in
      rw missed (add_resource-lost mem rman rs fname d h full kept)
