-- ===== src/Resman/Append.antt =====
-- `add_resource` of src/resman.c on tables without erased slots.

use libresman.Base.{
  ℕ, suc, ◌+◌, ◌-◌, ◌<◌, ◌≡◌, refl, sym, ap, ◌∙◌, subst, Bool, true, Option, none, some, List, [],
  ◌∷◌, ◌++◌, map, ok, out_of_bounds, get_elem?, set, length, length-append, arith,
}
use libresman.Dynarr.{Dynarr, dynarr_size, dynarr_push}
use libresman.Dynarr.Stack.{Holds}
use libresman.Resman.{
  Resource, Resman, same_string, slot_item, item_at, write_at, free_from, resman_reload,
  new_resource, set_id, start_resource, add_resource,
}
use libresman.Resman.Table.{Table, Tail, length-map, item_at-Holds, write_at-Holds}

pub same_string_refl : (xs : List ℕ) → same_string xs xs ≡ true
same_string_refl [] = refl
same_string_refl (x ∷ xs) = ground (arith, same_string_refl xs)

module _ {ℓ} {D : Type ℓ} where
  free_from-Tail :
      (da : Dynarr (Option (Resource D))) (i : ℕ) (rs : List (Resource D))
      → Tail da i (map some rs)
      → free_from da i (length rs) ≡ ok none
  unfolding free_from
  free_from-Tail da i [] t = refl
  free_from-Tail da i (r ∷ rs) t =
      let here : item_at da i ≡ ok (some r) = ap (item_at da) (omega arith) ∙ t 0 (some r) refl in
      let later =
        free_from-Tail da (i + 1) rs (λ k x h. ap (item_at da) (omega arith) ∙ t (suc k) x h) in
      rw here later

  set-end :
      (rs : List (Resource D)) (r s : Resource D)
      → set (map some (rs ++ r ∷ [])) (length rs) (some s) ≡ map some (rs ++ s ∷ [])
  set-end [] r s = refl
  set-end (x ∷ rs) r s = ap (λ zs. some x ∷ zs) (set-end rs r s)

  get_elem?-end :
      (rs : List (Resource D)) (r : Resource D)
      → get_elem? (map some (rs ++ r ∷ [])) (length rs) ≡ some (some r)
  get_elem?-end [] r = refl
  get_elem?-end (x ∷ rs) r = get_elem?-end rs r

  pub map-some-end :
      (rs : List (Resource D)) (r : Resource D)
      → map some rs ++ some r ∷ [] ≡ map some (rs ++ r ∷ [])
  map-some-end [] r = refl
  map-some-end (x ∷ rs) r = ap (λ zs. some x ∷ zs) (map-some-end rs r)

  -- The last resource of the table is overwritten.
  write_last :
      (rman : Resman D) (rs : List (Resource D)) (r s : Resource D)
      → Table rman (rs ++ r ∷ [])
      → (da : Dynarr (Option (Resource D))) × (item_at rman.res (length rs) ≡ ok (some r))
        × (write_at rman.res (length rs) (some s) ≡ ok da)
        × Holds da (map some (rs ++ s ∷ []))
  write_last rman rs r s h =
      let inside : length rs < length (map some (rs ++ r ∷ [])) =
        omega (arith, length-map (rs ++ r ∷ []), length-append rs (r ∷ [])) in
      let (da, e, held, _) = write_at-Holds rman.res _ (length rs) (some s) h inside in
      (
        da,
        item_at-Holds rman.res _ (length rs) (some r) h (get_elem?-end rs r),
        e,
        subst (Holds da) (set-end rs r s) held,
      )

  set_id-last :
      (rman : Resman D) (rs : List (Resource D)) (r : Resource D)
      → Table rman (rs ++ r ∷ [])
      → (rman' : Resman D) × (set_id rman (length rs) ≡ ok rman')
        × Table rman' (rs ++ (record r { id = length rs }) ∷ [])
        × (rman'.jobs ≡ rman.jobs)
  unfolding set_id
  set_id-last rman rs r h =
      let (da, e, w, held) = write_last rman rs r (record r { id = length rs }) h in
      (record rman { res = da }, rw (e, w) refl, held, refl)

  resman_reload-last :
      (rman : Resman D) (rs : List (Resource D)) (r : Resource D)
      → Table rman (rs ++ r ∷ [])
      → (rman' : Resman D) × (resman_reload rman (length rs) ≡ ok rman')
        × Table rman' (rs ++ (record r { pending = true }) ∷ [])
        × (rman'.jobs ≡ rman.jobs ++ length rs ∷ [])
  unfolding resman_reload
  resman_reload-last rman rs r h =
      let (da, e, w, held) = write_last rman rs r (record r { pending = true }) h in
      (
        record rman { res = da; tasks = rman.tasks - 1; jobs = rman.jobs ++ length rs ∷ [] },
        rw (e, w) refl,
        held,
        refl,
      )

  -- The resource that `add_resource` makes.
  abbrev pub added : List ℕ → D → ℕ → Resource D
  added fname d i = record (new_resource fname d) { id = i; pending = true }

  -- The end of `add_resource`: the id, and the job that loads the resource.
  start_resource-last :
      (rman : Resman D) (rs : List (Resource D)) (r : Resource D)
      → Table rman (rs ++ r ∷ [])
      → (rman' : Resman D) × (start_resource rman (length rs) ≡ ok (rman', some (length rs)))
        × Table rman' (rs ++ record r { id = length rs; pending = true } ∷ [])
        × (rman'.jobs ≡ rman.jobs ++ length rs ∷ [])
  unfolding start_resource
  start_resource-last rman rs r h =
      let (rman2, e2, held2, jobs2) = set_id-last rman rs r h in
      let (rman3, e3, held3, jobs3) = resman_reload-last rman2 rs _ held2 in
      (rman3, rw (e2, e3) refl, held3, jobs3 ∙ ap (λ js. js ++ length rs ∷ []) jobs2)

  none_free :
      (rman : Resman D) (rs : List (Resource D))
      → Table rman rs
      → free_from rman.res 0 rman.res.nelem ≡ ok none
  none_free rman rs h =
      ap (free_from rman.res 0) (h.counted ∙ length-map rs)
      ∙ free_from-Tail rman.res 0 rs (λ k x at.
        ap (item_at rman.res) (omega arith) ∙ item_at-Holds rman.res (map some rs) k x h at)

  -- `add_resource` on a table without erased slots, where the resource was put at the end of it.
  pub add_resource-pushed :
      (mem : ℕ → Bool) (rman : Resman D) (rs : List (Resource D)) (fname : List ℕ) (d : D)
      (da : Dynarr (Option (Resource D)))
      → Table rman rs
      → dynarr_push mem rman.res (some (some (new_resource fname d))) ≡ ok da
      → Holds da (map some (rs ++ new_resource fname d ∷ []))
      → (rman' : Resman D) × (add_resource true mem rman fname d ≡ ok (rman', some (length rs)))
        × Table rman' (rs ++ added fname d (length rs) ∷ [])
        × (rman'.jobs ≡ rman.jobs ++ length rs ∷ [])
  unfolding add_resource dynarr_size
  add_resource-pushed mem rman rs fname d da h e held =
      let count : rman.res.nelem ≡ length rs = h.counted ∙ length-map rs in
      let (rman3, e3, held3, jobs3) =
        start_resource-last (record rman { res = da }) rs (new_resource fname d) held in
      (rman3, rw (none_free rman rs h, e, count) e3, held3, jobs3)

  item_at-beyond :
      (da : Dynarr (Option (Resource D))) (i : ℕ)
      → get_elem? da.slots i ≡ none
      → item_at da i ≡ out_of_bounds
  unfolding item_at
  item_at-beyond da i h = ap slot_item h

  get_elem?-length : (xs : List (Option (Option (Resource D)))) → get_elem? xs (length xs) ≡ none
  get_elem?-length [] = refl
  get_elem?-length (x ∷ xs) = get_elem?-length xs

  -- `add_resource` on a full table without erased slots that could not grow.
  pub add_resource-lost :
      (mem : ℕ → Bool) (rman : Resman D) (rs : List (Resource D)) (fname : List ℕ) (d : D)
      → Table rman rs
      → rman.res.nelem ≡ rman.res.max_elem
      → dynarr_push mem rman.res (some (some (new_resource fname d))) ≡ ok rman.res
      → add_resource true mem rman fname d ≡ out_of_bounds
  unfolding add_resource dynarr_size start_resource set_id
  add_resource-lost mem rman rs fname d h full kept =
      let beyond =
        item_at-beyond rman.res rman.res.nelem
          (ap (get_elem? rman.res.slots) (full ∙ sym h.sized) ∙ get_elem?-length rman.res.slots) in
      rw (none_free rman rs h, kept, beyond) refl
