-- ===== src/Resman/Access.antt =====
-- The functions of src/resman.c that read or write one resource by its number.
use libresman.Base.{
  ℕ, ◌≡◌, refl, true, Option, none, some, List, Exec, ok, if◌then◌else◌, ltb, get_elem?,
  get_elem?-set_self, set, length-set, arith,
}
use libresman.Base.Int.{ℤ, pos, negsuc}
use libresman.Base.Outcome.{◌>>=◌}
use libresman.Dynarr.{dynarr_size}
use libresman.Dynarr.Stack.{Holds}
use libresman.Resman.{Resource, Resman, deref, item_at, write_at, find_resource}
use libresman.Resman.Table.{item_at-Holds}
use libresman.Resman.Work.{minus_one}
use libresman.Resman.Owed.{rewrite_slot, lt-of-get_elem?}

module _ {ℓ κ} {D : Type ℓ} {A : Type κ} where
  -- `other` for a number outside the table, else a field of the resource.
  abbrev pub field_or : A → (Resource D → A) → Resman D → ℤ → Exec A
  field_or other field rman (negsuc n) = ok other
  field_or other field rman (pos i) =
      if ltb i (dynarr_size rman.res)
      then (do slot ← item_at rman.res i; r ← deref slot; ok (field r))
      else ok other

module _ {ℓ} {D : Type ℓ} where
  unfoldable pub resman_find : Resman D → List ℕ → Exec (Option ℕ)
  resman_find rman fname = find_resource rman fname

  unfoldable pub resman_get_res_name : Resman D → ℤ → Exec (Option (List ℕ))
  resman_get_res_name = field_or none (λ r. some r.name)

  unfoldable pub resman_get_res_data : Resman D → ℤ → Exec (Option D)
  resman_get_res_data = field_or none (λ r. some r.data')

  unfoldable pub resman_get_res_result : Resman D → ℤ → Exec ℕ
  resman_get_res_result = field_or minus_one (λ r. r.result)

  unfoldable pub resman_get_res_load_count : Resman D → ℤ → Exec ℕ
  resman_get_res_load_count = field_or minus_one (λ r. r.num_loads)

  unfoldable pub resman_set_res_data : Resman D → ℤ → D → Exec (Resman D)
  resman_set_res_data rman (negsuc n) d = ok rman
  resman_set_res_data rman (pos i) d =
      if ltb i (dynarr_size rman.res)
      then (do
        slot ← item_at rman.res i
        r ← deref slot
        res' ← write_at rman.res i (some (record r { data' = d }))
        ok (record rman { res = res' }))
      else ok rman

  -- What `resman_set_res_data` stores for a resource in the table is what `resman_get_res_data` gives
  -- for it afterwards, and it changes the name of no resource.
  pub get_data-set_data :
      (rman : Resman D) (xs : List (Option (Resource D))) (i : ℕ) (r : Resource D) (d : D)
      → Holds rman.res xs
      → get_elem? xs i ≡ some (some r)
      → (rman' : Resman D) × (resman_set_res_data rman (pos i) d ≡ ok rman')
        × (resman_get_res_data rman' (pos i) ≡ ok (some d))
        × (resman_get_res_name rman' (pos i) ≡ resman_get_res_name rman (pos i))
  unfolding resman_set_res_data resman_get_res_data resman_get_res_name dynarr_size
  get_data-set_data rman xs i r d h at =
      let r' = record r { data' = d } in
      let (da, here, w, held) = rewrite_slot rman.res xs i r (some r') h at in
      let lt = lt-of-get_elem? xs i (some r) at in
      let there =
        item_at-Holds da (set xs i (some r')) i (some r') held
          (get_elem?-set_self xs i (some r') lt) in
      let inside : ltb i rman.res.nelem ≡ true = ground (arith, lt, h.counted) in
      let inside' : ltb i da.nelem ≡ true =
        ground (arith, lt, held.counted, length-set xs i (some r')) in
      (
        record rman { res = da },
        rw (inside, here, w) refl,
        rw (inside', there) refl,
        rw (inside', there, inside, here) refl,
      )
