-- ===== src/Resman/Erased.antt =====
-- `add_resource` of src/resman.c on tables with an erased slot.
use libresman.Base.{
  ℕ, suc, ◌+◌, ◌≡◌, refl, ap, ◌∙◌, Bool, true, Option, none, some, List, [], ◌∷◌, ◌++◌, map, ok,
  null_deref, length, get_elem?, arith,
}
use libresman.Dynarr.{Dynarr, dynarr_size}
use libresman.Dynarr.Stack.{Holds}
use libresman.Resman.{Resource, Resman, item_at, free_from, set_id, start_resource, add_resource}
use libresman.Resman.Table.{Tail, item_at-Holds}

module _ {ℓ} {D : Type ℓ} where
  free_from-erased :
      (da : Dynarr (Option (Resource D))) (i : ℕ) (rs : List (Resource D))
      (ys : List (Option (Resource D)))
      → Tail da i (map some rs ++ none ∷ ys)
      → free_from da i (length (map some rs ++ none ∷ ys)) ≡ ok (some (i + length rs))
  unfolding free_from
  free_from-erased da i [] ys t =
      let here : item_at da i ≡ ok none = ap (item_at da) (omega arith) ∙ t 0 none refl in
      rw here (ap (λ k. ok (some k)) (omega arith))
  free_from-erased da i (r ∷ rs) ys t =
      let here : item_at da i ≡ ok (some r) = ap (item_at da) (omega arith) ∙ t 0 (some r) refl in
      let later =
        free_from-erased da (i + 1) rs ys
          (λ k x h. ap (item_at da) (omega arith) ∙ t (suc k) x h) in
      rw here (later ∙ ap (λ k. ok (some k)) (omega arith))

  get_elem?-erased :
      (rs : List (Resource D)) (ys : List (Option (Resource D)))
      → get_elem? (map some rs ++ none ∷ ys) (length rs) ≡ some none
  get_elem?-erased [] ys = refl
  get_elem?-erased (r ∷ rs) ys = get_elem?-erased rs ys

  -- Where the table has an erased slot, `add_resource` goes through a null pointer: it takes the slot
  -- for its own and replaces the new resource by what the slot holds.
  pub add_resource-erased :
      (mem : ℕ → Bool) (rman : Resman D) (rs : List (Resource D)) (ys : List (Option (Resource D)))
      (fname : List ℕ) (d : D)
      → Holds rman.res (map some rs ++ none ∷ ys)
      → add_resource true mem rman fname d ≡ null_deref
  unfolding add_resource start_resource set_id dynarr_size
  add_resource-erased mem rman rs ys fname d h =
      let spot : free_from rman.res 0 rman.res.nelem ≡ ok (some (length rs)) =
        ap (free_from rman.res 0) h.counted
        ∙ free_from-erased rman.res 0 rs ys
            (λ k x at. ap (item_at rman.res) (omega arith) ∙ item_at-Holds rman.res _ k x h at)
        ∙ ap (λ k. ok (some k)) (omega arith) in
      rw (spot, item_at-Holds rman.res _ (length rs) none h (get_elem?-erased rs ys)) refl
