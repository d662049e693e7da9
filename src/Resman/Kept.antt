-- ===== src/Resman/Kept.antt =====
-- What the calls of src/resman.c that add or reload a resource leave of the callbacks.
use libresman.Base.{
  ℕ, ◌≡◌, sym, ap, ◌∙◌, Bool, true, false, Option, some, List, ok, inl, inr, Option-cases,
}
use libresman.Base.Outcome.{◌>>=◌, ok_of_chain, ok-injective}
use libresman.Dynarr.{dynarr_size, dynarr_push}
use libresman.Resman.{
  Resman, deref, item_at, write_at, find_resource, free_from, resman_reload, set_id, new_resource,
  start_resource, add_resource, resman_add,
}

module _ {ℓ} {D : Type ℓ} where
  pub resman_reload-destroy_func :
      (rman rman' : Resman D) (i : ℕ)
      → resman_reload rman i ≡ ok rman'
      → rman'.destroy_func ≡ rman.destroy_func
  unfolding resman_reload
  resman_reload-destroy_func rman rman' i e =
      let (slot, _, e1) = ok_of_chain (item_at rman.res i) _ e in
      let (r, _, e2) = ok_of_chain (deref slot) _ e1 in
      let (da, _, e3) =
        ok_of_chain (write_at rman.res i (some (record r { pending = true }))) _ e2 in
      ap (λ (q : Resman D). q.destroy_func) (sym (ok-injective e3))

  set_id-destroy_func :
      (rman rman' : Resman D) (i : ℕ)
      → set_id rman i ≡ ok rman'
      → rman'.destroy_func ≡ rman.destroy_func
  unfolding set_id
  set_id-destroy_func rman rman' i e =
      let (slot, _, e1) = ok_of_chain (item_at rman.res i) _ e in
      let (r, _, e2) = ok_of_chain (deref slot) _ e1 in
      let (da, _, e3) = ok_of_chain (write_at rman.res i (some (record r { id = i }))) _ e2 in
      ap (λ (q : Resman D). q.destroy_func) (sym (ok-injective e3))

  start_resource-destroy_func :
      (rman rman' : Resman D) (i : ℕ) (id : Option ℕ)
      → start_resource rman i ≡ ok (rman', id)
      → rman'.destroy_func ≡ rman.destroy_func
  unfolding start_resource
  start_resource-destroy_func rman rman' i id e =
      let (rman2, e2, rest) = ok_of_chain (set_id rman i) _ e in
      let (rman3, e3, end) = ok_of_chain (resman_reload rman2 i) _ rest in
      ap (λ (q : Resman D × Option ℕ). q.0.destroy_func) (sym (ok-injective end))
      ∙ resman_reload-destroy_func rman2 rman3 i e3
      ∙ set_id-destroy_func rman rman2 i e2

  add_resource-destroy_func :
      (alloc : Bool) (mem : ℕ → Bool) (rman rman' : Resman D) (fname : List ℕ) (d : D)
      (id : Option ℕ)
      → add_resource alloc mem rman fname d ≡ ok (rman', id)
      → rman'.destroy_func ≡ rman.destroy_func
  unfolding add_resource
  add_resource-destroy_func false mem rman rman' fname d id e =
      ap (λ (q : Resman D × Option ℕ). q.0.destroy_func) (sym (ok-injective e))
  add_resource-destroy_func true mem rman rman' fname d id e =
      let (slot, _, e1) = ok_of_chain (free_from rman.res 0 (dynarr_size rman.res)) _ e in
      elim (Option-cases slot) [
        | inr (i, at) ↦ start_resource-destroy_func rman rman' i id (rw at at e1)
        | inl missed ↦
            let pushing = dynarr_push mem rman.res (some (some (new_resource fname d))) >>= λ res'.
            ok (record rman { res = res' }, dynarr_size rman.res) in
            let ((rman2, i), e2, rest) = ok_of_chain pushing _ (rw missed at e1) in
            let (da, _, end) =
              ok_of_chain (dynarr_push mem rman.res (some (some (new_resource fname d)))) _ e2 in
            start_resource-destroy_func rman2 rman' i id rest
            ∙ ap (λ (q : Resman D × ℕ). q.0.destroy_func) (sym (ok-injective end))
      ]

  pub resman_add-destroy_func :
      (alloc : Bool) (mem : ℕ → Bool) (rman rman' : Resman D) (fname : List ℕ) (d : D)
      (id : Option ℕ)
      → resman_add alloc mem rman fname d ≡ ok (rman', id)
      → rman'.destroy_func ≡ rman.destroy_func
  unfolding resman_add
  resman_add-destroy_func alloc mem rman rman' fname d id e =
      let (o, found, e1) = ok_of_chain (find_resource rman fname) _ e in
      elim (Option-cases o) [
        | inr (i, there) ↦
            ap (λ (q : Resman D × Option ℕ). q.0.destroy_func) (sym (ok-injective (rw there at e1)))
        | inl missed ↦ add_resource-destroy_func alloc mem rman rman' fname d id (rw missed at e1)
      ]
