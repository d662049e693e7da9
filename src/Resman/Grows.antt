-- ===== src/Resman/Grows.antt =====
-- `resman_add` of src/resman.c on any table, when it returns.
use libresman.Base.{
  ℕ, ◌+◌, ◌*◌, ◌^◌, ◌<◌, ◌≡◌, ◌⊎◌, refl, sym, ap, ◌∙◌, subst, Bool, true, false, Option, none, some,
  List, [], ◌∷◌, ◌++◌, map, ok, length, inl, inr, Bool-cases, Option-cases,
}
use libresman.Base.Outcome.{ok_of_chain, ok-injective}
use libresman.Dynarr.Stack.{Holds}
use libresman.Dynarr.Grow.{dynarr_push-total}
use libresman.Resman.{
  Resource, Resman, same_string, find_resource, add_resource, resman_add, new_resource,
}
use libresman.Resman.Table.{Table, length-map, scan, find_resource-scan}
use libresman.Resman.Append.{added, map-some-end, add_resource-pushed, add_resource-lost}
use libresman.Resman.Moves.{Becomes, become}

module _ {ℓ} {D : Type ℓ} where
  -- A search that ends without a find has met no erased slot.
  scan-none :
      (fname : List ℕ) (i : ℕ) (xs : List (Option (Resource D)))
      → scan fname i xs ≡ ok none
      → (rs : List (Resource D)) × (xs ≡ map some rs)
  scan-none fname i [] e = ([], refl)
  scan-none fname i (none ∷ xs) e = absurd (cc e)
  scan-none fname i (some r ∷ xs) e = elim (Bool-cases (same_string r.name fname)) [
    | inl same ↦ absurd (cc (rw same at e))
    | inr other ↦
        let (rs, h) = scan-none fname (i + 1) xs (rw other at e) in
        (r ∷ rs, ap (λ zs. some r ∷ zs) h)
  ]

  -- What `add_resource` leaves when it returns.
  abbrev pub Grows : D → Resman D → Resman D → List (Option (Resource D)) → Type ℓ
  Grows d rman rman' xs =
      (rman ≡ rman')
      ⊎ ((r : Resource D) × (r.pending ≡ true)
          × (r.done_pending ≡ false)
          × (r.data' ≡ d)
          × (r.num_loads ≡ 0)
          × Becomes rman' (xs ++ some r ∷ []) (rman.jobs ++ length xs ∷ []))

  add_resource-unfed :
      (mem : ℕ → Bool) (rman rman' : Resman D) (fname : List ℕ) (d : D) (id : Option ℕ)
      → add_resource false mem rman fname d ≡ ok (rman', id)
      → rman ≡ rman'
  unfolding add_resource
  add_resource-unfed mem rman rman' fname d id e = ap (λ p. p.0) (ok-injective e)

  add_resource-Grows :
      (alloc : Bool) (mem : ℕ → Bool) (rman rman' : Resman D) (rs : List (Resource D))
      (fname : List ℕ) (d : D) (id : Option ℕ)
      → Table rman rs
      → rman.res.szelem * (2 * rman.res.max_elem + 1) < 2 ^ 31
      → add_resource alloc mem rman fname d ≡ ok (rman', id)
      → Grows d rman rman' (map some rs)
  add_resource-Grows false mem rman rman' rs fname d id h small e =
      inl (add_resource-unfed mem rman rman' fname d id e)
  add_resource-Grows true mem rman rman' rs fname d id h small e =
      let (da, pushed, c) =
        dynarr_push-total mem rman.res (map some rs) (some (new_resource fname d)) h small in
      elim c [
        | inl held ↦
            let (rman1, e1, held1, jobs1) =
              add_resource-pushed mem rman rs fname d da h pushed
                (subst (Holds da) (map-some-end rs _) held) in
            let same : rman1 ≡ rman' = ap (λ p. p.0) (ok-injective (sym e1 ∙ e)) in
            inr (
              added fname d (length rs),
              refl,
              refl,
              refl,
              refl,
              become _ _ _ _ same (
                subst (Holds rman1.res) (sym (map-some-end rs _)) held1,
                jobs1 ∙ ap (λ n. rman.jobs ++ n ∷ []) (sym (length-map rs)),
              ),
            )
        | inr (kept, full, _) ↦
            absurd (cc (e, add_resource-lost mem rman rs fname d h full (pushed ∙ ap ok kept)))
      ]

  -- A call of `resman_add` that returns leaves everything as it was, or puts a pending resource at the
  -- end of the table and a job for it into the queue.
  pub resman_add-Grows :
      (alloc : Bool) (mem : ℕ → Bool) (rman rman' : Resman D) (xs : List (Option (Resource D)))
      (fname : List ℕ) (d : D) (id : Option ℕ)
      → Holds rman.res xs
      → rman.res.szelem * (2 * rman.res.max_elem + 1) < 2 ^ 31
      → resman_add alloc mem rman fname d ≡ ok (rman', id)
      → Grows d rman rman' xs
  unfolding resman_add
  resman_add-Grows alloc mem rman rman' xs fname d id h small e =
      let (o, found, e1) = ok_of_chain (find_resource rman fname) _ e in
      elim (Option-cases o) [
        | inr (i, there) ↦ inl (ap (λ p. p.0) (ok-injective (rw there at e1)))
        | inl missed ↦
            let (rs, all_there) =
              scan-none fname 0 xs
                (sym (find_resource-scan rman xs fname h) ∙ found ∙ ap ok missed) in
            subst (Grows d rman rman') (sym all_there) (
              add_resource-Grows alloc mem rman rman' rs fname d id
                (subst (Holds rman.res) all_there h) small (rw missed at e1))
      ]
