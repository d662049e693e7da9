-- ===== src/Resman/Table.antt =====
-- `find_resource` and `resman_add` of src/resman.c on a table of the array's items.
use libresman.Base.{
  ℕ, zero, suc, ◌+◌, ◌<◌, ◌≡◌, refl, sym, ap, ◌∙◌, Bool, true, Option, none, some, List, [], ◌∷◌,
  ◌++◌, map, Exec, ok, null_deref, if◌then◌else◌, ltb, get_elem?, set, length, length-set,
  length-append, subst, arith, inl, inr, Bool-cases,
}
use libresman.Dynarr.{Dynarr, dynarr_size}
use libresman.Dynarr.Stack.{Holds, nelem-le}
use libresman.Resman.{
  Resource, Resman, same_string, slot_item, item_at, write_at, find_from, find_resource,
  erase_resource, resman_add,
}

module _ {ℓ} {A : Type ℓ} where
  get_elem?-map-some :
      (xs : List A) (rest : List (Option A)) (i : ℕ) (x : A)
      → get_elem? xs i ≡ some x
      → get_elem? (map some xs ++ rest) i ≡ some (some x)
  get_elem?-map-some [] rest i x h = absurd (cc h)
  get_elem?-map-some (y ∷ xs) rest zero x h = ap some h
  get_elem?-map-some (y ∷ xs) rest (suc i) x h = get_elem?-map-some xs rest i x h

  -- An item of the array is read back.
  pub item_at-Holds :
      (da : Dynarr A) (xs : List A) (i : ℕ) (x : A)
      → Holds da xs
      → get_elem? xs i ≡ some x
      → item_at da i ≡ ok x
  unfolding item_at
  item_at-Holds da xs i x h at =
      ap slot_item (ap (λ zs. get_elem? zs i) h.stored ∙ get_elem?-map-some xs h.rest i x at)

module _ {ℓ} {A : Type ℓ} where
  set-map-some :
      (xs : List A) (rest : List (Option A)) (i : ℕ) (a : A)
      → i < length xs
      → set (map some xs ++ rest) i (some a) ≡ map some (set xs i a) ++ rest
  set-map-some [] rest i a h = absurd (omega (arith, h))
  set-map-some (x ∷ xs) rest zero a h = refl
  set-map-some (x ∷ xs) rest (suc i) a h =
      ap (λ zs. some x ∷ zs) (set-map-some xs rest i a (omega (arith, h)))

  -- An item of the array is overwritten.
  pub write_at-Holds :
      (da : Dynarr A) (xs : List A) (i : ℕ) (a : A)
      → Holds da xs
      → i < length xs
      → (da' : Dynarr A) × (write_at da i a ≡ ok da')
        × Holds da' (set xs i a)
        × (da'.nelem ≡ da.nelem)
  unfolding write_at
  write_at-Holds da xs i a h lt =
      let le = nelem-le da xs h in
      let inside : ltb i (length da.slots) ≡ true = ground (arith, h.sized, h.counted) in
      (
        record da { slots = set da.slots i (some a) },
        rw inside refl,
        record {
          counted = h.counted ∙ sym (length-set xs i a);
          rest = h.rest;
          stored = ap (λ zs. set zs i (some a)) h.stored ∙ set-map-some xs h.rest i a lt;
          sized = length-set da.slots i (some a) ∙ h.sized;
          item_pos = h.item_pos;
          fits = h.fits;
          bytes = h.bytes;
          dense = h.dense;
        },
        refl,
      )

module _ {ℓ} {D : Type ℓ} where
  -- Where a name stands in a list of resources that begins at the slot `i`.
  abbrev pub index_from : List ℕ → ℕ → List (Resource D) → Option ℕ
  index_from fname i [] = none
  index_from fname i (r ∷ rs) =
      if same_string r.name fname then some i else index_from fname (i + 1) rs

  -- The part of the table from the slot `i` on.
  abbrev pub Tail : Dynarr (Option (Resource D)) → ℕ → List (Option (Resource D)) → Type ℓ
  Tail da i xs =
      (k : ℕ) (x : Option (Resource D)) → get_elem? xs k ≡ some x → item_at da (i + k) ≡ ok x

  -- The search on a list of slots; it ends at an erased one.
  abbrev pub scan : List ℕ → ℕ → List (Option (Resource D)) → Exec (Option ℕ)
  scan fname i [] = ok none
  scan fname i (none ∷ xs) = null_deref
  scan fname i (some r ∷ xs) =
      if same_string r.name fname then ok (some i) else scan fname (i + 1) xs

  find_from-Tail :
      (da : Dynarr (Option (Resource D))) (fname : List ℕ) (i : ℕ) (xs : List (Option (Resource D)))
      → Tail da i xs
      → find_from da fname i (length xs) ≡ scan fname i xs
  unfolding find_from
  find_from-Tail da fname i [] t = refl
  find_from-Tail da fname i (none ∷ xs) t =
      let here : item_at da i ≡ ok none = ap (item_at da) (omega arith) ∙ t 0 none refl in
      rw here refl
  find_from-Tail da fname i (some r ∷ xs) t =
      let here : item_at da i ≡ ok (some r) = ap (item_at da) (omega arith) ∙ t 0 (some r) refl in
      let later =
        find_from-Tail da fname (i + 1) xs
          (λ k x h. ap (item_at da) (omega arith) ∙ t (suc k) x h) in
      rw (here, later) refl

  scan-map-some :
      (fname : List ℕ) (i : ℕ) (rs : List (Resource D))
      → scan fname i (map some rs) ≡ ok (index_from fname i rs)
  scan-map-some fname i [] = refl
  scan-map-some fname i (r ∷ rs) = elim (Bool-cases (same_string r.name fname)) [
    | inl same ↦ rw same refl
    | inr other ↦ rw other (scan-map-some fname (i + 1) rs)
  ]

  scan-hole :
      (fname : List ℕ) (i : ℕ) (rs : List (Resource D)) (ys : List (Option (Resource D)))
      → index_from fname i rs ≡ none
      → scan fname i (map some rs ++ none ∷ ys) ≡ null_deref
  scan-hole fname i [] ys h = refl
  scan-hole fname i (r ∷ rs) ys h = elim (Bool-cases (same_string r.name fname)) [
    | inl same ↦ absurd (cc (rw same at h))
    | inr other ↦ rw other (scan-hole fname (i + 1) rs ys (rw other at h))
  ]

  pub find_resource-scan :
      (rman : Resman D) (xs : List (Option (Resource D))) (fname : List ℕ)
      → Holds rman.res xs
      → find_resource rman fname ≡ scan fname 0 xs
  unfolding find_resource dynarr_size
  find_resource-scan rman xs fname h =
      ap (find_from rman.res fname 0) h.counted
      ∙ find_from-Tail rman.res fname 0 xs
          (λ k x at. ap (item_at rman.res) (omega arith) ∙ item_at-Holds rman.res xs k x h at)

  pub length-map : (rs : List (Resource D)) → length (map some rs) ≡ length rs
  length-map [] = refl
  length-map (r ∷ rs) = ap suc (length-map rs)

  -- The table holds the resources `rs`, one in each slot.
  abbrev pub Table : Resman D → List (Resource D) → Type ℓ
  Table rman rs = Holds rman.res (map some rs)

  -- On a table without erased slots `find_resource` gives the first slot whose resource has the name,
  -- and -1 where there is none.
  pub find_resource-Table :
      (rman : Resman D) (rs : List (Resource D)) (fname : List ℕ)
      → Table rman rs
      → find_resource rman fname ≡ ok (index_from fname 0 rs)
  find_resource-Table rman rs fname h =
      find_resource-scan rman (map some rs) fname h ∙ scan-map-some fname 0 rs

  set-hole :
      (rs : List (Resource D)) (r : Resource D) (ts : List (Resource D))
      → set (map some (rs ++ r ∷ ts)) (length rs) none ≡ map some rs ++ none ∷ map some ts
  set-hole [] r ts = refl
  set-hole (x ∷ rs) r ts = ap (λ zs. some x ∷ zs) (set-hole rs r ts)

  get_elem?-middle :
      (rs : List (Resource D)) (r : Resource D) (ts : List (Resource D))
      → get_elem? (map some (rs ++ r ∷ ts)) (length rs) ≡ some (some r)
  get_elem?-middle [] r ts = refl
  get_elem?-middle (x ∷ rs) r ts = get_elem?-middle rs r ts

  -- Once a resource was removed from the table, a search for a name that none of the resources before
  -- its slot has, and so every addition of a new name, goes through a null pointer.
  pub erase_resource-find_resource :
      (rman : Resman D) (rs : List (Resource D)) (r : Resource D) (ts : List (Resource D))
      (fname : List ℕ)
      → Table rman (rs ++ r ∷ ts)
      → index_from fname 0 rs ≡ none
      → (rman' : Resman D) × (erase_resource rman (length rs) ≡ ok rman')
        × (find_resource rman' fname ≡ null_deref)
        × ((alloc : Bool) (mem : ℕ → Bool) (d : D)
            → resman_add alloc mem rman' fname d ≡ null_deref)
  unfolding erase_resource resman_add
  erase_resource-find_resource rman rs r ts fname h absent =
      let here = item_at-Holds rman.res _ (length rs) (some r) h (get_elem?-middle rs r ts) in
      let inside : length rs < length (map some (rs ++ r ∷ ts)) =
        omega (arith, length-map (rs ++ r ∷ ts), length-append rs (r ∷ ts)) in
      let (da, e, held, _) = write_at-Holds rman.res _ (length rs) none h inside in
      let rman' = record rman {
        res = da;
        destroyed = if rman.destroy_func then rman.destroyed ++ length rs ∷ [] else rman.destroyed;
      } in
      let lost : find_resource rman' fname ≡ null_deref =
        find_resource-scan rman' (map some rs ++ none ∷ map some ts) fname
          (subst (Holds da) (set-hole rs r ts) held)
        ∙ scan-hole fname 0 rs (map some ts) absent in
      (rman', rw (here, e) refl, lost, λ alloc mem d. rw lost refl)
