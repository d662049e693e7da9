-- ===== src/Rbtree/Api/Iterate.antt =====
-- Iteration and copying in src/rbtree.c: `rb_begin`, `rb_next` and `rb_copy`.
use mathlib.Core.List.{append_assoc, append-nil}
use libresman.Base.{
  ℕ, zero, suc, ◌<◌, ◌≡◌, refl, sym, ap, ◌∙◌, Bool, true, Option, none, some, List, [], ◌∷◌, ◌++◌,
  ok, length, arith,
}
use libresman.Rbtree.{Tree, leaf, node, Keys, traverse, del_tree, count_nodes}
use libresman.Rbtree.Entries.{IsLawful, IsSorted, put, Below, Below-append}
use libresman.Rbtree.Api.{
  Rbtree, Visit, next, rb_next, rb_begin, copy_loop, rb_copy, rb_size, rb_foreach,
}
use libresman.Rbtree.Api.Contract.{entries, IsValid, rb_insert-entries, count_nodes-length}
use libresman.Rbtree.Balance.{nil}

module _ {ℓ κ} {K : Type ℓ} {D : Type κ} where
  -- The entries that an iterator has not given yet.
  unfoldable pub stacked : List (Visit K D) → List (K × D)
  stacked [] = []
  stacked ((k, d, r) ∷ rstack) = ((k, d) ∷ traverse r) ++ stacked rstack

  unfoldable pub remaining : Rbtree K D → List (K × D)
  unfolding stacked
  remaining rb = traverse rb.iter ++ stacked rb.rstack

  abbrev Gives : List (K × D) → Option (K × D) → List (K × D) → Type (ℓ ⊔ κ)
  Gives before none after = (before ≡ []) × (after ≡ [])
  Gives before (some e) after = before ≡ e ∷ after

  next-Gives :
      (rstack : List (Visit K D)) (t : Tree K D)
      → let (res, rstack', iter') = next rstack t in
        Gives (traverse t ++ stacked rstack) res (traverse iter' ++ stacked rstack')
  unfolding next traverse stacked
  next-Gives [] leaf = (refl, refl)
  next-Gives ((k, d, r) ∷ rstack) leaf = refl
  next-Gives rstack (node c k d l r) =
      rw (append_assoc (traverse l) ((k, d) ∷ traverse r) (stacked rstack))
        (next-Gives ((k, d, r) ∷ rstack) l)

  -- Each call gives the first entry that is left, and none when all have been given.
  pub rb_next-Gives :
      (rb : Rbtree K D) → let (res, rb') = rb_next rb in Gives (remaining rb) res (remaining rb')
  unfolding rb_next remaining
  rb_next-Gives rb = next-Gives rb.rstack rb.iter

  pub remaining-rb_begin : (rb : Rbtree K D) → remaining (rb_begin rb) ≡ entries rb
  unfolding remaining rb_begin
  remaining-rb_begin rb = append-nil (traverse rb.root)

  -- A client's loop `rb_begin(rb); while((node = rb_next(rb))) …`, as the list of what it visits.
  unfoldable pub visits : ℕ → Rbtree K D → List (K × D)
  visits zero rb = []
  visits (suc fuel) rb =
      let (res, rb') = rb_next rb in elim res [ none ↦ [] | some e ↦ e ∷ visits fuel rb' ]

  visits_step :
      (fuel : ℕ) (before : List (K × D)) (res : Option (K × D)) (rb' : Rbtree K D)
      → Gives before res (remaining rb')
      → length before < suc fuel
      → (length (remaining rb') < fuel → visits fuel rb' ≡ remaining rb')
      → elim res [ none ↦ [] | some e ↦ e ∷ visits fuel rb' ] ≡ before
  visits_step fuel before none rb' g h ih = sym g.0
  visits_step fuel before (some e) rb' g h ih =
      ap (λ xs. e ∷ xs) (ih (omega (arith, ap length g))) ∙ sym g

  visits-remaining :
      (fuel : ℕ) (rb : Rbtree K D) → length (remaining rb) < fuel → visits fuel rb ≡ remaining rb
  unfolding visits
  visits-remaining zero rb h = elim h [ ]
  visits-remaining (suc fuel) rb h =
      visits_step fuel (remaining rb) (rb_next rb).0 (rb_next rb).1 (rb_next-Gives rb) h
        (visits-remaining fuel (rb_next rb).1)

  -- An iteration from the start visits what `rb_foreach` visits, in that order, and then ends.
  pub visits-rb_begin : (rb : Rbtree K D) → visits (suc (rb_size rb)) (rb_begin rb) ≡ rb_foreach rb
  unfolding rb_size rb_foreach
  visits-rb_begin rb =
      visits-remaining _ (rb_begin rb)
        (rw (remaining-rb_begin rb) (omega (arith, count_nodes-length rb.root)))
      ∙ remaining-rb_begin rb

module _ {ℓ κ} {K : Type ℓ} {D : Type κ} (o : Keys K) (law : IsLawful o) where
  put-last : (xs : List (K × D)) (k : K) (d : D) → Below o xs k → put o k d xs ≡ xs ++ ((k, d) ∷ [])
  unfolding put
  put-last [] k d b = refl
  put-last ((x, e) ∷ xs) k d b =
      rw (law.gt_of_lt x k b.0, put) (ap (λ zs. (x, e) ∷ zs) (put-last xs k d b.1))

-- There is memory for every allocation.
abbrev pub always : ℕ → Bool
always n = true

module _ {ℓ κ} {K : Type ℓ} {D : Type κ} where
  abbrev Copies : Rbtree K D → List (K × D) → ℕ → Rbtree K D → Type (ℓ ⊔ κ)
  Copies dest xs fuel src =
      (t : Tree K D) × (src' : Rbtree K D) × (copy_loop fuel always dest src
        ≡ ok (record dest { root = t }, src'))
      × IsValid (record dest { root = t })
      × (traverse t ≡ xs)

-- The loop from any point: `dest` holds what was visited, and what is left comes after it.
abbrev CopiesFrom {ℓ κ} : Type ℓ → Type κ → ℕ → Type (ℓ ⊔ κ)
CopiesFrom K D fuel =
    (dest src : Rbtree K D)
    → IsLawful dest.keys
    → IsValid dest
    → IsSorted dest.keys (entries dest ++ remaining src)
    → length (remaining src) < fuel
    → Copies dest (entries dest ++ remaining src) fuel src

module _ {ℓ κ} {K : Type ℓ} {D : Type κ} where
  copy_step :
      (fuel : ℕ)
      → CopiesFrom K D fuel
      → (dest src : Rbtree K D) → IsLawful dest.keys
      → IsValid dest
      → IsSorted dest.keys (entries dest ++ remaining src)
      → length (remaining src) < suc fuel
      → (res : Option (K × D)) → (rb_next src).0 ≡ res
      → Gives (remaining src) res (remaining (rb_next src).1)
      → Copies dest (entries dest ++ remaining src) (suc fuel) src
  unfolding copy_loop
  copy_step fuel ih dest src law valid s h none e g = (
    dest.root,
    (rb_next src).1,
    rw (e, copy_loop),
    valid,
    sym (rw g.0 (append-nil (entries dest))),
  )
  copy_step fuel ih dest src law valid s h (some (k, d)) e g =
      let src' = (rb_next src).1 in
      let sorted : IsSorted dest.keys (entries dest ++ ((k, d) ∷ remaining src')) = rw g at s in
      let (t, inserted, valid', content) = rb_insert-entries dest law valid k d in
      let grown : traverse t ≡ entries dest ++ ((k, d) ∷ []) =
        content
        ∙ put-last dest.keys law (entries dest) k d
            (Below-append dest.keys (entries dest) (remaining src') k d sorted) in
      let all : traverse t ++ remaining src' ≡ entries dest ++ remaining src =
        rw (grown, g) (append_assoc (entries dest) ((k, d) ∷ []) (remaining src')) in
      let (t', src'', copied, valid'', content') =
        ih (record dest { root = t }) src' law valid' (rw all s) (omega (arith, ap length g)) in
      (t', src'', rw (e, copy_loop) (rw inserted copied), valid'', content' ∙ all)

  copy_loop-CopiesFrom : (fuel : ℕ) → CopiesFrom K D fuel
  copy_loop-CopiesFrom zero dest src law valid s h = elim h [ ]
  copy_loop-CopiesFrom (suc fuel) dest src law valid s h =
      copy_step fuel (copy_loop-CopiesFrom fuel) dest src law valid s h (rb_next src).0 refl
        (rb_next-Gives src)

  -- A copy for which there is memory ends, and the entries are the same.
  pub rb_copy-entries :
      (dest src : Rbtree K D)
      → IsLawful dest.keys
      → IsSorted dest.keys (entries src)
      → (t : Tree K D) × (src' : Rbtree K D) × (rb_copy always dest src
          ≡ ok (record dest { root = t }, src', del_tree dest.del dest.root))
        × IsValid (record dest { root = t })
        × (traverse t ≡ entries src)
  unfolding rb_copy traverse
  rb_copy-entries dest src law s =
      let start = remaining-rb_begin src in
      let (t, src', copied, valid, content) =
        copy_loop-CopiesFrom (suc (count_nodes src.root)) (record dest { root = leaf })
          (rb_begin src) law (record { height = 0; balanced = nil; sorted = tt }) (rw start s)
          (rw start (omega (arith, count_nodes-length src.root))) in
      (t, src', rw copied, valid, content ∙ start)
