-- ===== src/Rbtree/DelMin.antt =====
-- `del_min` and `find_min` of src/rbtree.c.
use libresman.Base.{
  ℕ, zero, suc, ◌<◌, ◌≡◌, refl, ap, Bool, true, false, none, some, List, [], ◌∷◌, ◌++◌, length,
  length-append, arith,
}
use libresman.Rbtree.{Tree, leaf, node, traverse, find_min}
use libresman.Rbtree.Removal.{del_min, notify}
use libresman.Rbtree.Balance.{Bal, nil, red, black, Shrunk-Bal}
use libresman.Rbtree.Left.{
  IsLocal, Fits, Any, Leaves, IsRemoval, descend_left-Shrunk, descend_left-Bal,
}

module _ {ℓ κ} {K : Type ℓ} {D : Type κ} where
  -- `ys` is `xs` without its first entry.
  abbrev pub Pops : List (K × D) → List (K × D) → Type (ℓ ⊔ κ)
  Pops xs ys = (e : K × D) × (xs ≡ e ∷ ys)

  abbrev pub NoOrder : List (K × D) → Type 0
  NoOrder xs = Unit

  abbrev pub IsFilled : List (K × D) → Type 0
  IsFilled xs = 0 < length xs

  Pops-IsLocal : IsLocal {K = K} {D = D} NoOrder IsFilled Pops
  Pops-IsLocal = record {
    ord_prefix = λ xs zs h. tt;
    pre_append = λ xs zs h. omega (arith, length-append xs zs);
    rel_append = λ xs ys zs pre (e, p). (e, ap (λ us. us ++ zs) p);
  }

  pub IsFilled-node :
      (c : Bool) (k : K) (d : D) (l r : Tree K D) → IsFilled (traverse (node c k d l r))
  unfolding traverse
  IsFilled-node c k d l r = omega (arith, length-append (traverse l) ((k, d) ∷ traverse r))

  del_min_red :
      (f : ℕ) (del : Bool)
      → IsRemoval {K = K} {D = D} NoOrder IsFilled Pops (del_min f del) f
      → {n : ℕ} (k : K) (d : D) {l r : Tree K D} → Bal false n l
      → Bal false n r
      → Fits NoOrder (suc f) (traverse (node true k d l r))
      → Leaves Pops (Any n) (del_min (suc f) del (node true k d l r)) (traverse (node true k d l r))
  unfolding del_min traverse
  del_min_red f del rec k d nil nil h = (leaf, notify del none, refl, (false, nil), ((k, d), refl))
  del_min_red f del rec k d (black {k = lk} {d = ld} {l = ll} {r = lr} w x) y h =
      let (t', log, e, q, rel) =
        descend_left-Shrunk Pops-IsLocal rec true k d (black w x) y
          (IsFilled-node false lk ld ll lr) h in
      (t', log, e, Shrunk-Bal q, rel)

  del_min_black :
      (f : ℕ) (del : Bool)
      → IsRemoval {K = K} {D = D} NoOrder IsFilled Pops (del_min f del) f
      → {n : ℕ} (k : K) (d : D) {l r : Tree K D} → Bal true n l
      → Bal false n r
      → Fits NoOrder (suc f) (traverse (node false k d l r))
      → Leaves Pops
          (Bal false (suc n))
          (del_min (suc f) del (node false k d l r))
          (traverse (node false k d l r))
  unfolding del_min
  del_min_black f del rec k d (red {k = lk} {d = ld} {l = ll} {r = lr} w x) y h =
      descend_left-Bal Pops-IsLocal rec k d (red w x) y (IsFilled-node true lk ld ll lr) h

  -- `del_min` takes the first entry off a balanced tree whose root or whose left child is red.
  pub del_min-IsRemoval :
      (fuel : ℕ) (del : Bool)
      → IsRemoval {K = K} {D = D} NoOrder IsFilled Pops (del_min fuel del) fuel
  del_min-IsRemoval zero del = record {
    at_red = λ k d x y pre h. absurd (omega arith);
    at_black = λ k d x y pre h. absurd (omega arith);
  }
  del_min-IsRemoval (suc f) del = record {
    at_red = λ k d x y pre h. del_min_red f del (del_min-IsRemoval f del) k d x y h;
    at_black = λ k d x y pre h. del_min_black f del (del_min-IsRemoval f del) k d x y h;
  }

  append-eq-cons :
      (xs ys : List (K × D)) {es : List (K × D)} {e : K × D}
      → 0 < length xs
      → xs ++ ys ≡ e ∷ es
      → (zs : List (K × D)) × (xs ≡ e ∷ zs)
  append-eq-cons [] ys h p = elim h [ ]
  append-eq-cons (x ∷ xs) ys h p = (xs, cc)

  -- `find_min` gives the first entry.
  pub find_min-eq-some :
      (t : Tree K D) {e : K × D} {es : List (K × D)} → traverse t ≡ e ∷ es → find_min t ≡ some e
  unfolding find_min traverse
  find_min-eq-some leaf h = cc
  find_min-eq-some (node c k d leaf r) h = cc
  find_min-eq-some (node c k d (node lc lk ld ll lr) r) h =
      find_min-eq-some (node lc lk ld ll lr) (append-eq-cons _ _ (IsFilled-node lc lk ld ll lr) h).1
