-- ===== src/Rbtree/Insert.antt =====
-- `insert` of src/rbtree.c on balanced ordered trees.

use libresman.Base.{
  ℕ, suc, ◌≡◌, refl, ap, sym, ◌∙◌, Bool, true, false, ok, ◌∷◌, ◌++◌, inl, inr, Ordering-cases,
}
use libresman.Base.Int.{sign}
use libresman.Rbtree.{Tree, leaf, node, Keys, traverse, fix_up, insert}
use libresman.Rbtree.Entries.{IsLawful, IsSorted, put, IsSorted-left, IsSorted-right}
use libresman.Rbtree.Entries.Search.{put-append_lt, put-append_ge}
use libresman.Rbtree.Contents.{traverse-fix_up}
use libresman.Rbtree.Balance.{
  Bal, nil, red, black, is_red-Bal, Shrunk-Bal, Fixes, fix_up-id, fix_up-lean, fix_up-pair,
}
use libresman.Rbtree.Left.{Any}

-- A red node, whose left child may be red too.
pub data LeansRed {ℓ κ} {K : Type ℓ} {D : Type κ} : ℕ → Tree K D → Type (ℓ ⊔ κ) where
  leans :
      {b : Bool} {n : ℕ} {k : K} {d : D} {l r : Tree K D}
      → Bal b n l
      → Bal false n r
      → LeansRed n (node true k d l r)

module _ {ℓ κ} {K : Type ℓ} {D : Type κ} where
  -- What an insertion makes of a balanced tree: a red root may get a red left child.
  abbrev pub Grown : Bool → ℕ → Tree K D → Type (ℓ ⊔ κ)
  Grown true n t = LeansRed n t
  Grown false n t = Any n t

  fix_up-leans :
      (k : K) (d : D) {b : Bool} {n : ℕ} {l r : Tree K D}
      → Bal false n l
      → Bal b n r
      → Fixes (LeansRed n) (node true k d l r)
  unfolding fix_up
  fix_up-leans k d x nil = (_, fix_up-id true k d x nil, leans x nil)
  fix_up-leans k d x (black y z) = (_, fix_up-id true k d x (black y z), leans x (black y z))
  fix_up-leans k d {l = l} x (red {k = kr} {d = dr} {l = rl} {r = rr} y z) = (
    node true kr dr (node true k d l rl) rr,
    rw (is_red-Bal x) (rw (is_red-Bal z)),
    leans (red x y) z,
  )

module _ {ℓ κ} {K : Type ℓ} {D : Type κ} (o : Keys K) (law : IsLawful o) (key : K) (v : D) where
  -- The insertion ends, in a tree of the shape `Q` with the entry in its place.
  abbrev pub Inserts {π} : (Tree K D → Type π) → Tree K D → Type (ℓ ⊔ κ ⊔ π)
  Inserts Q t =
      (t' : Tree K D) × (insert o true t key v ≡ ok t')
      × Q t'
      × (traverse t' ≡ put o key v (traverse t))

  -- One node deep: what happens to the children, and what the repairs make of it.
  grow {μ ν π} :
      {P : Tree K D → Type μ} {P' : Tree K D → Type ν} {Q : Tree K D → Type π} (c : Bool) (k : K)
      (d : D) (l r : Tree K D)
      → IsSorted o (traverse (node c k d l r))
      → Inserts P l
      → Inserts P' r
      → ((l' : Tree K D) → P l' → Fixes Q (node c k d l' r))
      → Fixes Q (node c k v l r)
      → ((r' : Tree K D) → P' r' → Fixes Q (node c k d l r'))
      → Inserts Q (node c k d l r)
  unfolding insert traverse put
  grow c k d l r s (l', le, lp, lc) (r', re, rp, rc) fix_l (th, fh, qh) fix_r =
      elim (Ordering-cases (sign (o.cmp key k))) [
        | inl e ↦
            let (t', f, q) = fix_l l' lp in
            (
              t',
              rw (e, insert) (rw le (rw f)),
              q,
              traverse-fix_up (node c k d l' r) f
                  ∙ ap (λ xs. xs ++ ((k, d) ∷ traverse r)) lc
                  ∙ sym (put-append_lt o law (traverse l) (traverse r) key k d v e),
            )
        | inr (inl e) ↦ (
          th,
          rw (e, insert) (rw fh),
          qh,
          traverse-fix_up (node c k v l r) fh
              ∙ sym (
                  put-append_ge o law (traverse l) (traverse r) key k d v s (λ p. cc)
                  ∙ (rw (e, put))),
        )
        | inr (inr e) ↦
            let (t', f, q) = fix_r r' rp in
            (
              t',
              rw (e, insert) (rw re (rw f)),
              q,
              traverse-fix_up (node c k d l r') f
                  ∙ ap (λ xs. traverse l ++ ((k, d) ∷ xs)) rc
                  ∙ sym (
                      put-append_ge o law (traverse l) (traverse r) key k d v s (λ p. cc)
                      ∙ (rw (e, put))),
            )
      ]

  black_left :
      (c : Bool) (k : K) (d : D) (l : Tree K D) {n : ℕ} {r : Tree K D}
      → Bal false n r
      → Grown c n l
      → Fixes (Any (suc n)) (node false k d l r)
  black_left false k d l y (b, x) = (_, fix_up-id false k d x y, (false, black x y))
  black_left true k d l y (leans {k = lk} {d = ld} w x) =
      let (t', f, q) = fix_up-pair false k lk d ld w x y in (t', f, Shrunk-Bal q)

  black_right :
      {c b : Bool} (k : K) (d : D) {n : ℕ} {l r : Tree K D}
      → Bal c n l
      → Bal b n r
      → Fixes (Any (suc n)) (node false k d l r)
  black_right k d nil y = let (t', f, q) = fix_up-lean k d nil y in (t', f, (false, q))
  black_right k d (black w x) y =
      let (t', f, q) = fix_up-lean k d (black w x) y in (t', f, (false, q))
  black_right k d (red {k = lk} {d = ld} w x) y =
      let (t', f, q) = fix_up-pair false k lk d ld w x y in (t', f, Shrunk-Bal q)

  pub insert-Grown :
      {c : Bool} {n : ℕ} {t : Tree K D}
      → Bal c n t
      → IsSorted o (traverse t)
      → Inserts (Grown c n) t
  unfolding insert traverse put
  insert-Grown nil s = (node true key v leaf leaf, refl, (true, red nil nil), refl)
  insert-Grown (red {k = k} {d = d} {l = l} {r = r} x y) s =
      grow true k d l r s (insert-Grown x (IsSorted-left o true k d l r s))
        (insert-Grown y (IsSorted-right o true k d l r s))
        (λ l' (b, q). (_, fix_up-id true k d q y, leans q y)) (_, fix_up-id true k v x y, leans x y)
        (λ r' (b, q). fix_up-leans k d x q)
  insert-Grown (black {c = c} {k = k} {d = d} {l = l} {r = r} x y) s =
      grow false k d l r s (insert-Grown x (IsSorted-left o false k d l r s))
        (insert-Grown y (IsSorted-right o false k d l r s)) (λ l' q. black_left c k d l' y q)
        (_, fix_up-id false k v x y, (false, black x y)) (λ r' (b, q). black_right k d x q)
