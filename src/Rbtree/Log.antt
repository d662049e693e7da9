-- ===== src/Rbtree/Log.antt =====
-- What a deletion of src/rbtree.c hands to `rb->del` and `rb->free`.
use Prim.Native.Nat.Ordering.{eq}
use libresman.Base.{
  ℕ, zero, suc, ◌≡◌, refl, sym, subst, Bool, true, false, none, List, ◌∷◌, inl, inr, Exec, ok,
  null_deref, Option-cases, ◌≤◌, arith, ◌∙◌,
}
use libresman.Base.Int.{sign}
use libresman.Base.Outcome.{ok_of_chain, ok-injective, ◌>>=◌}
use libresman.Rbtree.Entries.{IsLawful, erase, has, has-append}
use libresman.Rbtree.Api.{Rbtree, rb_delete, rb_size}
use libresman.Rbtree.Api.Contract.{IsValid, entries, rb_delete-entries}
use libresman.Rbtree.{
  is_red, traverse, count_nodes, blacken, Tree, leaf, node, Keys, Event, left_of, set_left, fix_up,
  find_min,
}
use libresman.Rbtree.Removal.{
  Removal, notify, lean_left, lean_right, turn_right, descend_left, del_min, replace_min,
  remove_right, descend_right, delete_step, delete,
}

module _ {ℓ κ} {K : Type ℓ} {D : Type κ} where
  -- A call that ends leaves a log that satisfies `P`.
  abbrev Logs {π} : (List (Event K D) → Type π) → Removal K D → Type (ℓ ⊔ κ ⊔ π)
  Logs P e = (t : Tree K D) (log : List (Event K D)) → e ≡ ok (t, log) → P log

  -- A function that ends with the log of the call that it makes.
  bind-Logs {π ρ} :
      {A : Type ρ} (P : List (Event K D) → Type π) (m : Exec A) (g : A → Removal K D)
      → ((a : A) → Logs P (g a))
      → Logs P (m >>= g)
  bind-Logs P m g h t log e = let (a, _, e') = ok_of_chain m g e in h a t log e'

  descend_left-Logs {π} :
      (P : List (Event K D) → Type π) (f : Tree K D → Removal K D)
      → ((u : Tree K D) → Logs P (f u))
      → (t : Tree K D) → Logs P (descend_left f t)
  unfolding descend_left
  descend_left-Logs P f h t = bind-Logs P (lean_left t) _ λ t1.
      bind-Logs P (left_of t1) _ λ l u log e.
        let (x, e1, e2) = ok_of_chain (f l) _ e in
        let (t2, _, e3) = ok_of_chain (set_left t1 x.0) _ e2 in
        let (t3, _, e4) = ok_of_chain (fix_up t2) _ e3 in subst P (cc) (h l x.0 x.1 e1)

  -- Whatever `del_min` unlinks, it hands null to `rb->del` and `rb->free`.
  pub del_min-Logs :
      (fuel : ℕ) (del : Bool) (t : Tree K D)
      → Logs (λ log. log ≡ notify del none) (del_min fuel del t)
  unfolding del_min
  del_min-Logs zero del t u log e = cc
  del_min-Logs (suc f) del leaf u log e = cc
  del_min-Logs (suc f) del (node c k d leaf r) u log e = cc
  del_min-Logs (suc f) del (node c k d (node lc lk ld ll lr) r) u log e =
      descend_left-Logs (λ log. log ≡ notify del none) (del_min f del) (del_min-Logs f del)
        (node c k d (node lc lk ld ll lr) r) u log e

  -- `lean_right` keeps the node at the root.
  lean_right-root :
      (c : Bool) (k : K) (d : D) (l r : Tree K D) {t1 : Tree K D}
      → lean_right (node c k d l r) ≡ ok t1
      → (c' : Bool) × (l' : Tree K D) × (r' : Tree K D) × (t1 ≡ node c' k d l' r')
  unfolding lean_right
  lean_right-root c k d l leaf h = cc
  lean_right-root c k d l (node true rk rd rl rr) h = (c, l, node true rk rd rl rr, cc)
  lean_right-root c k d l (node false rk rd (node true xk xd xl xr) rr) h =
      (c, l, _, sym (ok-injective h))
  lean_right-root c k d leaf (node false rk rd leaf rr) h = cc
  lean_right-root c k d leaf (node false rk rd (node false _ _ _ _) rr) h = cc
  lean_right-root c k d (node _ _ _ _ _) (node false rk rd leaf rr) h =
      (_, _, _, sym (ok-injective h))
  lean_right-root c k d (node _ _ _ _ _) (node false rk rd (node false _ _ _ _) rr) h =
      (_, _, _, sym (ok-injective h))

  replace_min-Logs {π} :
      (P : List (Event K D) → Type π) (fmin : Tree K D → Removal K D)
      → ((u : Tree K D) → Logs P (fmin u))
      → (t : Tree K D) → Logs P (replace_min fmin t)
  unfolding replace_min
  replace_min-Logs P fmin h leaf u log e = cc
  replace_min-Logs P fmin h (node c k d l r) u log e = elim (Option-cases (find_min r)) [
    | inl n ↦
        let e' : ◌≡◌ {A = Removal K D} null_deref (ok (u, log)) = rw (n, replace_min) at e in cc
    | inr (m, s) ↦
        let (x, e1, e2) = ok_of_chain (fmin r) _ (rw (s, replace_min) at e) in
        subst P (cc) (h r x.0 x.1 e1)
  ]

module _ {ℓ κ} {K : Type ℓ} {D : Type κ} (o : Keys K) (key : K) where
  -- Where the node at the root holds the key, it takes the place of the least node on its right.
  remove_right-Logs {π} :
      (P : List (Event K D) → Type π) (fmin f : Tree K D → Removal K D)
      → ((u : Tree K D) → Logs P (fmin u))
      → (c : Bool) (k : K) (d : D) (l r : Tree K D) → o.same key k ≡ true
      → Logs P (remove_right o fmin f (node c k d l r) key)
  unfolding remove_right
  remove_right-Logs P fmin f h c k d l r hit u log e =
      let (t1, lean, e1) = ok_of_chain (lean_right (node c k d l r)) _ e in
      let (c', l', r', shape) = lean_right-root c k d l r lean in
      let (x, e2, e3) =
        ok_of_chain (replace_min fmin (node c' k d l' r')) _ (rw hit at (rw shape at e1)) in
      let (t3, _, e4) = ok_of_chain (fix_up x.0) _ e3 in
      subst P (cc) (replace_min-Logs P fmin h (node c' k d l' r') x.0 x.1 e2)

  delete-inner :
      (fuel : ℕ) (del : Bool) (c : Bool) (k : K) (d : D) (l : Tree K D) (rc : Bool) (rk : K)
      (rd : D) (rl rr : Tree K D)
      → is_red l ≡ false
      → o.same key k ≡ true
      → sign (o.cmp key k) ≡ eq
      → Logs
          (λ log. log ≡ notify del none)
          (delete o (suc fuel) del (node c k d l (node rc rk rd rl rr)) key)
  unfolding delete delete_step descend_right turn_right
  delete-inner fuel del c k d l rc rk rd rl rr lean hit found u log e =
      remove_right-Logs (λ log. log ≡ notify del none) (del_min fuel del)
        (λ u. delete o fuel del u key) (del_min-Logs fuel del) c k d l (node rc rk rd rl rr) hit u
        log (rw lean at (rw (found, delete_step) at e))

  delete-at :
      (fuel : ℕ) (del : Bool) (t : Tree K D) {c : Bool} {k : K} {d : D} {l : Tree K D} {rc : Bool}
      {rk : K} {rd : D} {rl rr : Tree K D}
      → t ≡ node c k d l (node rc rk rd rl rr)
      → is_red l ≡ false
      → o.same key k ≡ true
      → sign (o.cmp key k) ≡ eq
      → Logs (λ log. log ≡ notify del none) (delete o (suc fuel) del t key)
  delete-at fuel del t {c} {k} {d} {l} {rc} {rk} {rd} {rl} {rr} shape lean hit found =
      rw shape (delete-inner fuel del c k d l rc rk rd rl rr lean hit found)

  has-root :
      (t : Tree K D) {c : Bool} {k : K} {d : D} {l r : Tree K D}
      → t ≡ node c k d l r
      → o.same key k ≡ true
      → has o key (traverse t) ≡ true
  unfolding traverse
  has-root t {k = k} {d = d} {l = l} {r = r} shape hit =
      rw shape (ground (arith, has-append o key (traverse l) ((k, d) ∷ traverse r)))

  two-le-count_nodes :
      (t : Tree K D) {c : Bool} {k : K} {d : D} {l : Tree K D} {rc : Bool} {rk : K} {rd : D}
      {rl rr : Tree K D}
      → t ≡ node c k d l (node rc rk rd rl rr)
      → 2 ≤ count_nodes t
  unfolding count_nodes
  two-le-count_nodes t shape = rw shape (omega arith)

module _ {ℓ κ} {K : Type ℓ} {D : Type κ} where
  -- A node that a deletion unlinks from below the deleted entry is neither freed nor handed to
  -- `rb->del`: both get null. This is so whenever the entry stands at a root with entries on both
  -- sides and no red left child, though the deletion ends and takes the entry out.
  pub rb_delete-leaks :
      (rb : Rbtree K D)
      → IsLawful rb.keys
      → IsValid rb
      → (c : Bool) (k : K) (d : D) (l : Tree K D) (rc : Bool) (rk : K) (rd : D) (rl rr : Tree K D)
      → rb.root ≡ node c k d l (node rc rk rd rl rr)
      → is_red l ≡ false
      → (rb' : Rbtree K D) × (rb_delete rb k ≡ ok (rb', notify rb.del none))
        × (entries rb' ≡ erase rb.keys k (entries rb))
  unfolding rb_delete rb_size
  rb_delete-leaks rb law valid c k d l rc rk rd rl rr shape lean =
      let hit = (law.same_iff k k).1 refl in
      let (t, log, e, _, content) =
        rb_delete-entries rb law valid k (has-root rb.keys k rb.root shape hit)
          (two-le-count_nodes rb.keys k rb.root shape) in
      let (x, e1, e2) =
        ok_of_chain (delete rb.keys (suc (count_nodes rb.root)) rb.del rb.root k) _ e in
      let (t', _, e3) = ok_of_chain (blacken x.0) _ e2 in
      let handed : Logs (λ log. log ≡ notify rb.del none)
          (delete rb.keys (suc (count_nodes rb.root)) rb.del rb.root k) =
        delete-at rb.keys k (count_nodes rb.root) rb.del rb.root shape lean hit (law.cmp_refl k) in
      (
        record rb { root = t },
        subst (λ g. rb_delete rb k ≡ ok (record rb { root = t }, g))
            (same-log e3 ∙ handed x.0 x.1 e1) e,
        content,
      )
    where
      same-log :
          {a b : Rbtree K D} {g h : List (Event K D)}
          → ◌≡◌ {A = Exec (Rbtree K D × List (Event K D))} (ok (a, g)) (ok (b, h))
          → h ≡ g
      same-log p = cc
