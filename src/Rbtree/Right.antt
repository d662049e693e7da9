-- ===== src/Rbtree/Right.antt =====
-- The way down on the right in `delete` of src/rbtree.c.
use Prim.Native.Nat.Ordering.{lt}
use libresman.Base.{
  ℕ, suc, ◌≡◌, refl, ap, sym, ◌∙◌, Bool, true, false, not, ok, null_deref, some, List, ◌∷◌, ◌++◌,
  inl, inr, length-append, arith, Bool-cases, if◌then◌else◌,
}
use libresman.Base.Int.{sign}
use libresman.Rbtree.{Tree, leaf, node, Event, Keys, traverse, is_red, find_min}
use libresman.Rbtree.Removal.{Removal, lean_right, replace_min, shrink_right, remove_right}
use libresman.Rbtree.Entries.{
  IsLawful, IsSorted, has, erase, has-append, erase-append_left, erase-append_right,
  IsSorted-append_left, IsSorted-append_right,
}
use libresman.Rbtree.Entries.Search.{not_has_before}
use libresman.Rbtree.Contents.{traverse-fix_up, traverse-lean_right}
use libresman.Rbtree.Balance.{
  Bal, nil, red, black, is_red-Bal, Shrunk, kept, Fixes, fix_up-id, fix_up-lean, fix_up-pair,
}
use libresman.Rbtree.Left.{IsLocal, Fits, Leaves, IsRemoval, Shrunk-not}
use libresman.Rbtree.DelMin.{NoOrder, IsFilled, Pops, IsFilled-node, find_min-eq-some}

module _ {ℓ κ} {K : Type ℓ} {D : Type κ} (o : Keys K) (key : K) where
  abbrev pub Has : List (K × D) → Type 0
  Has xs = has o key xs ≡ true

  abbrev pub Erases : List (K × D) → List (K × D) → Type (ℓ ⊔ κ)
  Erases xs ys = ys ≡ erase o key xs

  pub Erases-IsLocal : IsLocal (IsSorted o) Has Erases
  Erases-IsLocal = record {
    ord_prefix = IsSorted-append_left o;
    pre_append = λ xs zs h. ground (arith, has-append o key xs zs);
    rel_append = λ xs ys zs pre e. rw (erase-append_left o key xs zs pre, e);
  }

  Fits-right :
      {size : ℕ} (c : Bool) (k : K) (d : D) (l r : Tree K D)
      → Fits (IsSorted o) (suc size) (traverse (node c k d l r))
      → Fits (IsSorted o) size (traverse r)
  unfolding traverse
  Fits-right c k d l r h = (
    (IsSorted-append_right o (traverse l) ((k, d) ∷ traverse r) h.0).1,
    omega (arith, h.1, length-append (traverse l) ((k, d) ∷ traverse r)),
  )

module _ {ℓ κ} {K : Type ℓ} {D : Type κ} (o : Keys K) (law : IsLawful o) (key : K)
    (fmin f : Tree K D → Removal K D) where
  -- The step that makes the right child smaller, by one of the two calls.
  abbrev smaller_right : Tree K D → Removal K D
  smaller_right leaf = null_deref
  smaller_right (node c k d l r) =
      if o.same key k then replace_min fmin (node c k d l r) else shrink_right f (node c k d l r)

  lean_right-flip :
      (c : Bool) (k lk rk : K) (d ld rd : D) (ll lr rl rr : Tree K D)
      → is_red rl ≡ false
      → lean_right (node c k d (node false lk ld ll lr) (node false rk rd rl rr))
        ≡ ok (node (not c) k d (node true lk ld ll lr) (node true rk rd rl rr))
  unfolding lean_right
  lean_right-flip c k lk rk d ld rd ll lr rl rr e = rw e

  replace_min-eq-ok :
      (c : Bool) (k : K) (d : D) (l r : Tree K D) {e : K × D} {r' : Tree K D}
      {log : List (Event K D)}
      → find_min r ≡ some e
      → fmin r ≡ ok (r', log)
      → replace_min fmin (node c k d l r) ≡ ok (node c e.0 e.1 l r', log)
  unfolding replace_min
  replace_min-eq-ok c k d l r p q = rw (p, replace_min) (rw q)

  smaller_right_lem {π} :
      (P : Tree K D → Type π) (c : Bool) (k : K) (d : D) (l r : Tree K D)
      → ¬ (sign (o.cmp key k) ≡ lt)
      → IsSorted o (traverse (node c k d l r))
      → Has o key (traverse (node c k d l r))
      → Leaves Pops P (fmin r) (traverse r)
      → (Has o key (traverse r) → Leaves (Erases o key) P (f r) (traverse r))
      → (k' : K) × (d' : D) × (r' : Tree K D) × (log : List (Event K D)) × (smaller_right
            (node c k d l r)
          ≡ ok (node c k' d' l r', log))
        × P r'
        × Erases o key (traverse (node c k d l r)) (traverse (node c k' d' l r'))
  unfolding replace_min shrink_right traverse erase
  smaller_right_lem P c k d l r ge s h (m, mlog, mcall, mp, (e, pops)) call =
      elim (Bool-cases (o.same key k)) [
        | inl hit ↦ (
          e.0,
          e.1,
          m,
          mlog,
          rw hit (replace_min-eq-ok c k d l r (find_min-eq-some r pops) mcall),
          mp,
          rw (erase-append_right o key (traverse l) ((k, d) ∷ traverse r) before)
              (rw (hit, erase) (ap (λ xs. traverse l ++ xs) (sym pops))),
        )
        | inr miss ↦
            let (r', log, call', p, er) = call (behind miss) in
            (
              k,
              d,
              r',
              log,
              rw miss (rw call'),
              p,
              rw (erase-append_right o key (traverse l) ((k, d) ∷ traverse r) before)
                  (rw (miss, erase) (ap (λ xs. traverse l ++ ((k, d) ∷ xs)) er)),
            )
      ]
    where
      before : has o key (traverse l) ≡ false
      before = not_has_before o law (traverse l) (traverse r) key k d s ge

      behind : o.same key k ≡ false → Has o key (traverse r)
      behind miss = ground (arith, has-append o key (traverse l) ((k, d) ∷ traverse r), before)

  -- The steps of `remove_right`, put together.
  finish_right {π ρ} :
      {P : Tree K D → Type π} {Q : Tree K D → Type ρ} (t : Tree K D) (c : Bool) (k : K) (d : D)
      {l r : Tree K D}
      → lean_right t ≡ ok (node c k d l r)
      → ¬ (sign (o.cmp key k) ≡ lt)
      → IsSorted o (traverse t)
      → Has o key (traverse t)
      → Leaves Pops P (fmin r) (traverse r)
      → (Has o key (traverse r) → Leaves (Erases o key) P (f r) (traverse r))
      → ((k' : K) (d' : D) (r' : Tree K D) → P r' → Fixes Q (node c k' d' l r'))
      → Leaves (Erases o key) Q (remove_right o fmin f t key) (traverse t)
  unfolding remove_right
  finish_right {P = P} t c k d {l} {r} lean ge s h mcall call fixes =
      let same = traverse-lean_right t lean in
      let (k', d', r', log, e, p, er) =
        smaller_right_lem P c k d l r ge (rw (← same) at s) (rw (← same) at h) mcall call in
      let (t', fix, q) = fixes k' d' r' p in
      (
        t',
        log,
        rw lean (rw e (rw fix)),
        q,
        traverse-fix_up (node c k' d' l r') fix ∙ er ∙ ap (erase o key) same,
      )

  module _ {size : ℕ} (min_rec : IsRemoval {K = K} {D = D} NoOrder IsFilled Pops fmin size)
      (rec : IsRemoval (IsSorted o) (Has o key) (Erases o key) f size) where
    -- The same where `move_red_left` does no more than flip the colours.
    remove_right-flip :
        (c : Bool) (k lk rk : K) (d ld rd : D) {a : Bool} {n : ℕ} {ll lr rl rr : Tree K D}
        → Bal a n ll
        → Bal false n lr
        → Bal false n rl
        → Bal false n rr
        → ¬ (sign (o.cmp key k) ≡ lt)
        → let t = node c k d (node false lk ld ll lr) (node false rk rd rl rr) in
          Has o key (traverse t)
          → Fits (IsSorted o) (suc size) (traverse t)
          → Leaves
              (Erases o key)
              (Shrunk c (not c) (suc n))
              (remove_right o fmin f t key)
              (traverse t)
    unfolding traverse
    remove_right-flip c k lk rk d ld rd {ll = ll} {lr} {rl} {rr} v w x y ge pre h =
        let r : Tree K D = node false rk rd rl rr in
        let t : Tree K D = node c k d (node false lk ld ll lr) r in
        let fits = Fits-right o key c k d (node false lk ld ll lr) r h in
        let lean = lean_right-flip c k lk rk d ld rd ll lr rl rr (is_red-Bal x) in
        finish_right t (not c) k d lean ge h.0 pre
          (min_rec.at_red rk rd x y (IsFilled-node true rk rd rl rr) (tt, fits.1))
          (λ here. rec.at_red rk rd x y here fits)
          λ k' d' r' (b, q).
            let (t', fix, s) = fix_up-pair (not c) k' lk d' ld v w q in (t', fix, Shrunk-not c s)

    -- A node with no red child and with entries on the right.
    pub remove_right-Shrunk :
        (c : Bool) (k : K) (d : D) {n : ℕ} {l r : Tree K D}
        → Bal false (suc n) l
        → Bal false (suc n) r
        → ¬ (sign (o.cmp key k) ≡ lt)
        → Has o key (traverse (node c k d l r))
        → Fits (IsSorted o) (suc size) (traverse (node c k d l r))
        → Leaves
            (Erases o key)
            (Shrunk c (not c) (suc n))
            (remove_right o fmin f (node c k d l r) key)
            (traverse (node c k d l r))
    unfolding lean_right
    remove_right-Shrunk c k d {n} {l} {r} x (black {k = rk} {d = rd} {l = rl} {r = rr} (red v w) z)
          ge pre h =
        let t : Tree K D = node c k d l (node false rk rd rl rr) in
        let fits = Fits-right o key c k d l (node false rk rd rl rr) h in
        finish_right t c k d refl ge h.0 pre
          (min_rec.at_black rk rd (red v w) z (IsFilled-node false rk rd rl rr) (tt, fits.1))
          (λ here. rec.at_black rk rd (red v w) z here fits)
          λ k' d' r' q. (_, fix_up-id c k' d' x q, kept x q)
    remove_right-Shrunk c k d (black u v) (black nil z) ge pre h =
        remove_right-flip c k _ _ d _ _ u v nil z ge pre h
    remove_right-Shrunk c k d (black u v) (black (black w x) z) ge pre h =
        remove_right-flip c k _ _ d _ _ u v (black w x) z ge pre h

    -- A black node whose red left child was turned to the right.
    pub remove_right-Bal :
        (k rk : K) (d rd : D) {n : ℕ} {l rl rr : Tree K D}
        → Bal false n l
        → Bal false n rl
        → Bal false n rr
        → ¬ (sign (o.cmp key k) ≡ lt)
        → let t = node false k d l (node true rk rd rl rr) in
          Has o key (traverse t)
          → Fits (IsSorted o) (suc size) (traverse t)
          → Leaves (Erases o key) (Bal false (suc n)) (remove_right o fmin f t key) (traverse t)
    unfolding lean_right
    remove_right-Bal k rk d rd {l = l} {rl = rl} {rr = rr} x y z ge pre h =
        let t : Tree K D = node false k d l (node true rk rd rl rr) in
        let fits = Fits-right o key false k d l (node true rk rd rl rr) h in
        finish_right t false k d refl ge h.0 pre
          (min_rec.at_red rk rd y z (IsFilled-node true rk rd rl rr) (tt, fits.1))
          (λ here. rec.at_red rk rd y z here fits) λ k' d' r' (b, q). fix_up-lean k' d' x q
