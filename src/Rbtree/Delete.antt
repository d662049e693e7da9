-- ===== src/Rbtree/Delete.antt =====
-- `delete` of src/rbtree.c on balanced ordered trees that hold the key.
use Prim.Native.Nat.{Ordering}
use Prim.Native.Nat.Ordering.{lt, eq, gt}
use libresman.Base.{
  ℕ, zero, suc, ◌≤◌, ◌≡◌, refl, Bool, true, false, not, some, ◌||◌, ◌⊎◌, inl, inr, length, arith,
  Ordering-cases,
}
use libresman.Base.Int.{sign}
use libresman.Rbtree.{Tree, leaf, node, Keys, traverse}
use libresman.Rbtree.Removal.{Removal, notify, descend_left, descend_right, delete_step, delete}
use libresman.Rbtree.Entries.{IsLawful, IsSorted, erase, Above-mid, Above-append}
use libresman.Rbtree.Entries.Search.{has_of_lt}
use libresman.Rbtree.Contents.{traverse-turn_right}
use libresman.Rbtree.Balance.{Bal, nil, red, black, Shrunk, gone, Shrunk-Bal}
use libresman.Rbtree.Left.{Fits, Leaves, IsRemoval, descend_left-Shrunk, descend_left-Bal}
use libresman.Rbtree.DelMin.{NoOrder, IsFilled, IsFilled-node, Pops, del_min-IsRemoval}
use libresman.Rbtree.Right.{Has, Erases, Erases-IsLocal, remove_right-Shrunk, remove_right-Bal}

module _ {ℓ κ} {K : Type ℓ} {D : Type κ} (o : Keys K) (law : IsLawful o) (key : K) (del : Bool)
    {fmin f : Tree K D → Removal K D} {size : ℕ}
    (min_rec : IsRemoval {K = K} {D = D} NoOrder IsFilled Pops fmin size)
    (rec : IsRemoval (IsSorted o) (Has o key) (Erases o key) f size) where
  only : {b : Bool} → (b || false) ≡ true → b ≡ true
  only {b} h = ground arith

  -- A node with no children that holds the key.
  last_node :
      (found : Bool) (c : Bool) (k : K) (d : D)
      → ((found ≡ false) → sign (o.cmp key k) ≡ gt)
      → Has {D = D} o key (traverse (node c k d leaf leaf))
      → Leaves
          (Erases o key)
          (Shrunk c (not c) zero)
          (descend_right o del found fmin f (node c k d leaf leaf) key)
          (traverse (node c k d leaf leaf))
  unfolding descend_right traverse erase
  last_node true c k d g h = (leaf, notify del (some (k, d)), refl, gone, rw (only h))
  last_node false c k d g h =
      absurd (ground (arith, law.cmp_refl key, (law.same_iff key k).0 (only h), g refl))

  descend_right-Shrunk :
      (found : Bool) (c : Bool) (k : K) (d : D) {n : ℕ} {l r : Tree K D}
      → Bal false n l
      → Bal false n r
      → ((found ≡ false) → sign (o.cmp key k) ≡ gt)
      → ¬ (sign (o.cmp key k) ≡ lt)
      → Has o key (traverse (node c k d l r))
      → Fits (IsSorted o) (suc size) (traverse (node c k d l r))
      → Leaves
          (Erases o key)
          (Shrunk c (not c) n)
          (descend_right o del found fmin f (node c k d l r) key)
          (traverse (node c k d l r))
  unfolding descend_right
  descend_right-Shrunk found c k d nil nil g ge pre h = last_node found c k d g pre
  descend_right-Shrunk found c k d (black u v) (black x y) g ge pre h =
      remove_right-Shrunk o law key fmin f min_rec rec c k d (black u v) (black x y) ge pre h

  -- The key is not smaller than what stands before an entry that it is not smaller than.
  not_lt_of_lt :
      (a b : K) → sign (o.cmp a b) ≡ lt → ¬ (sign (o.cmp key b) ≡ lt) → ¬ (sign (o.cmp key a) ≡ lt)
  not_lt_of_lt a b h g p = g (law.lt_trans key a b p h)

  rotated_lt :
      (c c' : Bool) (k lk : K) (d ld : D) (ll lr r : Tree K D)
      → IsSorted o (traverse (node c lk ld ll (node c' k d lr r)))
      → sign (o.cmp lk k) ≡ lt
  unfolding traverse
  rotated_lt c c' k lk d ld ll lr r s =
      Above-mid o (traverse lr) (traverse r) lk k d (Above-append o (traverse ll) _ lk ld s)

  descend_right-Bal :
      (found : Bool) (k : K) (d : D) {n : ℕ} {l r : Tree K D}
      → Bal true n l
      → Bal false n r
      → ¬ (sign (o.cmp key k) ≡ lt)
      → Has o key (traverse (node false k d l r))
      → Fits (IsSorted o) (suc size) (traverse (node false k d l r))
      → Leaves
          (Erases o key)
          (Bal false (suc n))
          (descend_right o del found fmin f (node false k d l r) key)
          (traverse (node false k d l r))
  unfolding descend_right
  descend_right-Bal found k d {r = r} (red {k = lk} {d = ld} {l = ll} {r = lr} x y) z ge pre h =
      let same = traverse-turn_right (node false k d (node true lk ld ll lr) r) refl in
      rw same at (
        remove_right-Bal o law key fmin f min_rec rec lk k ld d x y z
          (not_lt_of_lt lk k (rotated_lt false true k lk d ld ll lr r (rw (← same) at h.0)) ge)
          (rw (← same) at pre) (rw (← same) at h))

  not_lt_of : {c : Ordering} → (c ≡ eq) ⊎ (c ≡ gt) → ¬ (c ≡ lt)
  not_lt_of (inl e) p = cc
  not_lt_of (inr e) p = cc

  goes_left :
      (c : Bool) (k : K) (d : D) (l r : Tree K D)
      → IsSorted o (traverse (node c k d l r))
      → sign (o.cmp key k) ≡ lt
      → Has o key (traverse (node c k d l r))
      → Has o key (traverse l)
  unfolding traverse
  goes_left c k d l r s e pre = has_of_lt o law (traverse l) (traverse r) key k d s e pre

  left-Shrunk :
      (c : Bool) (k : K) (d : D) {n : ℕ} {l r : Tree K D}
      → Bal false n l
      → Bal false n r
      → Has o key (traverse l)
      → Fits (IsSorted o) (suc size) (traverse (node c k d l r))
      → Leaves
          (Erases o key)
          (Shrunk c (not c) n)
          (descend_left f (node c k d l r))
          (traverse (node c k d l r))
  unfolding traverse
  left-Shrunk c k d nil y pre h = cc
  left-Shrunk c k d (black u v) y pre h =
      descend_left-Shrunk (Erases-IsLocal o key) rec c k d (black u v) y pre h

  -- `delete` at a node with no red child.
  pub delete_step-Shrunk :
      (c : Bool) (k : K) (d : D) {n : ℕ} {l r : Tree K D}
      → Bal false n l
      → Bal false n r
      → Has o key (traverse (node c k d l r))
      → Fits (IsSorted o) (suc size) (traverse (node c k d l r))
      → Leaves
          (Erases o key)
          (Shrunk c (not c) n)
          (delete_step o del fmin f (node c k d l r) key)
          (traverse (node c k d l r))
  unfolding delete_step
  delete_step-Shrunk c k d {l = l} {r = r} x y pre h = elim (Ordering-cases (sign (o.cmp key k))) [
    | inl e ↦ rw (e, delete_step) (left-Shrunk c k d x y (goes_left c k d l r h.0 e pre) h)
    | inr (inl e) ↦
        rw (e, delete_step)
          (descend_right-Shrunk true c k d x y (λ p. cc) (not_lt_of (inl e)) pre h)
    | inr (inr e) ↦
        rw (e, delete_step)
          (descend_right-Shrunk false c k d x y (λ p. e) (not_lt_of (inr e)) pre h)
  ]

  -- `delete` at a black node with a red left child.
  pub delete_step-Bal :
      (k : K) (d : D) {n : ℕ} {l r : Tree K D}
      → Bal true n l
      → Bal false n r
      → Has o key (traverse (node false k d l r))
      → Fits (IsSorted o) (suc size) (traverse (node false k d l r))
      → Leaves
          (Erases o key)
          (Bal false (suc n))
          (delete_step o del fmin f (node false k d l r) key)
          (traverse (node false k d l r))
  unfolding delete_step
  delete_step-Bal k d {l = l} {r = r} x y pre h = elim (Ordering-cases (sign (o.cmp key k))) [
    | inl e ↦
        rw (e, delete_step)
          (descend_left-Bal (Erases-IsLocal o key) rec k d x y (goes_left false k d l r h.0 e pre)
            h)
    | inr (inl e) ↦ rw (e, delete_step) (descend_right-Bal true k d x y (not_lt_of (inl e)) pre h)
    | inr (inr e) ↦ rw (e, delete_step) (descend_right-Bal false k d x y (not_lt_of (inr e)) pre h)
  ]

module _ {ℓ κ} {K : Type ℓ} {D : Type κ} where
  too_short :
      (c : Bool) (k : K) (d : D) (l r : Tree K D) → ¬ (length (traverse (node c k d l r)) ≤ 0)
  too_short c k d l r h = omega (arith, IsFilled-node c k d l r)

module _ {ℓ κ} {K : Type ℓ} {D : Type κ} (o : Keys K) (law : IsLawful o) (key : K)
    (del : Bool) where
  -- Every call of `delete` below the root, by induction on the fuel.
  pub delete-IsRemoval :
      (fuel : ℕ)
      → IsRemoval {K = K} {D = D}
          (IsSorted o)
          (Has o key)
          (Erases o key)
          (λ t. delete o fuel del t key)
          fuel
  unfolding delete
  delete-IsRemoval zero = record {
    at_red = λ k d x y pre h. absurd (too_short _ k d _ _ h.1);
    at_black = λ k d x y pre h. absurd (too_short _ k d _ _ h.1);
  }
  delete-IsRemoval (suc fuel) = record {
    at_red = λ k d x y pre h.
        let (t', log, e, q, er) =
          delete_step-Shrunk o law key del (del_min-IsRemoval fuel del) (delete-IsRemoval fuel) true
            k d x y pre h in
        (t', log, e, Shrunk-Bal q, er);
    at_black = λ k d x y pre h.
        delete_step-Bal o law key del (del_min-IsRemoval fuel del) (delete-IsRemoval fuel) k d x y
          pre h;
  }
