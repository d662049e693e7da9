-- ===== src/Rbtree/Removal.antt =====
-- Deletion in src/rbtree.c: `delete`, `del_min` and what they do on the way down.
use Prim.Native.Nat.Ordering.{lt, eq, gt}
use libresman.Base.{
  ℕ, zero, suc, Bool, true, false, Option, none, some, List, [], ◌∷◌, Exec, ok, null_deref, no_fuel,
  if◌then◌else◌,
}
use libresman.Base.Outcome.{◌>>=◌}
use libresman.Base.Int.{sign}
use libresman.Rbtree.{
  Tree, leaf, node, Event, deleted, freed, Keys, is_red, left_of, right_of, set_left, find_min,
  rot_right, move_red_left, fix_up,
}

module _ {ℓ κ} {K : Type ℓ} {D : Type κ} where
  abbrev pub notify : Bool → Option (K × D) → List (Event K D)
  notify del e = if del then deleted e ∷ freed e ∷ [] else freed e ∷ []

  -- `if(!is_red(tree->left) && !is_red(tree->left->left)) tree = move_red_left(tree);`
  unfoldable pub lean_left : Tree K D → Exec (Tree K D)
  unfolding move_red_left
  lean_left t = do
    l ← left_of t
    if is_red l then ok t else (do ll ← left_of l; if is_red ll then ok t else move_red_left t)

  -- `if(!is_red(tree->right) && !is_red(tree->right->left)) tree = move_red_left(tree);`
  unfoldable pub lean_right : Tree K D → Exec (Tree K D)
  unfolding move_red_left
  lean_right t = do
    r ← right_of t
    if is_red r then ok t else (do rl ← left_of r; if is_red rl then ok t else move_red_left t)

-- The new subtree, and what was done on the way.
abbrev pub Removal {ℓ κ} : Type ℓ → Type κ → Type (ℓ ⊔ κ)
Removal K D = Exec (Tree K D × List (Event K D))

module _ {ℓ κ} {K : Type ℓ} {D : Type κ} where
  -- `tree->left = f(tree->left); return fix_up(tree);` after the step that leans left.
  unfoldable pub descend_left : (Tree K D → Removal K D) → Tree K D → Removal K D
  unfolding lean_left fix_up
  descend_left f t = do
    t1 ← lean_left t
    l ← left_of t1
    (l', log) ← f l
    t2 ← set_left t1 l'
    t3 ← fix_up t2
    ok (t3, log)

  -- `del_min`. It hands `tree->left`, which is null there, to `rb->del` and `rb->free`.
  unfoldable pub del_min : ℕ → Bool → Tree K D → Removal K D
  unfolding descend_left
  del_min zero del t = no_fuel
  del_min (suc f) del t = do
    l ← left_of t
    elim l [ leaf ↦ ok (leaf, notify del none) | node _ _ _ _ _ ↦ descend_left (del_min f del) t ]

  -- The node takes the key and data of the least node on its right, which is then removed there.
  unfoldable pub replace_min : (Tree K D → Removal K D) → Tree K D → Removal K D
  unfolding find_min
  replace_min f leaf = null_deref
  replace_min f (node c k d l r) = elim (find_min r) [
    | none ↦ null_deref
    | some (mk, md) ↦ do (r', log) ← f r; ok (node c mk md l r', log)
  ]

  -- `tree->right = f(tree->right)`
  unfoldable pub shrink_right : (Tree K D → Removal K D) → Tree K D → Removal K D
  shrink_right f leaf = null_deref
  shrink_right f (node c k d l r) = do (r', log) ← f r; ok (node c k d l r', log)

  -- `if(is_red(tree->left)) tree = rot_right(tree);`
  unfoldable pub turn_right : Tree K D → Exec (Tree K D)
  unfolding rot_right
  turn_right t = do l ← left_of t; if is_red l then rot_right t else ok t

module _ {ℓ κ} {K : Type ℓ} {D : Type κ} (o : Keys K) where
  -- The end of the branch for `cmp >= 0`, from the step that wants reds on the right.
  unfoldable pub remove_right :
      (Tree K D → Removal K D) → (Tree K D → Removal K D) → Tree K D → K → Removal K D
  unfolding lean_right replace_min shrink_right fix_up
  remove_right fmin f t key = do
    t1 ← lean_right t
    (t2, log) ← elim t1 [
      | leaf ↦ null_deref
      | node c k d l r ↦
          if o.same key k
          then replace_min fmin (node c k d l r)
          else shrink_right f (node c k d l r)
    ]
    t3 ← fix_up t2
    ok (t3, log)

  -- The whole branch; `found` is `cmp == 0`, of the comparison made before the rotation.
  unfoldable pub descend_right :
      Bool → Bool → (Tree K D → Removal K D) → (Tree K D → Removal K D) → Tree K D → K → Removal K D
  unfolding turn_right remove_right
  descend_right del found fmin f t key = do
    t1 ← turn_right t
    elim t1 [
      | leaf ↦ null_deref
      | node c k d l leaf ↦
          if found
          then ok (leaf, notify del (some (k, d)))
          else remove_right fmin f (node c k d l leaf) key
      | node c k d l (node rc rk rd rl rr) ↦
          remove_right fmin f (node c k d l (node rc rk rd rl rr)) key
    ]

  -- `delete`, one node deep: `f` is the recursive call.
  unfoldable pub delete_step :
      Bool → (Tree K D → Removal K D) → (Tree K D → Removal K D) → Tree K D → K → Removal K D
  unfolding descend_left descend_right
  delete_step del fmin f leaf key = ok (leaf, [])
  delete_step del fmin f (node c k d l r) key = elim (sign (o.cmp key k)) [
    | lt ↦ descend_left f (node c k d l r)
    | eq ↦ descend_right del true fmin f (node c k d l r) key
    | gt ↦ descend_right del false fmin f (node c k d l r) key
  ]

  unfoldable pub delete : ℕ → Bool → Tree K D → K → Removal K D
  unfolding delete_step del_min
  delete zero del t key = no_fuel
  delete (suc f) del t key = delete_step del (del_min f del) (λ u. delete f del u key) t key
