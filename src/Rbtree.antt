-- ===== src/Rbtree.antt =====
-- The nodes of src/rbtree.c and the functions on them. A node owns its children, so an update in
-- place is a new tree; a step through a null pointer is `null_deref`.
pub mod Removal
pub mod Entries
pub mod Balance
pub mod Contents
pub mod Left
pub mod DelMin
pub mod Right
pub mod Delete
pub mod Insert
pub mod Api
pub mod Height
pub mod Keying
pub mod Log
mod Tests
use Prim.Native.Nat.Ordering.{lt, eq, gt}
use libresman.Base.{
  ℕ, zero, suc, ◌+◌, Bool, true, false, not, ◌&&◌, Option, none, some, List, [], ◌∷◌, ◌++◌, Exec,
  ok, null_deref, no_fuel, if◌then◌else◌,
}
use libresman.Base.Outcome.{◌>>=◌}
use libresman.Base.Int.{ℤ, sign}

-- `struct rbnode`; a null pointer is `leaf`. The `next` link is the iterator's (Rbtree/Api).
pub data Tree {ℓ κ} (K : Type ℓ) (D : Type κ) : Type (ℓ ⊔ κ) where
  leaf : Tree K D
  node : Bool → K → D → Tree K D → Tree K D → Tree K D

-- What a removal does outside the tree: calls of `rb->del`, of `rb->free` and of the C library's
-- `free`, each with the node's key and data, or with `none` for a null pointer.
pub data Event {ℓ κ} (K : Type ℓ) (D : Type κ) : Type (ℓ ⊔ κ) where
  deleted : Option (K × D) → Event K D
  freed : Option (K × D) → Event K D
  libc_freed : Option (K × D) → Event K D

-- How keys are compared: `rb->cmp`, and `==` on the key pointers.
pub record Keys {ℓ} (K : Type ℓ) : Type ℓ where
  pub cmp : K → K → ℤ
  pub same : K → K → Bool

module _ {ℓ κ} {K : Type ℓ} {D : Type κ} where
  abbrev pub is_red : Tree K D → Bool
  is_red leaf = false
  is_red (node c k d l r) = c

  -- `tree->left` and `tree->right`
  abbrev pub left_of : Tree K D → Exec (Tree K D)
  left_of leaf = null_deref
  left_of (node c k d l r) = ok l

  abbrev pub right_of : Tree K D → Exec (Tree K D)
  right_of leaf = null_deref
  right_of (node c k d l r) = ok r

  -- `tree->left = l` and `tree->right = r`
  abbrev pub set_left : Tree K D → Tree K D → Exec (Tree K D)
  set_left leaf l' = null_deref
  set_left (node c k d l r) l' = ok (node c k d l' r)

  abbrev pub set_right : Tree K D → Tree K D → Exec (Tree K D)
  set_right leaf r' = null_deref
  set_right (node c k d l r) r' = ok (node c k d l r')

  unfoldable pub color_flip : Tree K D → Exec (Tree K D)
  color_flip (node c k d (node lc lk ld ll lr) (node rc rk rd rl rr)) =
      ok (node (not c) k d (node (not lc) lk ld ll lr) (node (not rc) rk rd rl rr))
  color_flip _ = null_deref

  unfoldable pub rot_left : Tree K D → Exec (Tree K D)
  rot_left (node c k d l (node rc rk rd rl rr)) = ok (node c rk rd (node true k d l rl) rr)
  rot_left _ = null_deref

  unfoldable pub rot_right : Tree K D → Exec (Tree K D)
  rot_right (node c k d (node lc lk ld ll lr) r) = ok (node c lk ld ll (node true k d lr r))
  rot_right _ = null_deref

  -- `is_red(tree->left) && is_red(tree->left->left)`
  abbrev pub red_pair : Tree K D → Exec Bool
  red_pair t = do l ← left_of t; if is_red l then (do ll ← left_of l; ok (is_red ll)) else ok false

  -- The three repairs that end `fix_up`, `insert`, `delete` and `del_min`.
  unfoldable pub fix_right : Tree K D → Exec (Tree K D)
  unfolding rot_left
  fix_right t = do r ← right_of t; if is_red r then rot_left t else ok t

  unfoldable pub fix_pair : Tree K D → Exec (Tree K D)
  unfolding rot_right
  fix_pair t = do b ← red_pair t; if b then rot_right t else ok t

  unfoldable pub split_four : Tree K D → Exec (Tree K D)
  unfolding color_flip
  split_four t = do
    l ← left_of t
    r ← right_of t
    if is_red l && is_red r then color_flip t else ok t

  unfoldable pub fix_up : Tree K D → Exec (Tree K D)
  unfolding fix_right fix_pair split_four
  fix_up t = do t1 ← fix_right t; t2 ← fix_pair t1; split_four t2

  unfoldable pub move_red_left : Tree K D → Exec (Tree K D)
  unfolding color_flip rot_left rot_right
  move_red_left t = do
    t1 ← color_flip t
    r ← right_of t1
    rl ← left_of r
    if is_red rl
        then (do r' ← rot_right r; t2 ← set_right t1 r'; t3 ← rot_left t2; color_flip t3)
        else ok t1

  -- `count_nodes`
  unfoldable pub count_nodes : Tree K D → ℕ
  count_nodes leaf = 0
  count_nodes (node c k d l r) = 1 + count_nodes l + count_nodes r

  -- `find_min`: the key and the data of the node that it returns, `none` for a null result.
  unfoldable pub find_min : Tree K D → Option (K × D)
  find_min leaf = none
  find_min (node c k d leaf r) = some (k, d)
  find_min (node c k d (node lc lk ld ll lr) r) = find_min (node lc lk ld ll lr)

  -- `tree->red = 0`
  unfoldable pub blacken : Tree K D → Exec (Tree K D)
  blacken leaf = null_deref
  blacken (node c k d l r) = ok (node false k d l r)

  -- `traverse`, as the list of the nodes at which it calls `func`.
  unfoldable pub traverse : Tree K D → List (K × D)
  traverse leaf = []
  traverse (node c k d l r) = traverse l ++ ((k, d) ∷ traverse r)

  -- `del_tree`, with the calls it makes: it frees by `free`, not by `rb->free`.
  unfoldable pub del_tree : Bool → Tree K D → List (Event K D)
  del_tree del leaf = []
  del_tree del (node c k d l r) =
      let tail = libc_freed (some (k, d)) ∷ [] in
      del_tree del l ++ (del_tree del r ++ (if del then deleted (some (k, d)) ∷ tail else tail))

module _ {ℓ κ} {K : Type ℓ} {D : Type κ} (o : Keys K) where
  -- `alloc` says whether `rb->alloc` gives memory; its result is used unchecked.
  unfoldable pub insert : Bool → Tree K D → K → D → Exec (Tree K D)
  unfolding fix_up
  insert alloc leaf key data' = if alloc then ok (node true key data' leaf leaf) else null_deref
  insert alloc (node c k d l r) key data' = do
    t ← elim (sign (o.cmp key k)) [
      | lt ↦ do l' ← insert alloc l key data'; ok (node c k d l' r)
      | eq ↦ ok (node c k data' l r)
      | gt ↦ do r' ← insert alloc r key data'; ok (node c k d l r')
    ]
    fix_up t

  -- The loop of `rb_find`; `none` is its null result.
  unfoldable pub find : Tree K D → K → Option D
  find leaf key = none
  find (node c k d l r) key = elim (sign (o.cmp key k)) [
    | lt ↦ find l key
    | eq ↦ some d
    | gt ↦ find r key
  ]
