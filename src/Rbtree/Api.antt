-- ===== src/Rbtree/Api.antt =====
-- `struct rbtree` and the functions of src/rbtree.h (for `rb_init` and the integer keys see
-- Rbtree/Keying). A call that allocates takes the outcomes of the
-- allocations; the calls of the callbacks come back as a list.
pub mod Contract
pub mod Iterate
pub mod Absent
pub mod Finite
use libresman.Base.{
  ℕ, zero, suc, Bool, true, false, Option, none, some, List, [], ◌∷◌, Exec, ok, null_deref, no_fuel,
}
use libresman.Base.Outcome.{◌>>=◌}
use libresman.Rbtree.{
  Tree, leaf, node, Event, Keys, count_nodes, blacken, del_tree, traverse, insert, find,
}
use libresman.Rbtree.Removal.{delete}

-- What `rb_next` reads of a node on the iterator's stack: its key, its data and its right child.
abbrev pub Visit {ℓ κ} : Type ℓ → Type κ → Type (ℓ ⊔ κ)
Visit K D = K × D × Tree K D

-- `rb->alloc` and `rb->free` are outside; `del` says whether `rb->del` is set.
pub record Rbtree {ℓ κ} (K : Type ℓ) (D : Type κ) : Type (ℓ ⊔ κ) where
  pub root : Tree K D
  pub keys : Keys K
  pub del : Bool
  pub rstack : List (Visit K D)
  pub iter : Tree K D

module _ {ℓ κ} {K : Type ℓ} {D : Type κ} where
  unfoldable pub rb_set_delete_func : Bool → Rbtree K D → Rbtree K D
  rb_set_delete_func del rb = record rb { del = del }

  unfoldable pub rb_set_compare_func : Keys K → Rbtree K D → Rbtree K D
  rb_set_compare_func o rb = record rb { keys = o }

  unfoldable pub rb_destroy : Rbtree K D → List (Event K D)
  unfolding del_tree
  rb_destroy rb = del_tree rb.del rb.root

  -- `rb_free`, which frees the descriptor as well.
  unfoldable pub rb_free : Rbtree K D → List (Event K D)
  unfolding rb_destroy
  rb_free rb = rb_destroy rb

  unfoldable pub rb_root : Rbtree K D → Tree K D
  rb_root rb = rb.root

  -- `rb_node_key` and `rb_node_data`, of a null pointer too.
  unfoldable pub rb_node_key : Tree K D → Option K
  rb_node_key leaf = none
  rb_node_key (node c k d l r) = some k

  unfoldable pub rb_node_data : Tree K D → Option D
  rb_node_data leaf = none
  rb_node_data (node c k d l r) = some d

  unfoldable pub rb_clear : Rbtree K D → Rbtree K D × List (Event K D)
  unfolding del_tree
  rb_clear rb = (record rb { root = leaf }, del_tree rb.del rb.root)

  unfoldable pub rb_size : Rbtree K D → ℕ
  unfolding count_nodes
  rb_size rb = count_nodes rb.root

  unfoldable pub rb_insert : Bool → Rbtree K D → K → D → Exec (Rbtree K D)
  unfolding insert blacken
  rb_insert alloc rb key d = do
    t ← insert rb.keys alloc rb.root key d
    t' ← blacken t
    ok (record rb { root = t' })

  -- The fuel is more than the number of nodes, which bounds the depth of the recursion.
  unfoldable pub rb_delete : Rbtree K D → K → Exec (Rbtree K D × List (Event K D))
  unfolding delete blacken count_nodes
  rb_delete rb key = do
    (t, log) ← delete rb.keys (suc (count_nodes rb.root)) rb.del rb.root key
    t' ← blacken t
    ok (record rb { root = t' }, log)

  unfoldable pub rb_find : Rbtree K D → K → Option D
  unfolding find
  rb_find rb key = find rb.keys rb.root key

  unfoldable pub rb_foreach : Rbtree K D → List (K × D)
  unfolding traverse
  rb_foreach rb = traverse rb.root

  unfoldable pub rb_begin : Rbtree K D → Rbtree K D
  rb_begin rb = record rb { rstack = []; iter = rb.root }

  -- The loop of `rb_next`: down to the left, stacking the nodes on the way, then one node off.
  unfoldable pub next : List (Visit K D) → Tree K D → Option (K × D) × List (Visit K D) × Tree K D
  next [] leaf = (none, [], leaf)
  next ((k, d, r) ∷ rstack) leaf = (some (k, d), rstack, r)
  next rstack (node c k d l r) = next ((k, d, r) ∷ rstack) l

  unfoldable pub rb_next : Rbtree K D → Option (K × D) × Rbtree K D
  unfolding next
  rb_next rb =
      let (res, rstack, iter) = next rb.rstack rb.iter in
      (res, record rb { rstack = rstack; iter = iter })

  -- The loop of `rb_copy`; `allocs` says of each allocation whether it gives memory, and the fuel is
  -- more than the number of nodes that are left.
  unfoldable pub copy_loop :
      ℕ → (ℕ → Bool) → Rbtree K D → Rbtree K D → Exec (Rbtree K D × Rbtree K D)
  copy_loop zero allocs dest src = no_fuel
  copy_loop (suc fuel) allocs dest src =
      let (res, src') = rb_next src in
      elim res [
        | none ↦ ok (dest, src')
        | some (k, d) ↦ do
          dest' ← rb_insert (allocs fuel) dest k d
          copy_loop fuel allocs dest' src'
      ]

  unfoldable pub rb_copy :
      (ℕ → Bool) → Rbtree K D → Rbtree K D → Exec (Rbtree K D × Rbtree K D × List (Event K D))
  unfolding copy_loop rb_clear rb_begin count_nodes
  rb_copy allocs dest src = do
    let (dest', log) = rb_clear dest
    (dest'', src') ← copy_loop (suc (count_nodes src.root)) allocs dest' (rb_begin src)
    ok (dest'', src', log)
