-- ===== src/Rbtree/Height.antt =====
-- The height of the trees of src/rbtree.c, which bounds its loops and recursions.
use Prim.Native.Nat.{max}
use libresman.Base.{
  ℕ, List, [], ◌∷◌, refl, Exec, ok, zero, suc, ◌+◌, ◌*◌, ◌^◌, ◌≤◌, ◌≡◌, Bool, true, false, arith,
}
use libresman.Rbtree.{Tree, leaf, node, count_nodes}
use libresman.Rbtree.Balance.{Bal, nil, red, black}
use native.Mathlib.Nat.{pow-suc, le_trans}
use libresman.Rbtree.Api.{Rbtree, rb_size, rb_insert}
use libresman.Rbtree.Api.Contract.{IsValid, rb_insert-entries}
use libresman.Rbtree.Entries.{IsLawful}
use libresman.Base.Outcome.{◌>>=◌}

abbrev reds : Bool → ℕ
reds true = 1
reds false = 0

pow_double : (n : ℕ) → 2 ^ (2 * n) ≡ 2 ^ n * 2 ^ n
pow_double zero = omega arith
pow_double (suc n) =
    let e : 2 * suc n ≡ suc (suc (2 * n)) = omega arith in
    rw (e, pow-suc 2 n)
      (rw (pow-suc 2 (suc (2 * n))) (rw (pow-suc 2 (2 * n)) (rw (pow_double n) (omega arith))))

pow_mono : (a b : ℕ) → a ≤ b → 2 ^ a ≤ 2 ^ b
pow_mono zero zero h = omega arith
pow_mono zero (suc b) h = omega (arith, pow-suc 2 b, pow_mono zero b)
pow_mono (suc a) zero h = absurd (omega arith)
pow_mono (suc a) (suc b) h = omega (arith, pow-suc 2 a, pow-suc 2 b, pow_mono a b (omega arith))

square_mono : (a b : ℕ) → a ≤ b → a * a ≤ b * b
square_mono a b h = grind arith

module _ {ℓ κ} {K : Type ℓ} {D : Type κ} where
  -- The most nodes on a way from the root to a null pointer.
  unfoldable pub height : Tree K D → ℕ
  height leaf = 0
  height (node c k d l r) = suc (max (height l) (height r))

  height-le : {c : Bool} {n : ℕ} {t : Tree K D} → Bal c n t → height t ≤ 2 * n + reds c
  unfolding height
  height-le nil = omega arith
  height-le (red x y) = omega (arith, height-le x, height-le y)
  height-le (black {c = true} x y) = omega (arith, height-le x, height-le y)
  height-le (black {c = false} x y) = omega (arith, height-le x, height-le y)

  pow-le-count_nodes : {c : Bool} {n : ℕ} {t : Tree K D} → Bal c n t → 2 ^ n ≤ count_nodes t + 1
  unfolding count_nodes
  pow-le-count_nodes nil = omega arith
  pow-le-count_nodes (red x y) = omega (arith, pow-le-count_nodes x, pow-le-count_nodes y)
  pow-le-count_nodes (black {n = n} x y) =
      omega (arith, pow-suc 2 n, pow-le-count_nodes x, pow-le-count_nodes y)

  -- The bound on the height of a valid tree.
  height-IsValid :
      (rb : Rbtree K D) → IsValid rb → 2 ^ height rb.root ≤ (rb_size rb + 1) * (rb_size rb + 1)
  unfolding rb_size
  height-IsValid rb valid =
      let n = valid.height in
      let low : 2 ^ height rb.root ≤ 2 ^ n * 2 ^ n =
        rw (← pow_double n) (pow_mono _ _ (omega (arith, height-le valid.balanced))) in
      le_trans low (square_mono _ _ (pow-le-count_nodes valid.balanced))

  -- Calls of `rb_insert`, with memory, for one entry after the other.
  abbrev pub insert_all : Rbtree K D → List (K × D) → Exec (Rbtree K D)
  insert_all rb [] = ok rb
  insert_all rb ((key, d) ∷ kds) = do rb' ← rb_insert true rb key d; insert_all rb' kds

  -- With a lawful comparison (a total order in which equal keys are the same pointer) any sequence of
  -- calls of `rb_insert` with memory, on an empty or any other valid tree, returns, and no way down
  -- the tree that it leaves is longer than twice the binary logarithm of one more than its number of
  -- entries: two to the length of the way is at most the square of that number.
  pub height-insert_all :
      (kds : List (K × D)) (rb : Rbtree K D)
      → IsLawful rb.keys
      → IsValid rb
      → (rb' : Rbtree K D) × (insert_all rb kds ≡ ok rb')
        × (2 ^ height rb'.root ≤ (rb_size rb' + 1) * (rb_size rb' + 1))
  height-insert_all [] rb law valid = (rb, refl, height-IsValid rb valid)
  height-insert_all ((key, d) ∷ kds) rb law valid =
      let (t, e, valid', _) = rb_insert-entries rb law valid key d in
      let (rb', e', low) = height-insert_all kds (record rb { root = t }) law valid' in
      (rb', rw e e', low)
