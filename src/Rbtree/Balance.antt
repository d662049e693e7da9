-- ===== src/Rbtree/Balance.antt =====
-- The shape of the trees of src/rbtree.c, and what `fix_up` makes of the shapes that it meets.
use libresman.Base.{ℕ, zero, suc, ◌≡◌, refl, Bool, true, false, not, ok, arith}
use libresman.Rbtree.{Tree, leaf, node, is_red, fix_up}

-- `Bal c n t`: no right child is red, no red node has a red child, every path to a null pointer
-- meets `n` black nodes, and `c` is the colour of the root.
pub data Bal {ℓ κ} {K : Type ℓ} {D : Type κ} : Bool → ℕ → Tree K D → Type (ℓ ⊔ κ) where
  nil : Bal false zero leaf
  red :
      {n : ℕ} {k : K} {d : D} {l r : Tree K D}
      → Bal false n l
      → Bal false n r
      → Bal true n (node true k d l r)
  black :
      {c : Bool} {n : ℕ} {k : K} {d : D} {l r : Tree K D}
      → Bal c n l
      → Bal false n r
      → Bal false (suc n) (node false k d l r)

module _ {ℓ κ} {K : Type ℓ} {D : Type κ} where
  pub is_red-Bal : {c : Bool} {n : ℕ} {t : Tree K D} → Bal c n t → is_red t ≡ c
  is_red-Bal nil = refl
  is_red-Bal (red a b) = refl
  is_red-Bal (black a b) = refl

  -- Nothing to repair.
  pub fix_up-id :
      (c : Bool) (k : K) (d : D) {b : Bool} {n m : ℕ} {l r : Tree K D}
      → Bal b n l
      → Bal false m r
      → fix_up (node c k d l r) ≡ ok (node c k d l r)
  unfolding fix_up
  fix_up-id c k d nil r = ground (arith, is_red-Bal r)
  fix_up-id c k d (black x y) r = ground (arith, is_red-Bal r)
  fix_up-id c k d (red x y) r = ground (arith, is_red-Bal r, is_red-Bal x)

-- What a removal leaves of a balanced tree of black height `n` whose root had the colour `c` and no
-- red child: nothing, a tree like it, or one whose root has the other colour `c'`.
pub data Shrunk {ℓ κ} {K : Type ℓ} {D : Type κ} (c c' : Bool) : ℕ → Tree K D → Type (ℓ ⊔ κ) where
  gone : Shrunk c c' zero leaf
  kept :
      {n : ℕ} {k : K} {d : D} {l r : Tree K D}
      → Bal false n l
      → Bal false n r
      → Shrunk c c' n (node c k d l r)
  turned :
      {b : Bool} {n : ℕ} {k : K} {d : D} {l r : Tree K D}
      → Bal b n l
      → Bal false n r
      → Shrunk c c' (suc n) (node c' k d l r)

module _ {ℓ κ} {K : Type ℓ} {D : Type κ} where
  -- What was a red node is then balanced, at the same height.
  pub Shrunk-Bal : {n : ℕ} {t : Tree K D} → Shrunk true false n t → (b : Bool) × Bal b n t
  Shrunk-Bal gone = (false, nil)
  Shrunk-Bal (kept x y) = (true, red x y)
  Shrunk-Bal (turned x y) = (false, black x y)

  abbrev pub Fixes {μ} : (Tree K D → Type μ) → Tree K D → Type (ℓ ⊔ κ ⊔ μ)
  Fixes Q t = (t' : Tree K D) × (fix_up t ≡ ok t') × Q t'

  -- A black node whose right child may be red.
  pub fix_up-lean :
      (k : K) (d : D) {b : Bool} {n : ℕ} {l r : Tree K D}
      → Bal false n l
      → Bal b n r
      → Fixes (Bal false (suc n)) (node false k d l r)
  unfolding fix_up
  fix_up-lean k d x nil = (_, fix_up-id false k d x nil, black x nil)
  fix_up-lean k d x (black y z) = (_, fix_up-id false k d x (black y z), black x (black y z))
  fix_up-lean k d {l = l} x (red {k = kr} {d = dr} {l = rl} {r = rr} y z) = (
    node false kr dr (node true k d l rl) rr,
    rw (is_red-Bal x) (rw (is_red-Bal z)),
    black (red x y) z,
  )

  -- A node with a red child on each side, the left one with a red child of its own or not.
  fix_up-split :
      (c : Bool) (k kl kr : K) (d dl dr : D) {b : Bool} {n : ℕ} {ll lr rl rr : Tree K D}
      → Bal b n ll
      → Bal false n lr
      → Bal false n rl
      → Bal false n rr
      → Fixes
          (Shrunk (not c) c (suc n))
          (node c k d (node true kl dl ll lr) (node true kr dr rl rr))
  unfolding fix_up
  fix_up-split c k kl kr d dl dr {ll = ll} {lr = lr} {rl = rl} {rr = rr} w x y z = (
    node (not c) k d (node false kl dl ll lr) (node false kr dr rl rr),
    ground arith,
    kept (black w x) (black y z),
  )

  -- A node with a red left child, which may have a red left child of its own, and a right child
  -- that is not red.
  fix_up-left_red :
      (c : Bool) (k kl : K) (d dl : D) {a : Bool} {n : ℕ} {ll lr r : Tree K D}
      → Bal a n ll
      → Bal false n lr
      → Bal false n r
      → Fixes (Shrunk (not c) c (suc n)) (node c k d (node true kl dl ll lr) r)
  unfolding fix_up
  fix_up-left_red c k kl d dl nil x y = (_, fix_up-id c k d (red nil x) y, turned (red nil x) y)
  fix_up-left_red c k kl d dl (black v w) x y =
      (_, fix_up-id c k d (red (black v w) x) y, turned (red (black v w) x) y)
  fix_up-left_red c k kl d dl {lr = lr} {r = r} (red {k = k2} {d = d2} {l = l2} {r = r2} v w) x y =
      (
        node (not c) kl dl (node false k2 d2 l2 r2) (node false k d lr r),
        rw (is_red-Bal y),
        kept (black v w) (black x y),
      )

  -- The same, with a right child that may be red.
  pub fix_up-pair :
      (c : Bool) (k kl : K) (d dl : D) {a b : Bool} {n : ℕ} {ll lr r : Tree K D}
      → Bal a n ll
      → Bal false n lr
      → Bal b n r
      → Fixes (Shrunk (not c) c (suc n)) (node c k d (node true kl dl ll lr) r)
  fix_up-pair c k kl d dl w x (red y z) = fix_up-split c k kl _ d dl _ w x y z
  fix_up-pair c k kl d dl w x nil = fix_up-left_red c k kl d dl w x nil
  fix_up-pair c k kl d dl w x (black y z) = fix_up-left_red c k kl d dl w x (black y z)

  -- A left child that is not red, and a red right child.
  fix_up-turn :
      (c : Bool) (k kr : K) (d dr : D) {n : ℕ} {l rl rr : Tree K D}
      → Bal false n l
      → Bal false n rl
      → Bal false n rr
      → Fixes (Shrunk (not c) c (suc n)) (node c k d l (node true kr dr rl rr))
  unfolding fix_up
  fix_up-turn c k kr d dr {l = l} {rl = rl} {rr = rr} x y z = (
    node c kr dr (node true k d l rl) rr,
    rw (is_red-Bal x) (rw (is_red-Bal z)),
    turned (red x y) z,
  )

  -- The same, with a left child that may be red.
  pub fix_up-right_red :
      (c : Bool) (k kr : K) (d dr : D) {b : Bool} {n : ℕ} {l rl rr : Tree K D}
      → Bal b n l
      → Bal false n rl
      → Bal false n rr
      → Fixes (Shrunk (not c) c (suc n)) (node c k d l (node true kr dr rl rr))
  fix_up-right_red c k kr d dr (red w x) y z = fix_up-split c k _ kr d _ dr w x y z
  fix_up-right_red c k kr d dr nil y z = fix_up-turn c k kr d dr nil y z
  fix_up-right_red c k kr d dr (black w x) y z = fix_up-turn c k kr d dr (black w x) y z
