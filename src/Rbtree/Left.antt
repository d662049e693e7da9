-- ===== src/Rbtree/Left.antt =====
-- The way down on the left, which `delete` and `del_min` of src/rbtree.c share.
use libresman.Base.{
  ℕ, suc, ◌≤◌, ◌≡◌, refl, ap, Bool, true, false, not, ok, List, ◌∷◌, ◌++◌, length, length-append,
  arith,
}
use libresman.Rbtree.{Tree, node, Event, is_red, traverse}
use libresman.Rbtree.Removal.{Removal, lean_left, descend_left}
use libresman.Rbtree.Contents.{traverse-fix_up, traverse-lean_left}
use libresman.Rbtree.Balance.{
  Bal, nil, red, black, is_red-Bal, Shrunk, kept, Fixes, fix_up-id, fix_up-right_red,
}

-- An order of the entries that each part of a list inherits; what a removal must find in a list,
-- and what it makes of it. It finds it in a longer list too, and leaves the rest of that list alone.
pub record IsLocal {ℓ κ ι μ ν} {K : Type ℓ} {D : Type κ} (Ord : List (K × D) → Type ι)
    (Pre : List (K × D) → Type μ) (Rel : List (K × D) → List (K × D) → Type ν)
    : Type (ℓ ⊔ κ ⊔ ι ⊔ μ ⊔ ν) where
  pub ord_prefix : (xs zs : List (K × D)) → Ord (xs ++ zs) → Ord xs
  pub pre_append : (xs zs : List (K × D)) → Pre xs → Pre (xs ++ zs)
  pub rel_append : (xs ys zs : List (K × D)) → Pre xs → Rel xs ys → Rel (xs ++ zs) (ys ++ zs)

-- Ordered, and of at most `size` entries.
abbrev pub Fits {ℓ ι} : {E : Type ℓ} → (List E → Type ι) → ℕ → List E → Type ι
Fits Ord size xs = Ord xs × (length xs ≤ size)

abbrev pub Any {ℓ κ} : {K : Type ℓ} {D : Type κ} → ℕ → Tree K D → Type (ℓ ⊔ κ)
Any n t = (b : Bool) × Bal b n t

module _ {ℓ κ ν} {K : Type ℓ} {D : Type κ} (Rel : List (K × D) → List (K × D) → Type ν) where
  -- The removal ends, in a tree of the shape `Q` with the entries that `Rel` asks for.
  abbrev pub Leaves {π} : (Tree K D → Type π) → Removal K D → List (K × D) → Type (ℓ ⊔ κ ⊔ π ⊔ ν)
  Leaves Q e xs =
      (t' : Tree K D) × (log : List (Event K D)) × (e ≡ ok (t', log)) × Q t' × Rel xs (traverse t')

module _ {ℓ κ ι μ ν} {K : Type ℓ} {D : Type κ} (Ord : List (K × D) → Type ι)
    (Pre : List (K × D) → Type μ) (Rel : List (K × D) → List (K × D) → Type ν) where
  -- What the recursive call does on a tree of at most `size` entries whose root or whose left child
  -- is red.
  pub record IsRemoval (f : Tree K D → Removal K D) (size : ℕ) : Type (ℓ ⊔ κ ⊔ ι ⊔ μ ⊔ ν) where
    pub at_red :
        {n : ℕ} (k : K) (d : D) {l r : Tree K D}
        → Bal false n l
        → Bal false n r
        → Pre (traverse (node true k d l r))
        → Fits Ord size (traverse (node true k d l r))
        → Leaves Rel (Any n) (f (node true k d l r)) (traverse (node true k d l r))
    pub at_black :
        {n : ℕ} (k : K) (d : D) {l r : Tree K D}
        → Bal true n l
        → Bal false n r
        → Pre (traverse (node false k d l r))
        → Fits Ord size (traverse (node false k d l r))
        → Leaves Rel (Bal false (suc n)) (f (node false k d l r)) (traverse (node false k d l r))

module _ {ℓ κ} {K : Type ℓ} {D : Type κ} where
  lean_left-rotate :
      (c : Bool) (k lk rk xk : K) (d ld rd xd : D) (ll lr xl xr rr : Tree K D)
      → is_red ll ≡ false
      → lean_left
          (node c k d (node false lk ld ll lr) (node false rk rd (node true xk xd xl xr) rr))
        ≡ ok (node c xk xd (node false k d (node true lk ld ll lr) xl) (node false rk rd xr rr))
  unfolding lean_left
  lean_left-rotate true k lk rk xk d ld rd xd ll lr xl xr rr e = rw e
  lean_left-rotate false k lk rk xk d ld rd xd ll lr xl xr rr e = rw e

  lean_left-flip :
      (c : Bool) (k lk rk : K) (d ld rd : D) (ll lr rl rr : Tree K D)
      → is_red ll ≡ false
      → is_red rl ≡ false
      → lean_left (node c k d (node false lk ld ll lr) (node false rk rd rl rr))
        ≡ ok (node (not c) k d (node true lk ld ll lr) (node true rk rd rl rr))
  unfolding lean_left
  lean_left-flip c k lk rk d ld rd ll lr rl rr e e' = rw e (rw e')

  pub Shrunk-not :
      (c : Bool) {n : ℕ} {t : Tree K D} → Shrunk (not (not c)) (not c) n t → Shrunk c (not c) n t
  Shrunk-not true s = s
  Shrunk-not false s = s

module _ {ℓ κ ι μ ν} {K : Type ℓ} {D : Type κ} {Ord : List (K × D) → Type ι}
    {Pre : List (K × D) → Type μ} {Rel : List (K × D) → List (K × D) → Type ν}
    (local : IsLocal Ord Pre Rel) {f : Tree K D → Removal K D} {size : ℕ}
    (rec : IsRemoval Ord Pre Rel f size) where
  -- The steps of `descend_left`, put together.
  finish_left {π ρ} :
      {P : Tree K D → Type π} {Q : Tree K D → Type ρ} (t : Tree K D) (c : Bool) (k : K) (d : D)
      {l r : Tree K D}
      → lean_left t ≡ ok (node c k d l r)
      → Pre (traverse l)
      → Leaves Rel P (f l) (traverse l)
      → ((l' : Tree K D) → P l' → Fixes Q (node c k d l' r))
      → Leaves Rel Q (descend_left f t) (traverse t)
  unfolding descend_left traverse
  finish_left t c k d {l} {r} lean pre (l', log, call, p, rel) fixes =
      let (t', fix, q) = fixes l' p in
      (
        t',
        log,
        rw (lean, call, fix),
        q,
        rw (← traverse-lean_left t lean, traverse-fix_up (node c k d l' r) fix)
            (local.rel_append _ _ ((k, d) ∷ traverse r) pre rel),
      )

  shorter :
      (t : Tree K D) {c : Bool} {k : K} {d : D} {l r : Tree K D}
      → lean_left t ≡ ok (node c k d l r)
      → Fits Ord (suc size) (traverse t)
      → Fits Ord size (traverse l)
  unfolding traverse
  shorter t {l = l} {r = r} lean h = (
    local.ord_prefix (traverse l) _ (rw (← traverse-lean_left t lean) at h.0),
    omega
        (arith, ap length (traverse-lean_left t lean), length-append (traverse l) (_ ∷ traverse r)),
  )

  -- The same where `move_red_left` takes reds from the right child's left child.
  descend_left-rotate :
      (c : Bool) (k lk rk xk : K) (d ld rd xd : D) {n : ℕ} {ll lr xl xr rr : Tree K D}
      → Bal false n ll
      → Bal false n lr
      → Bal false n xl
      → Bal false n xr
      → Bal false n rr
      → let l = node false lk ld ll lr in
        let t = node c k d l (node false rk rd (node true xk xd xl xr) rr) in
        Pre (traverse l)
        → Fits Ord (suc size) (traverse t)
        → Leaves Rel (Shrunk c (not c) (suc n)) (descend_left f t) (traverse t)
  unfolding traverse
  descend_left-rotate c k lk rk xk d ld rd xd {ll = ll} {lr} {xl} {xr} {rr} v w x y z pre h =
      let t : Tree K D =
        node c k d (node false lk ld ll lr) (node false rk rd (node true xk xd xl xr) rr) in
      let lean = lean_left-rotate c k lk rk xk d ld rd xd ll lr xl xr rr (is_red-Bal v) in
      let pre' : Pre (traverse (node false k d (node true lk ld ll lr) xl)) =
        local.pre_append _ ((k, d) ∷ traverse xl) pre in
      finish_left t c xk xd lean pre' (rec.at_black k d (red v w) x pre' (shorter t lean h))
        λ l' q. (_, fix_up-id c xk xd q (black y z), kept q (black y z))

  -- The same where `move_red_left` does no more than flip the colours.
  descend_left-flip :
      (c : Bool) (k lk rk : K) (d ld rd : D) {n : ℕ} {ll lr rl rr : Tree K D}
      → Bal false n ll
      → Bal false n lr
      → Bal false n rl
      → Bal false n rr
      → let l = node false lk ld ll lr in
        let t = node c k d l (node false rk rd rl rr) in
        Pre (traverse l)
        → Fits Ord (suc size) (traverse t)
        → Leaves Rel (Shrunk c (not c) (suc n)) (descend_left f t) (traverse t)
  unfolding traverse
  descend_left-flip c k lk rk d ld rd {ll = ll} {lr} {rl} {rr} v w x y pre h =
      let t : Tree K D = node c k d (node false lk ld ll lr) (node false rk rd rl rr) in
      let lean = lean_left-flip c k lk rk d ld rd ll lr rl rr (is_red-Bal v) (is_red-Bal x) in
      finish_left t (not c) k d lean pre (rec.at_red lk ld v w pre (shorter t lean h)) λ l' (b, q).
        let (t', fix, s) = fix_up-right_red (not c) k rk d rd q x y in (t', fix, Shrunk-not c s)

  descend_left-move :
      (c : Bool) (k lk : K) (d ld : D) {n : ℕ} {ll lr r : Tree K D}
      → Bal false n ll
      → Bal false n lr
      → Bal false (suc n) r
      → let l = node false lk ld ll lr in
        Pre (traverse l)
        → Fits Ord (suc size) (traverse (node c k d l r))
        → Leaves Rel
            (Shrunk c (not c) (suc n))
            (descend_left f (node c k d l r))
            (traverse (node c k d l r))
  descend_left-move c k lk d ld v w (black (red x y) z) pre h =
      descend_left-rotate c k lk _ _ d ld _ _ v w x y z pre h
  descend_left-move c k lk d ld v w (black nil z) pre h =
      descend_left-flip c k lk _ d ld _ v w nil z pre h
  descend_left-move c k lk d ld v w (black (black x y) z) pre h =
      descend_left-flip c k lk _ d ld _ v w (black x y) z pre h

  -- A node with no red child.
  pub descend_left-Shrunk :
      (c : Bool) (k : K) (d : D) {n : ℕ} {l r : Tree K D}
      → Bal false (suc n) l
      → Bal false (suc n) r
      → Pre (traverse l)
      → Fits Ord (suc size) (traverse (node c k d l r))
      → Leaves Rel
          (Shrunk c (not c) (suc n))
          (descend_left f (node c k d l r))
          (traverse (node c k d l r))
  unfolding lean_left
  descend_left-Shrunk c k d {r = r} (black {k = lk} {d = ld} {l = ll} {r = lr} (red w1 w2) x) y pre
        h =
      let t : Tree K D = node c k d (node false lk ld ll lr) r in
      finish_left t c k d refl pre (rec.at_black lk ld (red w1 w2) x pre (shorter t refl h))
        λ l' q. (_, fix_up-id c k d q y, kept q y)
  descend_left-Shrunk c k d (black nil x) y pre h = descend_left-move c k _ d _ nil x y pre h
  descend_left-Shrunk c k d (black (black w1 w2) x) y pre h =
      descend_left-move c k _ d _ (black w1 w2) x y pre h

  -- A node with a red left child.
  pub descend_left-Bal :
      (k : K) (d : D) {n : ℕ} {l r : Tree K D}
      → Bal true n l
      → Bal false n r
      → Pre (traverse l)
      → Fits Ord (suc size) (traverse (node false k d l r))
      → Leaves Rel
          (Bal false (suc n))
          (descend_left f (node false k d l r))
          (traverse (node false k d l r))
  unfolding lean_left
  descend_left-Bal k d {r = r} (red {k = lk} {d = ld} {l = ll} {r = lr} w x) y pre h =
      finish_left (node false k d (node true lk ld ll lr) r) false k d refl pre
        (rec.at_red lk ld w x pre (shorter (node false k d (node true lk ld ll lr) r) refl h))
        λ l' (b, q). (_, fix_up-id false k d q y, black q y)
