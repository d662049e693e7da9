-- ===== src/Rbtree/Api/Absent.antt =====
-- `rb_delete` of src/rbtree.c on a key that is not in the tree, and on the last entry.
use Prim.Native.Nat.Ordering.{eq}
use libresman.Base.{
  ℕ, zero, suc, ◌≤◌, ◌≡◌, refl, Bool, true, false, ok, null_deref, List, [], ◌∷◌, inl, inr, ◌⊎◌,
  length, length-append, arith, Ordering-cases, Exec,
}
use libresman.Base.Int.{sign}
use libresman.Rbtree.{Tree, leaf, node, Keys, Event, traverse, count_nodes}
use libresman.Rbtree.Removal.{
  Removal, lean_left, lean_right, descend_left, remove_right, shrink_right, descend_right,
  delete_step, delete, del_min,
}
use libresman.Rbtree.Entries.{IsLawful, has, has-append}
use libresman.Rbtree.Contents.{traverse-lean_left, traverse-lean_right, traverse-turn_right}
use libresman.Rbtree.Api.{Rbtree, rb_delete, rb_size}
use libresman.Rbtree.Api.Contract.{entries, count_nodes-length, delete-root, IsValid}
use libresman.Rbtree.Entries.Finite.{length-erase}
use libresman.Rbtree.Right.{Has}

module _ {ℓ κ} {K : Type ℓ} {D : Type κ} where
  -- A step to a node with a left (right) child, or through a null pointer.
  data StepsLeft (e : Exec (Tree K D)) : Type (ℓ ⊔ κ) where
    faults : e ≡ null_deref → StepsLeft e
    steps :
        (c : Bool) (k : K) (d : D) (lc : Bool) (lk : K) (ld : D) (ll lr r : Tree K D)
        → e ≡ ok (node c k d (node lc lk ld ll lr) r)
        → StepsLeft e

  data StepsRight (e : Exec (Tree K D)) : Type (ℓ ⊔ κ) where
    faults : e ≡ null_deref → StepsRight e
    steps :
        (c : Bool) (k : K) (d : D) (l : Tree K D) (rc : Bool) (rk : K) (rd : D) (rl rr : Tree K D)
        → e ≡ ok (node c k d l (node rc rk rd rl rr))
        → StepsRight e

  lean_left-StepsLeft : (t : Tree K D) → StepsLeft (lean_left t)
  unfolding lean_left
  lean_left-StepsLeft leaf = StepsLeft.faults refl
  lean_left-StepsLeft (node c k d leaf r) = StepsLeft.faults refl
  lean_left-StepsLeft (node c k d (node true lk ld ll lr) r) =
      StepsLeft.steps c k d true lk ld ll lr r refl
  lean_left-StepsLeft (node c k d (node false lk ld (node true _ _ _ _) lr) r) =
      StepsLeft.steps c k d false lk ld _ lr r refl
  lean_left-StepsLeft (node c k d (node false lk ld leaf lr) leaf) = StepsLeft.faults refl
  lean_left-StepsLeft (node c k d (node false lk ld (node false _ _ _ _) lr) leaf) =
      StepsLeft.faults refl
  lean_left-StepsLeft (node c k d (node false lk ld leaf lr) (node rc rk rd leaf rr)) =
      StepsLeft.steps _ _ _ _ _ _ _ _ _ refl
  lean_left-StepsLeft
        (node c k d (node false lk ld leaf lr) (node rc rk rd (node true _ _ _ _) rr)) =
      StepsLeft.steps _ _ _ _ _ _ _ _ _ refl
  lean_left-StepsLeft
        (node c k d (node false lk ld leaf lr) (node rc rk rd (node false _ _ _ _) rr)) =
      StepsLeft.steps _ _ _ _ _ _ _ _ _ refl
  lean_left-StepsLeft
        (node c k d (node false lk ld (node false _ _ _ _) lr) (node rc rk rd leaf rr)) =
      StepsLeft.steps _ _ _ _ _ _ _ _ _ refl
  lean_left-StepsLeft
        (node c k d
          (node false lk ld (node false _ _ _ _) lr)
          (node rc rk rd (node true _ _ _ _) rr)) =
      StepsLeft.steps _ _ _ _ _ _ _ _ _ refl
  lean_left-StepsLeft
        (node c k d
          (node false lk ld (node false _ _ _ _) lr)
          (node rc rk rd (node false _ _ _ _) rr)) =
      StepsLeft.steps _ _ _ _ _ _ _ _ _ refl

  lean_right-StepsRight : (t : Tree K D) → StepsRight (lean_right t)
  unfolding lean_right
  lean_right-StepsRight leaf = StepsRight.faults refl
  lean_right-StepsRight (node c k d l leaf) = StepsRight.faults refl
  lean_right-StepsRight (node c k d l (node true rk rd rl rr)) =
      StepsRight.steps _ _ _ _ _ _ _ _ _ refl
  lean_right-StepsRight (node c k d l (node false rk rd (node true _ _ _ _) rr)) =
      StepsRight.steps _ _ _ _ _ _ _ _ _ refl
  lean_right-StepsRight (node c k d leaf (node false rk rd leaf rr)) = StepsRight.faults refl
  lean_right-StepsRight (node c k d (node _ _ _ _ _) (node false rk rd leaf rr)) =
      StepsRight.steps _ _ _ _ _ _ _ _ _ refl
  lean_right-StepsRight (node c k d leaf (node false rk rd (node false _ _ _ _) rr)) =
      StepsRight.faults refl
  lean_right-StepsRight (node c k d (node _ _ _ _ _) (node false rk rd (node false _ _ _ _) rr)) =
      StepsRight.steps _ _ _ _ _ _ _ _ _ refl

module _ {ℓ κ} {K : Type ℓ} {D : Type κ} (o : Keys K) (law : IsLawful o) (key : K) where
  abbrev Lacks : Tree K D → Type 0
  Lacks t = has o key (traverse t) ≡ false

  -- The call meets a null pointer on every tree of at most `size` entries, the empty tree excepted,
  -- that lacks the key.
  abbrev Faults : (Tree K D → Removal K D) → ℕ → Type (ℓ ⊔ κ)
  Faults f size =
      (c : Bool) (k : K) (d : D) (l r : Tree K D)
      → Lacks (node c k d l r)
      → length (traverse (node c k d l r)) ≤ size
      → f (node c k d l r) ≡ null_deref

  below_left :
      {size : ℕ} (c : Bool) (k : K) (d : D) (l r : Tree K D)
      → Lacks (node c k d l r)
      → length (traverse (node c k d l r)) ≤ suc size
      → Lacks l × (length (traverse l) ≤ size)
  unfolding traverse
  below_left c k d l r h s = (
    ground (arith, has-append o key (traverse l) ((k, d) ∷ traverse r)),
    omega (arith, length-append (traverse l) ((k, d) ∷ traverse r)),
  )

  below_right :
      {size : ℕ} (c : Bool) (k : K) (d : D) (l r : Tree K D)
      → Lacks (node c k d l r)
      → length (traverse (node c k d l r)) ≤ suc size
      → Lacks r × (o.same key k ≡ false) × (length (traverse r) ≤ size)
  unfolding traverse
  below_right c k d l r h s = (
    ground (arith, has-append o key (traverse l) ((k, d) ∷ traverse r)),
    ground (arith, has-append o key (traverse l) ((k, d) ∷ traverse r)),
    omega (arith, length-append (traverse l) ((k, d) ∷ traverse r)),
  )

  module _ (f : Tree K D → Removal K D) {size : ℕ} (rec : Faults f size) where
    descend_left-fault :
        (t : Tree K D) → Lacks t → length (traverse t) ≤ suc size → descend_left f t ≡ null_deref
    unfolding descend_left
    descend_left-fault t h s = go (lean_left-StepsLeft t)
      where
        go : StepsLeft (lean_left t) → descend_left f t ≡ null_deref
        go (StepsLeft.faults e) = rw e
        go (StepsLeft.steps c k d lc lk ld ll lr r e) =
            let same = traverse-lean_left t e in
            let (hl, sl) = below_left c k d (node lc lk ld ll lr) r (rw same h) (rw same s) in
            rw e (rw (rec lc lk ld ll lr hl sl))

    remove_right-fault :
        (fmin : Tree K D → Removal K D) (t : Tree K D)
        → Lacks t
        → length (traverse t) ≤ suc size
        → remove_right o fmin f t key ≡ null_deref
    unfolding remove_right shrink_right
    remove_right-fault fmin t h s = go (lean_right-StepsRight t)
      where
        go : StepsRight (lean_right t) → remove_right o fmin f t key ≡ null_deref
        go (StepsRight.faults e) = rw e
        go (StepsRight.steps c k d l rc rk rd rl rr e) =
            let same = traverse-lean_right t e in
            let (hr, miss, sr) =
              below_right c k d l (node rc rk rd rl rr) (rw same h) (rw same s) in
            rw e (rw miss (rw (rec rc rk rd rl rr hr sr)))

    descend_right-fault :
        (del : Bool) (fmin : Tree K D → Removal K D) (t : Tree K D)
        → Lacks t
        → length (traverse t) ≤ suc size
        → descend_right o del false fmin f t key ≡ null_deref
    unfolding descend_right
    descend_right-fault del fmin leaf h s = refl
    descend_right-fault del fmin (node c k d (node true lk ld ll lr) r) h s =
        let t : Tree K D = node c k d (node true lk ld ll lr) r in
        let same = traverse-turn_right t refl in
        remove_right-fault fmin (node c lk ld ll (node true k d lr r)) (rw same h) (rw same s)
    descend_right-fault del fmin (node c k d leaf leaf) h s =
        remove_right-fault fmin (node c k d leaf leaf) h s
    descend_right-fault del fmin (node c k d leaf (node rc rk rd rl rr)) h s =
        remove_right-fault fmin (node c k d leaf (node rc rk rd rl rr)) h s
    descend_right-fault del fmin (node c k d (node false lk ld ll lr) leaf) h s =
        remove_right-fault fmin (node c k d (node false lk ld ll lr) leaf) h s
    descend_right-fault del fmin (node c k d (node false lk ld ll lr) (node rc rk rd rl rr)) h s =
        remove_right-fault fmin (node c k d (node false lk ld ll lr) (node rc rk rd rl rr)) h s

    delete_step-fault :
        (del : Bool) (fmin : Tree K D → Removal K D) (c : Bool) (k : K) (d : D) (l r : Tree K D)
        → Lacks (node c k d l r)
        → length (traverse (node c k d l r)) ≤ suc size
        → delete_step o del fmin f (node c k d l r) key ≡ null_deref
    unfolding delete_step
    delete_step-fault del fmin c k d l r h s = elim (Ordering-cases (sign (o.cmp key k))) [
      | inl e ↦ rw (e, delete_step) (descend_left-fault (node c k d l r) h s)
      | inr (inl e) ↦ absurd (differs e (below_right c k d l r h s).1)
      | inr (inr e) ↦ rw (e, delete_step) (descend_right-fault del fmin (node c k d l r) h s)
    ]
      where
        differs : sign (o.cmp key k) ≡ eq → ¬ (o.same key k ≡ false)
        differs e = ground (arith, law.eq_of_cmp key k, (law.same_iff key k).1)

  delete-Faults : (fuel : ℕ) (del : Bool) → Faults (λ t. delete o fuel del t key) fuel
  unfolding delete traverse
  delete-Faults zero del c k d l r h s =
      absurd (omega (arith, length-append (traverse l) ((k, d) ∷ traverse r)))
  delete-Faults (suc fuel) del c k d l r h s =
      delete_step-fault (λ t. delete o fuel del t key) (delete-Faults fuel del) del
        (del_min fuel del) c k d l r h s

module _ {ℓ κ} {K : Type ℓ} {D : Type κ} where
  delete-leaf :
      (o : Keys K) (key : K) (del : Bool) (fuel : ℕ)
      → delete {D = D} o (suc fuel) del leaf key ≡ ok (leaf, [])
  unfolding delete
  delete-leaf o key del fuel = refl

  leaf_of_length : (t : Tree K D) → length (traverse t) ≡ 0 → t ≡ leaf
  unfolding traverse
  leaf_of_length leaf h = refl
  leaf_of_length (node c k d l r) h =
      absurd (omega (arith, length-append (traverse l) ((k, d) ∷ traverse r)))

module _ {ℓ κ} {K : Type ℓ} {D : Type κ} (rb : Rbtree K D) (law : IsLawful rb.keys) (key : K) where
  -- Where `delete` leaves no node, or meets a null pointer, so does `rb_delete`: it makes the root
  -- black with no test.
  rb_delete-fault :
      ((delete rb.keys (suc (count_nodes rb.root)) rb.del rb.root key ≡ null_deref)
        ⊎ ((log : List (Event K D)) × (delete rb.keys (suc (count_nodes rb.root)) rb.del rb.root key
              ≡ ok (leaf, log))))
      → rb_delete rb key ≡ null_deref
  unfolding rb_delete
  rb_delete-fault (inl e) = rw e
  rb_delete-fault (inr (log, e)) = rw e

  -- With a lawful comparison (a total order in which equal keys are the same pointer) a deletion of a key
  -- that is not in the tree, whatever the shape of the tree, ends in a null pointer.
  pub rb_delete-absent : has rb.keys key (entries rb) ≡ false → rb_delete rb key ≡ null_deref
  rb_delete-absent h = rb_delete-fault (go rb.root h (omega (arith, count_nodes-length rb.root)))
    where
      go :
          (t : Tree K D)
          → has rb.keys key (traverse t) ≡ false
          → length (traverse t) ≤ suc (count_nodes t)
          → (delete rb.keys (suc (count_nodes t)) rb.del t key ≡ null_deref)
            ⊎ ((log : List (Event K D)) × (delete rb.keys (suc (count_nodes t)) rb.del t key
                  ≡ ok (leaf, log)))
      go leaf h s = inr ([], delete-leaf rb.keys key rb.del _)
      go (node c k d l r) h s =
          inl (
            delete-Faults rb.keys law key (suc (count_nodes (node c k d l r))) rb.del c k d l r h s)

  -- On a valid tree of a single entry and with a lawful comparison (a total order in which equal keys are
  -- the same pointer), the deletion of that entry ends in a null pointer.
  pub rb_delete-last :
      IsValid rb → Has rb.keys key (entries rb) → rb_size rb ≡ 1 → rb_delete rb key ≡ null_deref
  unfolding rb_size
  rb_delete-last valid h one =
      let (t1, log, e, q, c) =
        delete-root rb.keys law key rb.del rb.root valid.balanced valid.sorted h in
      let none_left : length (traverse t1) ≡ 0 =
        rw c (
          omega (arith, length-erase rb.keys law (entries rb) key h, count_nodes-length rb.root)) in
      rb_delete-fault (inr (log, rw (leaf_of_length t1 none_left) at e))
