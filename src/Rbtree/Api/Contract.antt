-- ===== src/Rbtree/Api/Contract.antt =====
-- The contract of src/rbtree.h: its trees as ordered finite maps, and the calls that change one.

use Prim.Native.Nat.Ordering.{gt}
use libresman.Base.Int.{sign}
use libresman.Base.{
  Ordering-cases, inl, inr, ◌⊎◌, ℕ, suc, ◌≤◌, ◌<◌, ◌≡◌, refl, sym, ◌∙◌, Bool, true, false, List,
  ◌∷◌, ok, length, length-append, arith,
}
use libresman.Rbtree.{Tree, leaf, node, Event, Keys, count_nodes, blacken, traverse, find}
use libresman.Rbtree.Removal.{delete}
use libresman.Rbtree.Entries.{
  IsLawful, IsSorted, has, lookup, erase, put, IsSorted-left, IsSorted-right,
}
use libresman.Rbtree.Entries.Finite.{put-IsSorted, erase-IsSorted, length-erase, put_pos}
use libresman.Rbtree.Entries.Search.{lookup-append_lt, lookup-append_ge}
use libresman.Rbtree.Balance.{Bal, nil, red, black, Shrunk, gone, kept, turned}
use libresman.Rbtree.Left.{Any, Leaves}
use libresman.Rbtree.DelMin.{del_min-IsRemoval}
use libresman.Rbtree.Right.{Has, Erases}
use libresman.Rbtree.Delete.{delete-IsRemoval, delete_step-Shrunk, delete_step-Bal}
use libresman.Rbtree.Insert.{insert-Grown}
use libresman.Rbtree.Api.{Rbtree, rb_size, rb_insert, rb_delete, rb_find}

module _ {ℓ κ} {K : Type ℓ} {D : Type κ} where
  abbrev pub entries : Rbtree K D → List (K × D)
  entries rb = traverse rb.root

  -- The root is black or null, the tree is balanced, and the keys are in order.
  pub record IsValid (rb : Rbtree K D) : Type (ℓ ⊔ κ) where
    pub height : ℕ
    pub balanced : Bal false height rb.root
    pub sorted : IsSorted rb.keys (entries rb)

  pub count_nodes-length : (t : Tree K D) → count_nodes t ≡ length (traverse t)
  unfolding count_nodes traverse
  count_nodes-length leaf = refl
  count_nodes-length (node c k d l r) = omega (
    arith,
    count_nodes-length l,
    count_nodes-length r,
    length-append (traverse l) ((k, d) ∷ traverse r),
  )

  blacken-Any :
      {n : ℕ} (t : Tree K D)
      → Any n t
      → 0 < length (traverse t)
      → (t' : Tree K D) × (m : ℕ) × (blacken t ≡ ok t')
        × Bal false m t'
        × (traverse t' ≡ traverse t)
  unfolding blacken traverse
  blacken-Any t (b, nil) h = elim h [ ]
  blacken-Any t (b, red {k = k} {d = d} {l = l} {r = r} x y) h =
      (node false k d l r, _, refl, black x y, refl)
  blacken-Any t (b, black {k = k} {d = d} {l = l} {r = r} x y) h =
      (node false k d l r, _, refl, black x y, refl)

  blacken-Shrunk :
      {n : ℕ} (t : Tree K D)
      → Shrunk false true n t
      → 0 < length (traverse t)
      → (t' : Tree K D) × (m : ℕ) × (blacken t ≡ ok t')
        × Bal false m t'
        × (traverse t' ≡ traverse t)
  unfolding blacken traverse
  blacken-Shrunk t gone h = elim h [ ]
  blacken-Shrunk t (kept {k = k} {d = d} {l = l} {r = r} x y) h =
      (node false k d l r, _, refl, black x y, refl)
  blacken-Shrunk t (turned {k = k} {d = d} {l = l} {r = r} x y) h =
      (node false k d l r, _, refl, black x y, refl)

  -- The loop of `rb_find` looks the key up in the list of the entries.
  pub find-eq-lookup :
      (o : Keys K)
      → IsLawful o
      → (t : Tree K D) (key : K) → IsSorted o (traverse t)
      → find o t key ≡ lookup o key (traverse t)
  unfolding find traverse lookup
  find-eq-lookup o law leaf key s = refl
  find-eq-lookup o law (node c k d l r) key s = elim (Ordering-cases (sign (o.cmp key k))) [
    | inl e ↦
        rw (e, find)
          (find-eq-lookup o law l key (IsSorted-left o c k d l r s)
            ∙ sym (lookup-append_lt o law (traverse l) (traverse r) key k d s e))
    | inr (inl e) ↦
        rw (e, find)
          (sym (
            lookup-append_ge o law (traverse l) (traverse r) key k d s (λ p. cc)
            ∙ (rw ((law.same_iff key k).1 (law.eq_of_cmp key k e), lookup))))
    | inr (inr e) ↦
        rw (e, find)
          (find-eq-lookup o law r key (IsSorted-right o c k d l r s)
            ∙ sym (
                lookup-append_ge o law (traverse l) (traverse r) key k d s (λ p. cc)
                ∙ (rw (other e, lookup))))
  ]
    where
      other : sign (o.cmp key k) ≡ gt → o.same key k ≡ false
      other e = ground (arith, (law.same_iff key k).0, law.cmp_refl key)

  pub rb_find-eq-lookup :
      (rb : Rbtree K D)
      → IsLawful rb.keys
      → IsValid rb
      → (key : K) → rb_find rb key ≡ lookup rb.keys key (entries rb)
  unfolding rb_find
  rb_find-eq-lookup rb law valid key = find-eq-lookup rb.keys law rb.root key valid.sorted

  -- Every insertion for which there is memory ends, in a valid tree with the entry in its place.
  pub rb_insert-entries :
      (rb : Rbtree K D)
      → IsLawful rb.keys
      → IsValid rb
      → (key : K) (d : D)
      → (t : Tree K D) × (rb_insert true rb key d ≡ ok (record rb { root = t }))
        × IsValid (record rb { root = t })
        × (traverse t ≡ put rb.keys key d (entries rb))
  unfolding rb_insert
  rb_insert-entries rb law valid key d =
      let (t, e, q, c) = insert-Grown rb.keys law key d valid.balanced valid.sorted in
      let (t', n, e', b, c') = blacken-Any t q (rw c (put_pos rb.keys law (entries rb) key d)) in
      (
        t',
        rw e (rw e'),
        record {
          height = n;
          balanced = b;
          sorted = rw (c', c) (put-IsSorted rb.keys law (entries rb) key d valid.sorted);
        },
        c' ∙ c,
      )

  -- What `delete` leaves at the root, before the root is made black.
  abbrev Removed : Tree K D → Type (ℓ ⊔ κ)
  Removed t = ((n : ℕ) × Shrunk false true n t) ⊎ ((n : ℕ) × Any n t)

  blacken-Removed :
      (t : Tree K D)
      → Removed t
      → 0 < length (traverse t)
      → (t' : Tree K D) × (m : ℕ) × (blacken t ≡ ok t')
        × Bal false m t'
        × (traverse t' ≡ traverse t)
  blacken-Removed t (inl (n, q)) h = blacken-Shrunk t q h
  blacken-Removed t (inr (n, q)) h = blacken-Any t q h

  -- With the key in the tree, `delete` takes that entry out.
  pub delete-root :
      (o : Keys K)
      → IsLawful o
      → (key : K) (del : Bool) {n : ℕ} (t : Tree K D) → Bal false n t
      → IsSorted o (traverse t)
      → Has o key (traverse t)
      → Leaves (Erases o key) Removed (delete o (suc (count_nodes t)) del t key) (traverse t)
  unfolding delete traverse
  delete-root o law key del t nil s h = cc
  delete-root o law key del t (black {c = false} {k = k} {d = d} {l = l} {r = r} x y) s h =
      let (t1, log, e, q, c) =
        delete_step-Shrunk o law key del (del_min-IsRemoval (count_nodes t) del)
          (delete-IsRemoval o law key del (count_nodes t)) false k d x y h
          (s, omega (arith, count_nodes-length t)) in
      (t1, log, e, inl (_, q), c)
  delete-root o law key del t (black {c = true} {k = k} {d = d} {l = l} {r = r} x y) s h =
      let (t1, log, e, q, c) =
        delete_step-Bal o law key del (del_min-IsRemoval (count_nodes t) del)
          (delete-IsRemoval o law key del (count_nodes t)) k d x y h
          (s, omega (arith, count_nodes-length t)) in
      (t1, log, e, inr (_, (false, q)), c)

  -- Every deletion of a key that the tree holds ends, if the tree holds another one, in a valid tree
  -- with that entry taken out.
  pub rb_delete-entries :
      (rb : Rbtree K D)
      → IsLawful rb.keys
      → IsValid rb
      → (key : K) → Has rb.keys key (entries rb)
      → 2 ≤ rb_size rb
      → (t : Tree K D) × (log : List (Event K D)) × (rb_delete rb key
          ≡ ok (record rb { root = t }, log))
        × IsValid (record rb { root = t })
        × (traverse t ≡ erase rb.keys key (entries rb))
  unfolding rb_delete rb_size
  rb_delete-entries rb law valid key has two =
      let (t1, log, e, q, c) =
        delete-root rb.keys law key rb.del rb.root valid.balanced valid.sorted has in
      let (t', n, e', b, c') = blacken-Removed t1 q (
        rw c (
          omega
            (arith, length-erase rb.keys law (entries rb) key has, count_nodes-length rb.root))) in
      (
        t',
        log,
        rw e (rw e'),
        record {
          height = n;
          balanced = b;
          sorted = rw (c', c) (erase-IsSorted rb.keys law (entries rb) key valid.sorted);
        },
        c' ∙ c,
      )
