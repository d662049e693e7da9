-- ===== src/Rbtree/Api/Finite.antt =====
-- The tree of src/rbtree.c as a finite map: what `rb_find` gives after each call.
use libresman.Base.{
  ◌+◌, ◌≤◌, ◌≡◌, sym, ap, ◌∙◌, true, none, some, List, ok, length, arith, if◌then◌else◌,
}
use libresman.Rbtree.{Event, del_tree}
use libresman.Rbtree.Entries.{IsLawful, lookup}
use libresman.Rbtree.Entries.Finite.{lookup-put, lookup-erase, length-erase, has-lookup}
use libresman.Rbtree.Api.{Rbtree, rb_size, rb_insert, rb_delete, rb_find, rb_copy}
use libresman.Rbtree.Api.Contract.{
  IsValid, entries, count_nodes-length, rb_find-eq-lookup, rb_insert-entries, rb_delete-entries,
}
use libresman.Rbtree.Api.Iterate.{always, rb_copy-entries}

module _ {ℓ κ} {K : Type ℓ} {D : Type κ} where
  -- On a valid tree with a lawful comparison (a total order in which equal keys are the same pointer) and
  -- with memory, `rb_insert` ends in a valid tree in which `rb_find` gives the new data for the key
  -- and what it gave before for every other key.
  pub rb_find-rb_insert :
      (rb : Rbtree K D)
      → IsLawful rb.keys
      → IsValid rb
      → (key : K) (d : D)
      → (rb' : Rbtree K D) × (rb_insert true rb key d ≡ ok rb')
        × IsValid rb'
        × ((j : K) → rb_find rb' j ≡ (if rb.keys.same j key then some d else rb_find rb j))
  rb_find-rb_insert rb law valid key d =
      let (t, e, valid', c) = rb_insert-entries rb law valid key d in
      let rb' : Rbtree K D = record rb { root = t } in
      (
        rb',
        e,
        valid',
        λ j.
            rb_find-eq-lookup rb' law valid' j
            ∙ ap (lookup rb.keys j) c
            ∙ lookup-put rb.keys law (entries rb) key j d
            ∙ ap (λ m. if rb.keys.same j key then some d else m)
                (sym (rb_find-eq-lookup rb law valid j)),
      )

  -- On a valid tree with two entries or more and with a lawful comparison (a total order in which equal
  -- keys are the same pointer), `rb_delete` of a key that `rb_find` finds ends in a
  -- valid tree that is one entry smaller, in which `rb_find` finds nothing for the key and what it
  -- found before for every other key.
  pub rb_find-rb_delete :
      (rb : Rbtree K D)
      → IsLawful rb.keys
      → IsValid rb
      → (key : K) (d : D) → rb_find rb key ≡ some d
      → 2 ≤ rb_size rb
      → (rb' : Rbtree K D) × (log : List (Event K D)) × (rb_delete rb key ≡ ok (rb', log))
        × IsValid rb'
        × (rb_size rb' + 1 ≡ rb_size rb)
        × ((j : K) → rb_find rb' j ≡ (if rb.keys.same j key then none else rb_find rb j))
  unfolding rb_size
  rb_find-rb_delete rb law valid key d found two =
      let here =
        has-lookup rb.keys law (entries rb) key d
          (sym (rb_find-eq-lookup rb law valid key) ∙ found) in
      let (t, log, e, valid', c) = rb_delete-entries rb law valid key here two in
      let rb' : Rbtree K D = record rb { root = t } in
      (
        rb',
        log,
        e,
        valid',
        omega (
          arith,
          count_nodes-length t,
          count_nodes-length rb.root,
          ap length c,
          length-erase rb.keys law (entries rb) key here,
        ),
        λ j.
            rb_find-eq-lookup rb' law valid' j
            ∙ ap (lookup rb.keys j) c
            ∙ lookup-erase rb.keys law (entries rb) key j valid.sorted
            ∙ ap (λ m. if rb.keys.same j key then none else m)
                (sym (rb_find-eq-lookup rb law valid j)),
      )

  -- With memory, `rb_copy` of a valid tree into any tree with the same comparison, which is lawful (a
  -- total order in which equal keys are the same pointer), ends in a valid tree in which `rb_find`
  -- gives what it gives in the source.
  pub rb_find-rb_copy :
      (dest src : Rbtree K D)
      → IsLawful src.keys
      → IsValid src
      → dest.keys ≡ src.keys
      → (dest' src' : Rbtree K D) × (rb_copy always dest src
          ≡ ok (dest', src', del_tree dest.del dest.root))
        × IsValid dest'
        × ((j : K) → rb_find dest' j ≡ rb_find src j)
  rb_find-rb_copy dest src law valid same =
      let law' : IsLawful dest.keys = rw same law in
      let (t, src', e, valid', c) = rb_copy-entries dest src law' (rw same valid.sorted) in
      let dest' : Rbtree K D = record dest { root = t } in
      (
        dest',
        src',
        e,
        valid',
        λ j.
            rb_find-eq-lookup dest' law' valid' j
            ∙ ap (lookup dest.keys j) c
            ∙ rw same (sym (rb_find-eq-lookup src law valid j)),
      )
