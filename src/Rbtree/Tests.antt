-- ===== src/Rbtree/Tests.antt =====
-- Runs of the model of src/rbtree.c, and its theorems at concrete trees.
use Prim.Native.Nat.{compare}
use Prim.Native.Nat.Ordering.{lt}
use libresman.Base.{
  ℕ, suc, ◌+◌, ◌-◌, ◌*◌, ◌^◌, ◌≤◌, ◌≡◌, refl, true, false, none, some, List, [], ◌∷◌, ok,
  null_deref, arith, if◌then◌else◌,
}
use libresman.Base.Int.{sign}
use libresman.Rbtree.{leaf, node, Event, deleted, freed, traverse, del_tree}
use libresman.Rbtree.Balance.{nil, black}
use libresman.Rbtree.Height.{height, insert_all, height-insert_all}
use libresman.Rbtree.Keying.{
  cmpaddr, cmpint, int2ptr, ptr2int, addr_keys, cmpaddr-IsLawful, sign-cmpint, sign-cmpint_wraps,
  ptr2int-int2ptr,
}
use libresman.Rbtree.Api.{
  Rbtree, rb_size, rb_insert, rb_delete, rb_find, rb_copy, rb_begin, rb_foreach,
}
use libresman.Rbtree.Api.Contract.{IsValid}
use libresman.Rbtree.Api.Iterate.{always, visits, visits-rb_begin}
use libresman.Rbtree.Api.Absent.{rb_delete-absent, rb_delete-last}
use libresman.Rbtree.Api.Finite.{rb_find-rb_insert, rb_find-rb_delete, rb_find-rb_copy}

abbrev three : Rbtree ℕ ℕ
three = record {
  root = node false 20 2 (node false 10 1 leaf leaf) (node false 30 3 leaf leaf);
  keys = addr_keys;
  del = true;
  rstack = [];
  iter = leaf;
}

abbrev one : Rbtree ℕ ℕ
one = record three { root = node false 20 2 leaf leaf }

three-IsValid : IsValid three
unfolding traverse cmpaddr
three-IsValid = record {
  height = 2;
  balanced = black (black nil nil) (black nil nil);
  sorted = ground arith;
}

one-IsValid : IsValid one
unfolding traverse cmpaddr
one-IsValid = record { height = 1; balanced = black nil nil; sorted = ground arith }

-- Four insertions in ascending order: the third splits a node with four children.
ascending : rb_foreach three ≡ (10, 1) ∷ (20, 2) ∷ (30, 3) ∷ []
unfolding rb_foreach
ascending = refl

rb_find-rb_insert_example :
    (rb' : Rbtree ℕ ℕ) × (rb_insert true three 25 7 ≡ ok rb')
    × IsValid rb'
    × ((j : ℕ) → rb_find rb' j ≡ (if addr_keys.same j 25 then some 7 else rb_find three j))
rb_find-rb_insert_example = rb_find-rb_insert three cmpaddr-IsLawful three-IsValid 25 7

rb_find-rb_delete_example :
    (rb' : Rbtree ℕ ℕ) × (log : List (Event ℕ ℕ)) × (rb_delete three 20 ≡ ok (rb', log))
    × IsValid rb'
    × (rb_size rb' + 1 ≡ rb_size three)
    × ((j : ℕ) → rb_find rb' j ≡ (if addr_keys.same j 20 then none else rb_find three j))
unfolding rb_find rb_size cmpaddr
rb_find-rb_delete_example =
    rb_find-rb_delete three cmpaddr-IsLawful three-IsValid 20 2 refl (omega arith)

rb_find-rb_copy_example :
    (dest' src' : Rbtree ℕ ℕ) × (rb_copy always one three
      ≡ ok (dest', src', del_tree true one.root))
    × IsValid dest'
    × ((j : ℕ) → rb_find dest' j ≡ rb_find three j)
rb_find-rb_copy_example = rb_find-rb_copy one three cmpaddr-IsLawful three-IsValid refl

visits-rb_begin_example : visits (suc (rb_size three)) (rb_begin three) ≡ rb_foreach three
visits-rb_begin_example = visits-rb_begin three

-- Eight more entries in ascending order.
abbrev eight : List (ℕ × ℕ)
eight = (40, 4) ∷ (50, 5) ∷ (60, 6) ∷ (70, 7) ∷ (80, 8) ∷ (90, 9) ∷ (100, 10) ∷ (110, 11) ∷ []

height-insert_all_example :
    (rb' : Rbtree ℕ ℕ) × (insert_all three eight ≡ ok rb')
    × (2 ^ height rb'.root ≤ (rb_size rb' + 1) * (rb_size rb' + 1))
height-insert_all_example = height-insert_all eight three cmpaddr-IsLawful three-IsValid

rb_delete-absent_example : rb_delete three 25 ≡ null_deref
unfolding traverse
rb_delete-absent_example = rb_delete-absent three cmpaddr-IsLawful 25 refl

rb_delete-last_example : rb_delete one 20 ≡ null_deref
unfolding traverse rb_size
rb_delete-last_example = rb_delete-last one cmpaddr-IsLawful 20 one-IsValid refl refl

near_keys : sign (cmpint (int2ptr 3) (int2ptr 12)) ≡ compare 3 12
near_keys = sign-cmpint 3 12 (omega arith) (omega arith)

-- INT_MAX and -1.
far_keys : sign (cmpint (int2ptr (2 ^ 31 - 1)) (int2ptr (2 ^ 32 - 1))) ≡ lt
far_keys = sign-cmpint_wraps (2 ^ 31 - 1) 1 (omega arith) (omega arith) (omega arith) (omega arith)

stored_int : ptr2int (int2ptr (2 ^ 32 - 5)) ≡ 2 ^ 32 - 5
stored_int = ptr2int-int2ptr (2 ^ 32 - 5) (omega arith)

delete_runs :
    rb_delete three 20
    ≡ ok (
      record three { root = node false 30 3 (node true 10 1 leaf leaf) leaf },
      deleted none ∷ freed none ∷ [],
    )
unfolding rb_delete cmpaddr
delete_runs = refl
