-- ===== src/Rbtree/Keying.antt =====
-- The comparisons of src/rbtree.c, the choice that `rb_init` makes among them, and integer keys.
-- A pointer is a number; an `int` is its bit pattern, below 2 ^ 32.
use Prim.Native.Nat.{compare}
use Prim.Native.Nat.Ordering.{lt}
use libresman.Base.{
  ℕ, ◌+◌, ◌-◌, ◌%◌, ◌^◌, ◌≤◌, ◌<◌, ◌≡◌, Bool, false, Option, none, some, List, [], Exec, arith, ltb,
  ◌==◌, if◌then◌else◌,
}
use libresman.Base.Int.{ℤ, pos, negsuc, sign}
use libresman.Rbtree.{Tree, leaf, node, Keys, Event}
use libresman.Rbtree.Entries.{IsLawful}
use libresman.Rbtree.Api.{Rbtree, rb_insert, rb_delete, rb_find}

-- `cmpaddr`
unfoldable pub cmpaddr : ℕ → ℕ → ℤ
cmpaddr ap bp = if ltb ap bp then negsuc 0 else if ltb bp ap then pos 1 else pos 0

-- `INT2PTR`: the sign fills the upper half of the pointer. `PTR2INT` takes the lower half.
unfoldable pub int2ptr : ℕ → ℕ
int2ptr x = if ltb x (2 ^ 31) then x else x + (2 ^ 64 - 2 ^ 32)

unfoldable pub ptr2int : ℕ → ℕ
ptr2int p = p % 2 ^ 32

-- The number that the pattern of an `int` stands for.
abbrev pub signed : ℕ → ℤ
signed w = if ltb w (2 ^ 31) then pos w else negsuc (2 ^ 32 - w - 1)

-- `cmpint`: the difference wraps around.
unfoldable pub cmpint : ℕ → ℕ → ℤ
unfolding ptr2int
cmpint ap bp = signed ((ptr2int ap + 2 ^ 32 - ptr2int bp) % 2 ^ 32)

-- The argument of `rb_create` and `rb_init`.
pub data CmpFunc : Type 0 where
  key_addr : CmpFunc
  key_int : CmpFunc
  key_string : CmpFunc
  custom : (ℕ → ℕ → ℤ) → CmpFunc

-- The comparison that `rb_init` stores; `strcmp` is the C library's, on the pointers' texts.
unfoldable pub init_cmp : (ℕ → ℕ → ℤ) → CmpFunc → ℕ → ℕ → ℤ
init_cmp strcmp key_int = cmpint
init_cmp strcmp key_string = strcmp
init_cmp strcmp _ = cmpaddr

abbrev pub ptr_eq : ℕ → ℕ → Bool
ptr_eq a b = a == b

unfoldable pub rb_init {κ} : {D : Type κ} → (ℕ → ℕ → ℤ) → CmpFunc → Rbtree ℕ D
unfolding init_cmp
rb_init strcmp f = record {
  root = leaf;
  keys = record { cmp = init_cmp strcmp f; same = ptr_eq };
  del = false;
  rstack = [];
  iter = leaf;
}

-- `rb_create`; `none` is null.
unfoldable pub rb_create {κ} : {D : Type κ} → Bool → (ℕ → ℕ → ℤ) → CmpFunc → Option (Rbtree ℕ D)
unfolding rb_init
rb_create alloc strcmp f = if alloc then some (rb_init strcmp f) else none

module _ {κ} {D : Type κ} where
  -- `rb_node_keyi`, of a null pointer too.
  unfoldable pub rb_node_keyi : Tree ℕ D → ℕ
  unfolding ptr2int
  rb_node_keyi leaf = 0
  rb_node_keyi (node c key d l r) = ptr2int key

  unfoldable pub rb_inserti : Bool → Rbtree ℕ D → ℕ → D → Exec (Rbtree ℕ D)
  unfolding rb_insert int2ptr
  rb_inserti alloc rb key d = rb_insert alloc rb (int2ptr key) d

  unfoldable pub rb_deletei : Rbtree ℕ D → ℕ → Exec (Rbtree ℕ D × List (Event ℕ D))
  unfolding rb_delete int2ptr
  rb_deletei rb key = rb_delete rb (int2ptr key)

  unfoldable pub rb_findi : Rbtree ℕ D → ℕ → Option D
  unfolding rb_find int2ptr
  rb_findi rb key = rb_find rb (int2ptr key)

abbrev pub addr_keys : Keys ℕ
addr_keys = record { cmp = cmpaddr; same = ptr_eq }

-- `cmpaddr` is a lawful comparison: a strict total order of the addresses, in which exactly equal
-- pointers compare as equal.
pub cmpaddr-IsLawful : IsLawful addr_keys
unfolding cmpaddr
cmpaddr-IsLawful = record {
  cmp_refl = λ a. ground arith;
  eq_of_cmp = λ a b. ground arith;
  lt_of_gt = λ a b. ground arith;
  gt_of_lt = λ a b. ground arith;
  lt_trans = λ a b c. ground arith;
  same_iff = λ a b. ground arith;
}

-- `cmpint` compares keys that are not negative, as watch descriptors are, as the numbers that they
-- are.
pub sign-cmpint :
    (a b : ℕ) → a < 2 ^ 31 → b < 2 ^ 31 → sign (cmpint (int2ptr a) (int2ptr b)) ≡ compare a b
unfolding cmpint int2ptr
sign-cmpint a b ha hb = ground arith

-- `cmpint` takes a key `a` that is not negative for smaller than the negative key `-m` whenever their
-- difference `a + m` does not fit an `int`.
pub sign-cmpint_wraps :
    (a m : ℕ)
    → a < 2 ^ 31
    → 1 ≤ m
    → m ≤ 2 ^ 31
    → 2 ^ 31 ≤ a + m
    → sign (cmpint (int2ptr a) (int2ptr (2 ^ 32 - m))) ≡ lt
unfolding cmpint int2ptr
sign-cmpint_wraps a m ha hm hm' h = ground arith

-- An `int` that is stored as a pointer by `INT2PTR` is read back by `PTR2INT`.
pub ptr2int-int2ptr : (x : ℕ) → x < 2 ^ 32 → ptr2int (int2ptr x) ≡ x
unfolding ptr2int int2ptr
ptr2int-int2ptr x h = ground arith
