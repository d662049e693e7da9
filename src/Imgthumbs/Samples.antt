-- ===== src/Imgthumbs/Samples.antt =====
-- Concrete inputs for the tests of the example program. The numbers are thousandths.
use libresman.Base.{
  ℕ, ◌+◌, ◌-◌, ◌*◌, ◌/◌, refl, true, Option, none, some, List, [], ltb, leb, arith,
}
use libresman.Dynarr.{Dynarr}
use libresman.Dynarr.Stack.{Holds}
use libresman.Resman.{Resource}
use libresman.Imgthumbs.{Floats, Image, Store}
use libresman.Imgthumbs.Thumbs.{Texman}
use libresman.Imgthumbs.Create.{Entry}
use libresman.Imgthumbs.Steady.{Starts}

abbrev pub thousandths : Floats
thousandths = record {
  Float = ℕ;
  Double = ℕ;
  of_int = λ x. x * 1000;
  double_of_int = λ x. x * 1000;
  lit = λ a b. a * 1000 / b;
  widen = λ x. x;
  narrow = λ x. x;
  add = λ a b. a + b;
  div = λ a b. a * 1000 / b;
  le = leb;
  lt = ltb;
  double_sub = λ a b. a - b;
  double_mul = λ a b. a * b / 1000;
  double_div = λ a b. a * 1000 / b;
  double_le = leb;
}

pub constants : Starts thousandths
constants = record { one = refl; quarter = refl }

-- An entry of a directory for which there is memory.
abbrev pub entry : List ℕ → ℕ → Option Image → Entry
entry d_name block image = record {
  d_name = d_name;
  block = some block;
  name_alloc = true;
  res_alloc = true;
  mem = λ size. true;
  image = image;
  texture = 5;
}

abbrev pub picture : Image
picture = record { width = 4; height = 3 }

abbrev pub no_table : Dynarr (Option (Resource (Option ℕ)))
no_table = record { nelem = 0; szelem = 8; max_elem = 0; bufsz = 0; slots = [] }

pub no_table-Holds : Holds no_table []
no_table-Holds = record {
  counted = refl;
  rest = [];
  stored = refl;
  sized = refl;
  item_pos = omega arith;
  fits = omega arith;
  bytes = refl;
  dense = omega arith;
}

abbrev pub new_texman : Texman
new_texman = record { res = no_table; tasks = 0; jobs = []; destroy_func = true; destroyed = [] }

abbrev pub empty_store : Store ℕ
empty_store = record { cell = λ n. none; names = 0; deleted = []; depth = 1 }
