-- ===== src/Watchdirs/Tests.antt =====
-- A directory with three watched resources.
use libresman.Base.{ℕ, ◌-◌, ◌≡◌, refl, true, false, some, List, [], ◌∷◌, ok, get_elem?, arith}
use libresman.Base.Int.{ℤ, pos}
use libresman.Rbtree.{leaf, node, find}
use libresman.Rbtree.Api.{rb_find}
use libresman.Resman.{Resource, CString, new_resource}
use libresman.Watchdirs.{WatchDir, Watchdirs, string_keys, abs_path, is_relative, before_slash}
use libresman.Watchdirs.Stop.{stop_watch}
use libresman.Watchdirs.Lost.{stop_watch-lost}

abbrev one_text : List ℕ → List ℕ → ℤ
one_text a b = pos 0

-- "c:\d"
abbrev dir_path : CString
dir_path = record { addr = 1; text = 99 ∷ 58 ∷ 92 ∷ 100 ∷ [] }

abbrev shared_dir : WatchDir
shared_dir = record {
  handle = 7;
  hevent = 8;
  nref = 3;
  watch_path = dir_path;
  items = 2 ∷ 1 ∷ 0 ∷ [];
}

abbrev one_dir : Watchdirs
one_dir = record {
  watchdirs = record {
    root = node false dir_path 0 leaf leaf;
    keys = string_keys one_text;
    del = false;
    rstack = [];
    iter = leaf;
  };
  wdirbyev = record {
    root = node false 8 0 leaf leaf;
    keys = record { cmp = λ a b. pos 0; same = λ a b. true };
    del = false;
    rstack = [];
    iter = leaf;
  };
  wait_handles = record { nelem = 1; szelem = 8; max_elem = 1; bufsz = 8; slots = some 8 ∷ [] };
  dirs = some shared_dir ∷ [];
  next_addr = 4;
  closed = [];
  freed = [];
  answers = [];
}

abbrev oldest : Resource ℕ
oldest = record (new_resource (97 ∷ []) 0) { watch_path = some (record dir_path { addr = 3 }) }

found_dir : rb_find one_dir.watchdirs (record dir_path { addr = 3 }) ≡ some 0
unfolding rb_find find
found_dir = refl

-- The watch of the resource 1 is lost with that of the resource 0.
stop_watch-lost_example :
    (w' : Watchdirs) × (stop_watch (λ size. true) 0 oldest one_dir ≡ ok w')
    × (get_elem? w'.dirs 0 ≡ some (some (record shared_dir { items = 2 ∷ []; nref = 3 - 1 })))
stop_watch-lost_example =
    stop_watch-lost (λ size. true) 0 oldest one_dir (record dir_path { addr = 3 }) 0 shared_dir 2
      (1 ∷ []) [] refl found_dir refl refl (λ e. cc e) ((λ e. cc e), tt) (omega arith) (omega arith)

-- "d/e" in "c:\", and the directory of what comes of it.
relative_path :
    abs_path true (99 ∷ 58 ∷ []) (100 ∷ 47 ∷ 101 ∷ [])
    ≡ ok (some (99 ∷ 58 ∷ 92 ∷ 100 ∷ 47 ∷ 101 ∷ []))
unfolding abs_path is_relative
relative_path = refl

its_directory : before_slash (99 ∷ 58 ∷ 92 ∷ 100 ∷ 92 ∷ 101 ∷ []) ≡ some (99 ∷ 58 ∷ 92 ∷ 100 ∷ [])
unfolding before_slash
its_directory = refl
