-- ===== src/Watchdirs.antt =====
-- The file watch of src/filewatch_win32.c: one watch for each directory, which counts and lists the
-- resources in it. A resource is the number of its slot, a directory the number of its `watch_dir` in
-- the store `dirs`, where one that was freed is `none`. Handles and events are numbers.
pub mod Stop
pub mod Start
pub mod Events
pub mod Lost
mod Tests
use libresman.Base.{
  ℕ, zero, suc, ◌+◌, Bool, true, false, ◌&&◌, Option, none, some, List, [], ◌∷◌, ◌++◌, Exec, ok,
  null_deref, out_of_bounds, if◌then◌else◌, ◌==◌, get_elem?, set, length,
}
use libresman.Base.Int.{ℤ}
use libresman.Base.Outcome.{◌>>=◌}
use libresman.Dynarr.{Dynarr}
use libresman.Rbtree.{Keys}
use libresman.Rbtree.Api.{Rbtree}
use libresman.Resman.{CString}
use libresman.Paths.{byte_at, slash, backslash}

-- `struct watch_dir`; the items are the resources, the newest first.
pub record WatchDir : Type 0 where
  pub handle : ℕ
  pub hevent : ℕ
  pub nref : ℕ
  pub watch_path : CString
  pub items : List ℕ

-- What the system answers in one call of `resman_start_watch`: whether memory is granted for the path,
-- the directory, its buffer and the item, the current directory, the results of `CreateFile` and
-- `CreateEvent`, and whether `ReadDirectoryChangesW` succeeds.
pub record Answers : Type 0 where
  pub path_alloc : Bool
  pub cwd : List ℕ
  pub dir_alloc : Bool
  pub opened : Option ℕ
  pub buf_alloc : Bool
  pub event : ℕ
  pub reading : Bool
  pub item_alloc : Bool

-- What `struct resman` has for the watch, the addresses given out so far, the handles that were closed,
-- and the addresses of the strings that were freed.
pub record Watchdirs : Type 0 where
  pub watchdirs : Rbtree CString ℕ
  pub wdirbyev : Rbtree ℕ ℕ
  pub wait_handles : Dynarr ℕ
  pub dirs : List (Option WatchDir)
  pub next_addr : ℕ
  pub closed : List ℕ
  pub freed : List ℕ
  pub answers : List Answers

-- The keys of `RB_KEY_STRING`; `strcmp` is the C library's.
abbrev pub string_keys : (List ℕ → List ℕ → ℤ) → Keys CString
string_keys strcmp = record { cmp = λ a b. strcmp a.text b.text; same = λ a b. a.addr == b.addr }

-- `wdir->`, for the directory `d`.
abbrev pub live : Option (Option WatchDir) → Exec WatchDir
live (some (some wdir)) = ok wdir
live (some none) = out_of_bounds
live none = out_of_bounds

abbrev pub dir_at : Watchdirs → ℕ → Exec WatchDir
dir_at w d = live (get_elem? w.dirs d)

-- The byte ':'.
abbrev pub colon : ℕ
colon = 58

-- `fname[0] != '/' && fname[1] != ':'`
unfoldable pub is_relative : List ℕ → Exec Bool
is_relative fname = do
  c0 ← byte_at (fname ++ 0 ∷ []) 0
  if c0 == slash
      then ok false
      else (do c1 ← byte_at (fname ++ 0 ∷ []) 1; ok (if c1 == colon then false else true))

-- `abs_path`; `none` is null.
unfoldable pub abs_path : Bool → List ℕ → List ℕ → Exec (Option (List ℕ))
unfolding is_relative
abs_path alloc cwd fname = do
  relative ← is_relative fname
  ok (if alloc then some (if relative then cwd ++ backslash ∷ fname else fname) else none)

-- The text in a buffer.
abbrev pub text_of : List ℕ → List ℕ
text_of [] = []
text_of (c ∷ cs) = let rest = text_of cs in if c == 0 then [] else c ∷ rest

-- The text before the last backslash; `none` if there is none.
unfoldable pub before_slash : List ℕ → Option (List ℕ)
before_slash [] = none
before_slash (c ∷ cs) = elim (before_slash cs) [
  | some dir ↦ some (c ∷ dir)
  | none ↦ if c == backslash then some [] else none
]
