-- ===== src/Watchdirs/Stop.antt =====
-- `resman_stop_watch` of src/filewatch_win32.c. Its caller frees the resource, so that what it writes
-- into the resource is not looked at.
use libresman.Base.{
  ℕ, zero, suc, ◌+◌, ◌-◌, ◌^◌, Bool, ◌||◌, Option, none, some, List, [], ◌∷◌, ◌++◌, Exec, ok,
  null_deref, if◌then◌else◌, ◌==◌, ltb, set,
}
use libresman.Base.Outcome.{◌>>=◌}
use libresman.Dynarr.{Dynarr, dynarr_size, dynarr_pop}
use libresman.Rbtree.Api.{rb_delete, rb_find}
use libresman.Tpool.{dec32}
use libresman.Resman.{Resource, CString, item_at, write_at}
use libresman.Watchdirs.{WatchDir, Watchdirs, dir_at}

-- The loop that looks for a handle, with those from `i` left: the last one takes its place. The code
-- does not ask where `dynarr_pop` has put the array, which is taken to stay where it was.
unfoldable pub drop_handle : (ℕ → Bool) → Dynarr ℕ → ℕ → ℕ → ℕ → Exec (Dynarr ℕ)
drop_handle mem wait_handles handle i zero = ok wait_handles
drop_handle mem wait_handles handle i (suc left) =
    let rest = drop_handle mem wait_handles handle (i + 1) left in
    do
      h ← item_at wait_handles i
      if h == handle
          then (do
            end ← item_at wait_handles (dynarr_size wait_handles - 1)
            moved ← write_at wait_handles i end
            cleared ← write_at moved (dynarr_size wait_handles - 1) 0
            ok (dynarr_pop mem cleared))
          else rest

-- The loop behind the first item: `wprev` stays at it, so that what stands between it and the item that
-- is found goes as well. `none`: it is not found.
unfoldable pub behind_item : ℕ → List ℕ → Option (List ℕ)
behind_item res [] = none
behind_item res (witem ∷ items) =
    let rest = behind_item res items in if witem == res then some items else rest

-- The removal of an item; `wprev->next` of an empty list is read through a null pointer.
unfoldable pub drop_item : ℕ → List ℕ → Exec (List ℕ)
unfolding behind_item
drop_item res [] = null_deref
drop_item res (wprev ∷ items) =
    if wprev == res
    then ok items
    else elim (behind_item res items) [ some rest ↦ ok (wprev ∷ rest) | none ↦ ok (wprev ∷ items) ]

-- The branch for the last reference to the directory `d`.
unfoldable pub stop_dir : (ℕ → Bool) → WatchDir → ℕ → Watchdirs → Exec Watchdirs
unfolding drop_handle
stop_dir mem wdir d w = do
  wait_handles ← drop_handle mem w.wait_handles wdir.handle 0 (dynarr_size w.wait_handles)
  (wdirbyev, log) ← rb_delete w.wdirbyev wdir.hevent
  (watchdirs, log') ← rb_delete w.watchdirs wdir.watch_path
  ok (record w {
    watchdirs = watchdirs;
    wdirbyev = wdirbyev;
    wait_handles = wait_handles;
    dirs = set w.dirs d none;
    closed = w.closed ++ wdir.handle ∷ wdir.hevent ∷ [];
    freed = w.freed ++ wdir.watch_path.addr ∷ [];
  })

-- The other branch.
unfoldable pub leave_dir : ℕ → WatchDir → ℕ → Watchdirs → Exec Watchdirs
unfolding drop_item
leave_dir i wdir d w = do
  items ← drop_item i wdir.items
  ok (record w {
    dirs = set w.dirs d (some (record wdir { items = items; nref = dec32 wdir.nref }));
  })

-- `--wdir->nref <= 0`
abbrev pub last_ref : WatchDir → Bool
last_ref wdir = (dec32 wdir.nref == 0) || ltb (2 ^ 31 - 1) (dec32 wdir.nref)

-- From the directory that `rb_find` gives on; `none` is null.
unfoldable pub stop_found : (ℕ → Bool) → ℕ → Option ℕ → Watchdirs → Exec Watchdirs
unfolding stop_dir leave_dir
stop_found mem i none w = ok w
stop_found mem i (some d) w = do
  wdir ← dir_at w d
  if last_ref wdir then stop_dir mem wdir d w else leave_dir i wdir d w

-- The same from `res->watch_path` on.
unfoldable pub stop_path : (ℕ → Bool) → ℕ → Option CString → Watchdirs → Exec Watchdirs
unfolding stop_found
stop_path mem i none w = ok w
stop_path mem i (some path) w = stop_found mem i (rb_find w.watchdirs path) w

unfoldable pub stop_watch {ℓ} :
    {D : Type ℓ} → (ℕ → Bool) → ℕ → Resource D → Watchdirs → Exec Watchdirs
unfolding stop_path
stop_watch mem i r w = stop_path mem i r.watch_path w
