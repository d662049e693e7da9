-- ===== src/Watchdirs/Start.antt =====
-- `resman_start_watch` of src/filewatch_win32.c.
use libresman.Base.{
  ℕ, ◌+◌, Bool, true, false, Option, none, some, List, [], ◌∷◌, ◌++◌, Exec, ok, if◌then◌else◌, ◌==◌,
  set, length,
}
use libresman.Base.Outcome.{◌>>=◌}
use libresman.Dynarr.{dynarr_push}
use libresman.Rbtree.Api.{rb_insert, rb_find}
use libresman.Tpool.{inc32}
use libresman.Resman.{Resource, CString}
use libresman.Paths.{clean_path}
use libresman.Watchdirs.{WatchDir, Answers, Watchdirs, dir_at, abs_path, text_of, before_slash}

-- The label `err`, with the directory, if there is one: it is closed, though others may use it. The
-- path is freed.
abbrev pub give_up : Watchdirs → CString → Option WatchDir → Watchdirs
give_up w path none = record w { freed = w.freed ++ path.addr ∷ [] }
give_up w path (some wdir) = record w {
  freed = w.freed ++ path.addr ∷ [];
  closed = w.closed ++ wdir.handle ∷ (if wdir.hevent == 0 then [] else wdir.hevent ∷ []);
}

-- The new directory, once it is read: into the store, the two trees and the array of handles.
unfoldable pub enter_dir : (ℕ → Bool) → WatchDir → Watchdirs → Exec Watchdirs
enter_dir mem wdir w = do
  watchdirs ← rb_insert true w.watchdirs wdir.watch_path (length w.dirs)
  wdirbyev ← rb_insert true w.wdirbyev wdir.hevent (length w.dirs)
  wait_handles ← dynarr_push mem w.wait_handles (some wdir.hevent)
  ok (record w {
    watchdirs = watchdirs;
    wdirbyev = wdirbyev;
    wait_handles = wait_handles;
    dirs = w.dirs ++ some wdir ∷ [];
  })

module _ {ℓ} {D : Type ℓ} (mem : ℕ → Bool) where
  -- From `/* add a new watch item */` on, for the directory `d`.
  unfoldable pub add_item :
      Bool → ℕ → Resource D → CString → ℕ → Watchdirs → Exec (Resource D × Watchdirs)
  add_item false i r path d w = do wdir ← dir_at w d; ok (r, give_up w path (some wdir))
  add_item true i r path d w = do
    wdir ← dir_at w d
    ok (
      record r { watch_path = some path },
      record w { dirs = set w.dirs d (some (record wdir { items = i ∷ wdir.items })) },
    )

  -- The branch for a directory that is not watched yet. What was opened until a failure is closed.
  unfoldable pub start_dir :
      Answers → ℕ → Resource D → CString → Watchdirs → Exec (Resource D × Watchdirs)
  unfolding add_item enter_dir
  start_dir a i r path w =
      if a.dir_alloc
      then elim a.opened [
        | none ↦ ok (r, give_up w path none)
        | some handle ↦
            let wdir : WatchDir = record {
              handle = handle;
              hevent = a.event;
              nref = 1;
              watch_path = path;
              items = [];
            } in
            if a.buf_alloc
            then (if a.reading
                then (do
                  w' ← enter_dir mem wdir w
                  add_item a.item_alloc i r path (length w.dirs) w')
                else ok (r, give_up w path (some wdir)))
            else ok (r, record (give_up w path none) { closed = w.closed ++ handle ∷ [] })
      ]
      else ok (r, give_up w path none)

  -- The branch for one that is: it is counted once more.
  unfoldable pub join_dir :
      Answers → ℕ → Resource D → CString → ℕ → Watchdirs → Exec (Resource D × Watchdirs)
  unfolding add_item
  join_dir a i r path d w = do
    wdir ← dir_at w d
    add_item a.item_alloc i r path d
        (record w { dirs = set w.dirs d (some (record wdir { nref = inc32 wdir.nref })) })

  -- What follows the path, with its directory, if it has one.
  unfoldable pub watch_dir_of :
      Answers → ℕ → Resource D → Option (List ℕ) → Watchdirs → Exec (Resource D × Watchdirs)
  unfolding start_dir join_dir
  watch_dir_of a i r none w =
      ok (r, record w { freed = w.freed ++ w.next_addr ∷ []; next_addr = w.next_addr + 1 })
  watch_dir_of a i r (some dir) w =
      let path : CString = record { addr = w.next_addr; text = dir } in
      let w1 : Watchdirs = record w { next_addr = w.next_addr + 1 } in
      elim (rb_find w.watchdirs path) [
        | some d ↦ join_dir a i r path d w1
        | none ↦ start_dir a i r path w1
      ]

  -- The whole call. When the system has no more to say, it grants no memory.
  unfoldable pub start_watch : ℕ → Resource D → Watchdirs → Exec (Resource D × Watchdirs)
  unfolding watch_dir_of
  start_watch i r w = elim w.answers [
    | [] ↦ ok (r, w)
    | a ∷ answers ↦ do
      full ← abs_path a.path_alloc a.cwd r.name
      elim full [
        | none ↦ ok (r, record w { answers = answers })
        | some p ↦ do
          cleaned ← clean_path (p ++ 0 ∷ [])
          watch_dir_of a i r (before_slash (text_of cleaned)) (record w { answers = answers })
      ]
  ]
