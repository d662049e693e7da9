-- ===== src/Watchdirs/Events.antt =====
-- `handle_event` and `resman_check_watch` of src/filewatch_win32.c.
use libresman.Base.{
  ℕ, Bool, true, false, ◌&&◌, ◌||◌, Option, none, some, List, [], ◌∷◌, Exec, ok, if◌then◌else◌,
  ◌==◌, ltb,
}
use libresman.Base.Outcome.{◌>>=◌}
use libresman.Dynarr.{dynarr_size}
use libresman.Rbtree.Api.{rb_find}
use libresman.Resman.{Resman, deref, item_at, resman_reload}
use libresman.Watchdirs.{WatchDir, Watchdirs, dir_at}

-- `FILE_NOTIFY_INFORMATION`: whether the action is `FILE_ACTION_MODIFIED`, and the name in bytes.
pub record Notice : Type 0 where
  pub modified : Bool
  pub name : List ℕ

-- `strstr(text, name)`
abbrev pub starts_with : List ℕ → List ℕ → Bool
starts_with name [] = elim name [ [] ↦ true | _ ∷ _ ↦ false ]
starts_with [] (c ∷ cs) = true
starts_with (n ∷ ns) (c ∷ cs) = (n == c) && starts_with ns cs

abbrev pub contains : List ℕ → List ℕ → Bool
contains name [] = starts_with name []
contains name (c ∷ cs) = starts_with name (c ∷ cs) || contains name cs

module _ {ℓ} {D : Type ℓ} where
  -- The search for the resource of an item whose name contains `name`; where none is found, `res` is
  -- left as it was.
  unfoldable pub find_item : Resman D → List ℕ → List ℕ → Option ℕ → Exec (Option ℕ)
  find_item rman name [] res = ok res
  find_item rman name (witem ∷ items) res =
      let rest = find_item rman name items res in
      do
        slot ← item_at rman.res witem
        r ← deref slot
        if contains name r.name then ok (some witem) else rest

  -- The loop over the entries. `res` is what an earlier entry has found, and is not reset.
  unfoldable pub handle_entries : WatchDir → List Notice → Option ℕ → Resman D → Exec (Resman D)
  unfolding find_item
  handle_entries wdir [] res rman = ok rman
  handle_entries wdir (info ∷ entries) res rman =
      if info.modified
      then (do
        res' ← find_item rman info.name wdir.items res
        rman' ← elim res' [ none ↦ ok rman | some i ↦ resman_reload rman i ]
        handle_entries wdir entries res' rman')
      else handle_entries wdir entries res rman

  -- `entries` are the buffer's, if `GetOverlappedResult` succeeds.
  unfoldable pub handle_event : WatchDir → Option (List Notice) → Resman D → Exec (Resman D)
  unfolding handle_entries
  handle_event wdir none rman = ok rman
  handle_event wdir (some entries) rman = handle_entries wdir entries none rman

  -- `idx` is the index that `WaitForMultipleObjectsEx` gives, counted from `WAIT_OBJECT_0`; `none` is
  -- any other result.
  unfoldable pub check_watch :
      Option ℕ → Option (List Notice) → Resman D → Watchdirs → Exec (Resman D × Watchdirs)
  unfolding handle_event
  check_watch none entries rman w = ok (rman, w)
  check_watch (some idx) entries rman w =
      if ltb idx (dynarr_size w.wait_handles)
      then (do
        hev ← item_at w.wait_handles idx
        elim (rb_find w.wdirbyev hev) [
          | none ↦ ok (rman, w)
          | some d ↦ do wdir ← dir_at w d; rman' ← handle_event wdir entries rman; ok (rman', w)
        ])
      else ok (rman, w)
