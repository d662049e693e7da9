-- ===== src/Resman/Inotify.antt =====
-- The file watch of src/filewatch_linux.c. A watch descriptor is the bit pattern of an `int`. The kernel
-- is what the calls answer: `added` for `inotify_add_watch`, `reads` for `read`. Memory is granted.
use libresman.Base.{
  ℕ, zero, suc, ◌+◌, ◌-◌, ◌*◌, ◌%◌, ◌^◌, Bool, true, false, Option, none, some, List, [], ◌∷◌, ◌++◌,
  Exec, ok, out_of_bounds, aborted, no_fuel, if◌then◌else◌, ltb, leb, ◌==◌,
}
use libresman.Base.Int.{ℤ}
use libresman.Base.Outcome.{◌>>=◌}
use libresman.Dynarr.{Dynarr, dynarr_push}
use libresman.Tpool.{gt32}
use libresman.Rbtree.{Event}
use libresman.Rbtree.Api.{Rbtree, rb_foreach, rb_clear, rb_free}
use libresman.Rbtree.Keying.{rb_inserti, rb_deletei, rb_findi, rb_init, ptr2int, key_int}
use libresman.Resman.{Resource, Resman, deref, item_at, write_at, resman_reload}

-- `struct inotify_event`, with the bits of its mask that the code asks for.
pub record InotifyEvent : Type 0 where
  pub wd : ℕ
  pub in_modify : Bool
  pub in_close_write : Bool
  pub in_ignored : Bool
  pub len : ℕ

-- What a call of `read` leaves in the buffer: its result, and the event that stands at each offset.
pub record Chunk : Type 0 where
  pub sz : ℕ
  pub event_at : ℕ → InotifyEvent

-- What `struct resman` has for the watch; a resource is the number of its slot. `rm_calls` are the
-- calls of `inotify_rm_watch`, and `msec` is the time.
pub record Inotify : Type 0 where
  pub nresmap : Rbtree ℕ ℕ
  pub modset : Rbtree ℕ (Unit {0})
  pub added : List (Option ℕ)
  pub reads : List Chunk
  pub rm_calls : List ℕ
  pub msec : ℕ

-- `resman_init_file_monitor` behind `inotify_init`, whose result is `fd`.
unfoldable pub init_file_monitor :
    (ℕ → Bool)
    → (ℕ → ℕ → ℤ)
    → List (Option ℕ)
    → List Chunk
    → ℕ
    → Option ℕ
    → Dynarr ℕ
    → Exec (Option (Dynarr ℕ × Inotify))
init_file_monitor mem strcmp added reads msec none wait_fds = ok none
init_file_monitor mem strcmp added reads msec (some fd) wait_fds = do
  wait_fds' ← dynarr_push mem wait_fds (some fd)
  ok (
      some (
        wait_fds',
        record {
          nresmap = rb_init strcmp key_int;
          modset = rb_init strcmp key_int;
          added = added;
          reads = reads;
          rm_calls = [];
          msec = msec;
        },
      ))

-- `resman_destroy_file_monitor`: the calls of the trees' callbacks.
unfoldable pub destroy_file_monitor : Inotify → List (Event ℕ ℕ) × List (Event ℕ (Unit {0}))
destroy_file_monitor w = (rb_free w.nresmap, rb_free w.modset)

-- `inotify_add_watch`; -1 where the kernel has no more to say.
abbrev pub add_watch : Inotify → Option ℕ × Inotify
add_watch w = elim w.added [ [] ↦ (none, w) | fd ∷ added ↦ (fd, record w { added = added }) ]

module _ {ℓ} {D : Type ℓ} where
  -- `resman_start_watch` behind `inotify_add_watch`, whose result is the first argument.
  unfoldable pub watch_file :
      Option ℕ → ℕ → Resource D → Inotify → Exec (Bool × Resource D × Inotify)
  watch_file none i r w = ok (false, r, w)
  watch_file (some fd) i r w = do
    nresmap ← rb_inserti true w.nresmap fd i
    ok (true, record r { nfd = fd }, record w { nresmap = nresmap })

  -- `resman_start_watch`, and whether it succeeds.
  unfoldable pub start_watch : ℕ → Resource D → Inotify → Exec (Bool × Resource D × Inotify)
  unfolding watch_file
  start_watch i r w =
      if ltb 0 r.nfd then ok (true, r, w) else watch_file (add_watch w).0 i r (add_watch w).1

  -- `resman_stop_watch`
  unfoldable pub stop_watch : ℕ → Resource D → Inotify → Exec Inotify
  stop_watch i r w =
      if ltb 0 r.nfd
      then (do
        (nresmap, log) ← rb_deletei w.nresmap r.nfd
        ok (record w { nresmap = nresmap; rm_calls = w.rm_calls ++ r.nfd ∷ [] }))
      else ok w

  -- A change of the resource that is watched by a descriptor, if there is one.
  abbrev pub on_watched :
      Resman D
      → Inotify
      → ℕ
      → (ℕ → Resource D → Exec (Resource D × Inotify))
      → Exec (Resman D × Inotify)
  on_watched rman w wd change = elim (rb_findi w.nresmap wd) [
    | none ↦ ok (rman, w)
    | some i ↦ do
      slot ← item_at rman.res i
      r ← deref slot
      (r', w') ← change i r
      res' ← write_at rman.res i (some r')
      ok (record rman { res = res' }, w')
  ]

  -- The three tests of the loop in `resman_check_watch`.
  unfoldable pub on_modify : Resman D → Inotify → InotifyEvent → Exec (Resman D × Inotify)
  on_modify rman w ev =
      if ev.in_modify
      then on_watched rman w ev.wd
          (λ i r. ok (record r { reload_timeout = (w.msec + 128) % 2 ^ 64 }, w))
      else ok (rman, w)

  unfoldable pub on_close_write : Resman D → Inotify → InotifyEvent → Exec (Resman D × Inotify)
  on_close_write rman w ev =
      if ev.in_close_write
      then on_watched rman w ev.wd (λ i r. (do
        modset ← rb_inserti true w.modset ev.wd tt
        ok (record r { reload_timeout = 0 }, record w { modset = modset })))
      else ok (rman, w)

  -- The end of the last one: the watch was started again, or it is dropped.
  unfoldable pub restarted : Bool → ℕ → ℕ → Resource D → Inotify → Exec (Resource D × Inotify)
  restarted true prev_wfd i r w = do
    modset ← rb_inserti true w.modset r.nfd tt
    ok (r, record w { modset = modset })
  restarted false prev_wfd i r w = do
    w' ← stop_watch i (record r { nfd = prev_wfd }) w
    ok (record r { nfd = prev_wfd }, w')

  unfoldable pub on_ignored : Resman D → Inotify → InotifyEvent → Exec (Resman D × Inotify)
  on_ignored rman w ev =
      if ev.in_ignored
      then on_watched rman w ev.wd (λ i r. (do
        (started, r', w') ← start_watch i (record r { nfd = 0 }) w
        restarted started r.nfd i r' w'))
      else ok (rman, w)

  unfoldable pub handle_event : Resman D → Inotify → InotifyEvent → Exec (Resman D × Inotify)
  handle_event rman w ev = do
    (rman1, w1) ← on_modify rman w ev
    (rman2, w2) ← on_close_write rman1 w1 ev
    on_ignored rman2 w2 ev

  -- The inner loop, at the offset `off` of the buffer of 512 bytes with `sz` bytes to go. The pointer
  -- `ev` goes on by `evsize` events of sixteen bytes.
  unfoldable pub event_loop :
      ℕ → (ℕ → InotifyEvent) → ℕ → ℕ → Resman D → Inotify → Exec (Resman D × Inotify)
  event_loop zero event_at off sz rman w = no_fuel
  event_loop (suc fuel) event_at off sz rman w =
      let ev = event_at off in
      let evsize = (16 + ev.len) % 2 ^ 32 in
      if gt32 sz 0
      then (if leb (off + 16) 512
          then (do
            (rman', w') ← handle_event rman w ev
            event_loop fuel event_at (off + 16 * evsize) ((sz + 2 ^ 32 - evsize) % 2 ^ 32) rman' w')
          else out_of_bounds)
      else ok (rman, w)

  -- The outer loop. Each turn of the inner one goes on by sixteen bytes or more, unless `evsize` is 0.
  unfoldable pub read_loop : List Chunk → Resman D → Inotify → Exec (Resman D × Inotify)
  read_loop [] rman w = ok (rman, w)
  read_loop (chunk ∷ reads) rman w = do
    (rman', w') ← event_loop 33 chunk.event_at 0 chunk.sz rman w
    read_loop reads rman' w'

  -- `rb_foreach` with `reload_modified`, over the keys of the set.
  unfoldable pub reload_modified : List (ℕ × Unit {0}) → Resman D → Inotify → Exec (Resman D)
  reload_modified [] rman w = ok rman
  reload_modified ((key, _) ∷ nodes) rman w =
      let wd = ptr2int key in
      elim (rb_findi w.nresmap wd) [
        | none ↦ reload_modified nodes rman w
        | some i ↦ do
          slot ← item_at rman.res i
          r ← deref slot
          rman' ← if wd == r.nfd then resman_reload rman i else aborted
          reload_modified nodes rman' w
      ]

  unfoldable pub check_watch : Resman D → Inotify → Exec (Resman D × Inotify)
  check_watch rman w = do
    (rman1, w1) ← read_loop w.reads rman (record w { reads = [] })
    rman2 ← reload_modified (rb_foreach w1.modset) rman1 w1
    ok (rman2, record w1 { modset = (rb_clear w1.modset).0 })
