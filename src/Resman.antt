-- ===== src/Resman.antt =====
-- The table of resources of src/resman.c. The table is the array of src/dynarr.c, and a slot of it owns
-- its resource: a pointer to a resource, in a job as elsewhere, is the number of its slot. A name is the
-- list of its bytes.
pub mod Table
pub mod Append
pub mod Add
pub mod Erased
pub mod Sweep
pub mod Watch
pub mod Work
pub mod Owed
pub mod Moves
pub mod Grows
pub mod Kept
pub mod Balanced
pub mod Life
pub mod Raced
pub mod Poll
pub mod Polled
pub mod Refine
pub mod Returns
pub mod Waiting
pub mod Select
pub mod Setup
pub mod Teardown
pub mod Access
pub mod Inotify
pub mod Unwatch
pub mod Events
mod Tests
mod LoadTests
mod PollTests
use libresman.Base.{
  ℕ, zero, suc, ◌+◌, ◌-◌, Bool, true, false, ◌&&◌, Option, none, some, List, [], ◌∷◌, ◌++◌, Exec,
  ok, null_deref, out_of_bounds, if◌then◌else◌, ◌==◌, ltb, get_elem?, set, length,
}
use libresman.Base.Outcome.{◌>>=◌}
use libresman.Dynarr.{Dynarr, dynarr_size, dynarr_push}

-- A `char` pointer, and the text that stands there.
pub record CString : Type 0 where
  pub addr : ℕ
  pub text : List ℕ

-- `struct resource`, without its mutex, with the fields of all file watches; `D` is what `data` points to.
pub record Resource {ℓ} (D : Type ℓ) : Type ℓ where
  pub id : ℕ
  pub name : List ℕ
  pub data' : D
  pub result : ℕ
  pub pending : Bool
  pub done_pending : Bool
  pub delete_pending : Bool
  pub num_loads : ℕ
  pub reload_timeout : ℕ
  pub nfd : ℕ
  pub watch_path : Option CString

-- `struct resman`: the table, the number of free tasks, and the jobs that were handed to the pool,
-- the oldest first. `destroyed` are the calls of `destroy_func`, which is there if `destroy_func` is.
pub record Resman {ℓ} (D : Type ℓ) : Type ℓ where
  pub res : Dynarr (Option (Resource D))
  pub tasks : ℕ
  pub jobs : List ℕ
  pub destroy_func : Bool
  pub destroyed : List ℕ

-- `strcmp(a, b) == 0`
abbrev pub same_string : List ℕ → List ℕ → Bool
same_string [] [] = true
same_string [] (y ∷ ys) = false
same_string (x ∷ xs) [] = false
same_string (x ∷ xs) (y ∷ ys) = (x == y) && same_string xs ys

module _ {ℓ} {A : Type ℓ} where
  -- `*p`
  abbrev pub deref : Option A → Exec A
  deref none = null_deref
  deref (some a) = ok a

  -- `da[i]`, read and written. What was never written is read as a stray pointer.
  abbrev pub slot_item : Option (Option A) → Exec A
  slot_item none = out_of_bounds
  slot_item (some none) = out_of_bounds
  slot_item (some (some a)) = ok a

  unfoldable pub item_at : Dynarr A → ℕ → Exec A
  item_at da i = slot_item (get_elem? da.slots i)

  unfoldable pub write_at : Dynarr A → ℕ → A → Exec (Dynarr A)
  write_at da i a =
      if ltb i (length da.slots)
      then ok (record da { slots = set da.slots i (some a) })
      else out_of_bounds

-- `alloc_task` and `free_task` on the number of free tasks: the first of them, or a new one.
abbrev pub alloc_task : ℕ → ℕ
alloc_task tasks = tasks - 1

abbrev pub free_task : ℕ → ℕ
free_task tasks = tasks + 1

module _ {ℓ} {D : Type ℓ} where
  -- The loop of `find_resource`, with the slots from `i` left; `none` is -1.
  unfoldable pub find_from : Dynarr (Option (Resource D)) → List ℕ → ℕ → ℕ → Exec (Option ℕ)
  find_from da fname i zero = ok none
  find_from da fname i (suc left) =
      let rest = find_from da fname (i + 1) left in
      do slot ← item_at da i; r ← deref slot; if same_string r.name fname then ok (some i) else rest

  unfoldable pub find_resource : Resman D → List ℕ → Exec (Option ℕ)
  find_resource rman fname = find_from rman.res fname 0 (dynarr_size rman.res)

  -- The loop of `add_resource` that looks for an erased slot.
  unfoldable pub free_from : Dynarr (Option (Resource D)) → ℕ → ℕ → Exec (Option ℕ)
  free_from da i zero = ok none
  free_from da i (suc left) = do
    slot ← item_at da i
    elim slot [ none ↦ ok (some i) | some r ↦ free_from da (i + 1) left ]

  -- `resman_reload`: a task from the free list, or a new one, goes to the pool.
  unfoldable pub resman_reload : Resman D → ℕ → Exec (Resman D)
  resman_reload rman idx = do
    slot ← item_at rman.res idx
    r ← deref slot
    res' ← write_at rman.res idx (some (record r { pending = true }))
    ok (record rman { res = res'; tasks = alloc_task rman.tasks; jobs = rman.jobs ++ idx ∷ [] })

  -- `memset` and the assignments that follow it.
  abbrev pub new_resource : List ℕ → D → Resource D
  new_resource fname d = record {
    id = 0;
    name = fname;
    data' = d;
    result = 0;
    pending = false;
    done_pending = false;
    delete_pending = false;
    num_loads = 0;
    reload_timeout = 0;
    nfd = 0;
    watch_path = none;
  }

  -- `res->id = idx` where `res` is `rman->res[idx]`.
  unfoldable pub set_id : Resman D → ℕ → Exec (Resman D)
  set_id rman idx = do
    slot ← item_at rman.res idx
    r ← deref slot
    res' ← write_at rman.res idx (some (record r { id = idx }))
    ok (record rman { res = res' })

  -- The end of `add_resource`, from `res->id = idx`.
  unfoldable pub start_resource : Resman D → ℕ → Exec (Resman D × Option ℕ)
  start_resource rman idx = do
    rman2 ← set_id rman idx
    rman3 ← resman_reload rman2 idx
    ok (rman3, some idx)

  -- `add_resource`. `alloc` says whether there is memory for the resource, `mem` whether the table may
  -- grow.
  unfoldable pub add_resource :
      Bool → (ℕ → Bool) → Resman D → List ℕ → D → Exec (Resman D × Option ℕ)
  add_resource false mem rman fname d = ok (rman, none)
  add_resource true mem rman fname d = do
    slot ← free_from rman.res 0 (dynarr_size rman.res)
    (rman', idx) ← elim slot [
      | some i ↦ ok (rman, i)
      | none ↦ do
        res' ← dynarr_push mem rman.res (some (some (new_resource fname d)))
        ok (record rman { res = res' }, dynarr_size rman.res)
    ]
    start_resource rman' idx

  -- `resman_add`, and `resman_lookup`, its alias.
  unfoldable pub resman_add : Bool → (ℕ → Bool) → Resman D → List ℕ → D → Exec (Resman D × Option ℕ)
  resman_add alloc mem rman fname d = do
    ridx ← find_resource rman fname
    elim ridx [ some i ↦ ok (rman, some i) | none ↦ add_resource alloc mem rman fname d ]

  -- What `remove_resource` does behind its call of `resman_stop_watch`; it as a whole is
  -- `remove_watched` of Resman/Watch.
  unfoldable pub erase_resource : Resman D → ℕ → Exec (Resman D)
  erase_resource rman idx = do
    slot ← item_at rman.res idx
    r ← deref slot
    res' ← write_at rman.res idx none
    ok (record rman {
      res = res';
      destroyed = if rman.destroy_func then rman.destroyed ++ idx ∷ [] else rman.destroyed;
    })

  -- `resman_remove`
  unfoldable pub resman_remove : Resman D → ℕ → Exec (Resman D)
  resman_remove rman id = do
    slot ← item_at rman.res id
    r ← deref slot
    res' ← write_at rman.res id (some (record r { delete_pending = true }))
    ok (record rman { res = res' })
