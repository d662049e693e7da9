-- ===== src/Resman/Raced.antt =====
-- What may come between the two steps of `work_func` of src/resman.c: it clears `pending` under the lock of
-- the resource, which the first loop of `resman_poll` does not take.
use libresman.Base.{
  ℕ, ◌+◌, ◌≡◌, refl, Bool, true, false, Option, none, some, List, [], ◌∷◌, ◌++◌, ok, null_deref,
  if◌then◌else◌, get_elem?, get_elem?-set_self, set,
}
use libresman.Base.Outcome.{◌>>=◌}
use libresman.Dynarr.{Dynarr}
use libresman.Dynarr.Stack.{Holds}
use libresman.Resman.{Resource, Resman, item_at, write_at, resman_remove, erase_resource}
use libresman.Resman.Table.{item_at-Holds}
use libresman.Resman.Sweep.{doomed, call_destroy}
use libresman.Resman.Watch.{Watch, no_watch, remove_watched}
use libresman.Resman.Poll.{sweep_watched_slot}
use libresman.Resman.Work.{clear_pending, finish_work}
use libresman.Resman.Owed.{rewrite_slot, lt-of-get_elem?}

module _ {ℓ} {D : Type ℓ} where
  -- The slot `i` of the table holds `x`.
  abbrev pub Slot : Resman D → ℕ → Option (Resource D) → Type ℓ
  Slot rman i x = (xs : List (Option (Resource D))) × Holds rman.res xs × (get_elem? xs i ≡ some x)

  -- What is written into a slot of the table is read from it, and no more changes than the table.
  overwrite :
      (rman : Resman D) (i : ℕ) (r : Resource D) (y : Option (Resource D))
      → Slot rman i (some r)
      → (da : Dynarr (Option (Resource D))) × (item_at rman.res i ≡ ok (some r))
        × (write_at rman.res i y ≡ ok da)
        × Slot (record rman { res = da }) i y
  overwrite rman i r y (xs, h, at) =
      let (da, here, w, held) = rewrite_slot rman.res xs i r y h at in
      let still : Slot (record rman { res = da }) i y =
        (set xs i y, held, get_elem?-set_self xs i y (lt-of-get_elem? xs i (some r) at)) in
      (da, here, w, still)

  -- The turn of the first loop for a resource that is marked for deletion.
  sweep_doomed :
      (rman : Resman D) (w : Unit {0}) (i : ℕ) (r : Resource D)
      → Slot rman i (some r)
      → doomed r ≡ true
      → (rman' : Resman D) × (sweep_watched_slot no_watch rman w i (some r) ≡ ok (rman', w))
        × Slot rman' i none
  unfolding sweep_watched_slot remove_watched erase_resource
  sweep_doomed rman w i r s dead =
      let (da, here, wr, still) = overwrite (call_destroy rman i) i r none s in
      let told = (call_destroy rman i).destroyed in
      (
        record rman { res = da; destroyed = if rman.destroy_func then told ++ i ∷ [] else told },
        rw (dead, here, wr) refl,
        still,
      )

  -- In the build without a file watch, when `resman_remove` is called for a resource on which a worker
  -- is at work, and the turn of the first loop of `resman_poll` for it comes after the worker has
  -- cleared `pending` and before the end of `work_func`, the loop frees the resource, and the rest
  -- of `work_func` goes to a resource that is gone. So it is for every result of loading, with and
  -- without a `done_func`.
  pub finish_work-raced :
      (has_done : Bool) (result : ℕ) (rman : Resman D) (xs : List (Option (Resource D))) (i : ℕ)
      (r : Resource D) (w : Unit {0})
      → Holds rman.res xs
      → get_elem? xs i ≡ some (some r)
      → r.pending ≡ true
      → (rman1 : Resman D) × (rman2 : Resman D) × ((do
        rman0 ← resman_remove rman i
        clear_pending result rman0 i)
          ≡ ok rman1)
        × ((do slot ← item_at rman1.res i; sweep_watched_slot no_watch rman1 w i slot)
            ≡ ok (rman2, w))
        × (finish_work no_watch has_done rman2 w i ≡ null_deref)
  unfolding resman_remove clear_pending finish_work
  finish_work-raced has_done result rman xs i r w h at pend =
      let r1 = record r { delete_pending = true } in
      let r2 = record r1 { result = result; pending = false } in
      let (da1, here1, w1, s1) = overwrite rman i r (some r1) (xs, h, at) in
      let (da2, here2, w2, s2) = overwrite (record rman { res = da1 }) i r1 (some r2) s1 in
      let rman1 = record rman { res = da2; tasks = rman.tasks + 1 } in
      let (_, here3, _, _) = overwrite rman1 i r2 (some r2) s2 in
      let (rman2, gone, (ys, held, erased)) = sweep_doomed rman1 w i r2 s2 refl in
      (
        rman1,
        rman2,
        rw (here1, w1, here2, w2) refl,
        rw here3 gone,
        rw (item_at-Holds rman2.res ys i none held erased) refl,
      )
