-- ===== src/Imgthumbs/Taken.antt =====
-- What a turn of the second loop of `resman_poll` of src/resman.c makes of a resource that was
-- loaded, as the callbacks of examples/imgthumbs see it.

use libresman.Base.{
  ℕ, ◌+◌, ◌%◌, ◌^◌, ◌≡◌, refl, true, false, ◌&&◌, Option, none, some, List, [], ◌∷◌, ◌++◌, ok, ◌==◌,
  get_elem?, set,
}
use libresman.Base.Int.{pos}
use libresman.Dynarr.Stack.{Holds}
use libresman.Resman.{Resource, erase_resource}
use libresman.Resman.Access.{resman_get_res_result, resman_get_res_load_count}
use libresman.Resman.Owed.{rewrite_slot}
use libresman.Resman.Watch.{no_watch, remove_watched}
use libresman.Resman.Work.{minus_one, done_callback}
use libresman.Imgthumbs.Thumbs.{Texman}
use libresman.Imgthumbs.Callbacks.{field_or-Holds}
use libresman.Imgthumbs.Held.{Slots}

-- The resource behind its callback.
abbrev pub taken_up : Resource (Option ℕ) → Resource (Option ℕ)
taken_up r = record r { done_pending = false; num_loads = (r.num_loads + 1) % 2 ^ 32 }

module _ (texman : Texman) (xs : Slots) (i : ℕ) (r : Resource (Option ℕ))
    (holds : Holds texman.res xs) (at : get_elem? xs i ≡ some (some r)) where
  -- What `done_callback` leaves of the table, and the calls of `destroy_func` that it makes.
  abbrev pub Leaves : ℕ → Option (Resource (Option ℕ)) → List ℕ → Type 0
  Leaves answer y calls =
      (texman' : Texman) × (done_callback no_watch answer texman tt i r ≡ ok (texman', tt))
      × Holds texman'.res (set xs i y)
      × (texman'.destroy_func ≡ texman.destroy_func)
      × (texman'.destroyed ≡ texman.destroyed ++ calls)

  pub done_callback-kept :
      (answer : ℕ)
      → ((answer == minus_one) && (r.num_loads == 0)) ≡ false
      → (texman' : Texman) × (done_callback no_watch answer texman tt i r ≡ ok (texman', tt))
        × Holds texman'.res (set xs i (some (taken_up r)))
        × (texman'.destroy_func ≡ texman.destroy_func)
        × (texman'.destroyed ≡ texman.destroyed)
  unfolding done_callback
  done_callback-kept answer fine =
      let (da, here, w, held) = rewrite_slot texman.res xs i r (some (taken_up r)) holds at in
      (record texman { res = da }, rw (fine, w) refl, held, refl, refl)

  pub done_callback-dropped :
      (answer : ℕ)
      → texman.destroy_func ≡ true
      → ((answer == minus_one) && (r.num_loads == 0)) ≡ true
      → Leaves answer none (i ∷ [])
  unfolding done_callback remove_watched erase_resource
  done_callback-dropped answer told failed =
      let (da, here, w, held) = rewrite_slot texman.res xs i r none holds at in
      (
        record texman { res = da; destroyed = texman.destroyed ++ i ∷ [] },
        rw (failed, here, w, told) refl,
        held,
        refl,
        refl,
      )

  pub result_here : resman_get_res_result texman (pos i) ≡ ok r.result
  unfolding resman_get_res_result
  result_here =
      field_or-Holds minus_one (λ (q : Resource (Option ℕ)). q.result) texman xs i r holds at

  pub loads_here : resman_get_res_load_count texman (pos i) ≡ ok r.num_loads
  unfolding resman_get_res_load_count
  loads_here =
      field_or-Holds minus_one (λ (q : Resource (Option ℕ)). q.num_loads) texman xs i r holds at
