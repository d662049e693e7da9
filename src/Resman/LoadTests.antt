-- ===== src/Resman/LoadTests.antt =====
-- Loading, polling, setting up and watching in the model of src/resman.c, at concrete tables.
use libresman.Base.{ℕ, ◌≡◌, refl, Bool, true, Option, some, [], ◌∷◌, ok, null_deref, arith}
use libresman.Base.Outcome.{◌>>=◌}
use libresman.Dynarr.{Dynarr, dynarr_size, dynarr_push, dynarr_resize, put_item, append_item}
use libresman.Dynarr.Stack.{Holds}
use libresman.Resman.{
  Resource, Resman, new_resource, find_resource, resman_add, add_resource, resman_remove,
  resman_reload, item_at, write_at, start_resource, set_id, find_from, free_from,
}
use libresman.Resman.Poll.{sweep_watched_slot}
use libresman.Resman.Watch.{no_watch}
use libresman.Resman.Work.{clear_pending, finish_work}
use libresman.Resman.Life.{Life, Run, at_rest, one_more, adds, takes, Run-pending_jobs}
use libresman.Resman.Raced.{finish_work-raced}

abbrev granting : ℕ → Bool
granting size = true

-- The table before the first call.
abbrev no_table : Dynarr (Option (Resource ℕ))
no_table = record { nelem = 0; szelem = 8; max_elem = 0; bufsz = 0; slots = [] }

abbrev new_rman : Resman ℕ
new_rman = record { res = no_table; tasks = 0; jobs = []; destroy_func = true; destroyed = [] }

no_table-Holds : Holds no_table []
no_table-Holds = record {
  counted = refl;
  rest = [];
  stored = refl;
  sized = refl;
  item_pos = omega arith;
  fits = omega arith;
  bytes = refl;
  dense = omega arith;
}

-- The table with the resource "a", whose job waits.
abbrev loading : Resource ℕ
loading = record (new_resource (97 ∷ []) 11) { pending = true }

abbrev one_table : Dynarr (Option (Resource ℕ))
one_table = record {
  nelem = 1;
  szelem = 8;
  max_elem = 1;
  bufsz = 8;
  slots = some (some loading) ∷ [];
}

abbrev one_rman : Resman ℕ
one_rman = record { res = one_table; tasks = 0; jobs = 0 ∷ []; destroy_func = true; destroyed = [] }

add_first : resman_add true granting new_rman (97 ∷ []) 11 ≡ ok (one_rman, some 0)
unfolding resman_add find_resource find_from add_resource free_from dynarr_push dynarr_resize
    put_item append_item dynarr_size start_resource set_id resman_reload item_at write_at
add_first = refl

-- A worker takes the job.
abbrev before : Life ℕ (Unit {0})
before = record { rman = new_rman; watched = tt; running = []; finishing = [] }

abbrev queued : Life ℕ (Unit {0})
queued = record { rman = one_rman; watched = tt; running = []; finishing = [] }

abbrev taken : Life ℕ (Unit {0})
taken = record {
  rman = record one_rman { jobs = [] };
  watched = tt;
  running = 0 ∷ [];
  finishing = [];
}

first_moves : Run no_watch before taken
first_moves =
    one_more queued taken
      (one_more before queued at_rest
        (adds true granting (97 ∷ []) 11 one_rman (some 0) (omega arith) add_first))
      (takes 0 [] refl)

Run-pending_jobs_example :
    (r : Resource ℕ) × (item_at taken.rman.res 0 ≡ ok (some r)) × (r.pending ≡ true)
Run-pending_jobs_example =
    Run-pending_jobs no_watch before taken no_table-Holds refl refl first_moves 0 (omega arith)

one_table-Holds : Holds one_rman.res (some loading ∷ [])
one_table-Holds = record {
  counted = refl;
  rest = [];
  stored = refl;
  sized = refl;
  item_pos = omega arith;
  fits = omega arith;
  bytes = refl;
  dense = omega arith;
}

finish_work-raced_example :
    (rman1 : Resman ℕ) × (rman2 : Resman ℕ) × ((do
      rman0 ← resman_remove taken.rman 0
      clear_pending 7 rman0 0)
      ≡ ok rman1)
    × ((do slot ← item_at rman1.res 0; sweep_watched_slot no_watch rman1 tt 0 slot)
        ≡ ok (rman2, tt))
    × (finish_work no_watch true rman2 tt 0 ≡ null_deref)
finish_work-raced_example =
    finish_work-raced true 7 taken.rman (some loading ∷ []) 0 loading tt one_table-Holds refl refl
