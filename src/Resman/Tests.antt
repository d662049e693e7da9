-- ===== src/Resman/Tests.antt =====
-- Runs of the model of src/resman.c, and its theorems at concrete tables.
use libresman.Base.{
  ℕ, ◌≡◌, ◌⊎◌, refl, Bool, true, false, Option, none, some, [], ◌∷◌, ok, null_deref, arith,
}
use libresman.Base.Outcome.{◌>>=◌}
use libresman.Dynarr.{Dynarr, dynarr_size}
use libresman.Dynarr.Stack.{Holds}
use libresman.Resman.{
  Resource, Resman, new_resource, find_resource, resman_add, add_resource, erase_resource,
  resman_remove, item_at, write_at, start_resource, set_id, find_from, free_from,
}
use libresman.Resman.Table.{Table, index_from, find_resource-Table}
use libresman.Resman.Watch.{no_watch}
use libresman.Resman.Poll.{sweep_watched}
use libresman.Resman.Returns.{sweep_watched-swept}
use libresman.Resman.Append.{added}
use libresman.Resman.Add.{resman_add-find_resource}

-- Two resources, named "a" and "b", in a table that is full.
abbrev first : Resource ℕ
first = new_resource (97 ∷ []) 11

abbrev second : Resource ℕ
second = record (new_resource (98 ∷ []) 22) { id = 1 }

abbrev pair_table : Dynarr (Option (Resource ℕ))
pair_table = record {
  nelem = 2;
  szelem = 8;
  max_elem = 2;
  bufsz = 16;
  slots = some (some first) ∷ some (some second) ∷ [];
}

abbrev pair_rman : Resman ℕ
pair_rman = record { res = pair_table; tasks = 0; jobs = []; destroy_func = true; destroyed = [] }

pair-Table : Table pair_rman (first ∷ second ∷ [])
pair-Table = record {
  counted = refl;
  rest = [];
  stored = refl;
  sized = refl;
  item_pos = omega arith;
  fits = omega arith;
  bytes = refl;
  dense = omega arith;
}

abbrev granting : ℕ → Bool
granting size = true

abbrev denying : ℕ → Bool
denying size = false

find_second : find_resource pair_rman (98 ∷ []) ≡ ok (some 1)
find_second = find_resource-Table pair_rman (first ∷ second ∷ []) (98 ∷ []) pair-Table

resman_add-find_resource_example :
    (rman' : Resman ℕ) × (id : ℕ) × (resman_add true granting pair_rman (99 ∷ []) 33
      ≡ ok (rman', some id))
    × (find_resource rman' (99 ∷ []) ≡ ok (some id))
    × (((none ≡ some id) × (rman' ≡ pair_rman))
        ⊎ ((index_from (99 ∷ []) 0 (first ∷ second ∷ []) ≡ none)
            × Table rman' (first ∷ second ∷ added (99 ∷ []) 33 id ∷ [])
            × (rman'.jobs ≡ id ∷ [])))
resman_add-find_resource_example =
    resman_add-find_resource granting pair_rman (first ∷ second ∷ []) (99 ∷ []) 33 (λ size. refl)
      pair-Table (omega arith)

-- A name that is there already costs no job.
added_twice : resman_add true granting pair_rman (97 ∷ []) 33 ≡ ok (pair_rman, some 0)
unfolding resman_add find_resource find_from item_at dynarr_size
added_twice = refl

-- An erased slot is taken for free, and then read through.
slot_reused :
    (do rman ← erase_resource pair_rman 0; add_resource true granting rman (99 ∷ []) 33)
    ≡ null_deref
unfolding erase_resource add_resource free_from item_at write_at dynarr_size start_resource set_id
slot_reused = refl

-- "a" is gone.
abbrev erased_rman : Resman ℕ
erased_rman = record pair_rman {
  res = record pair_table { slots = some none ∷ some (some second) ∷ [] };
}

erased-Holds : Holds erased_rman.res (none ∷ some second ∷ [])
erased-Holds = record {
  counted = refl;
  rest = [];
  stored = refl;
  sized = refl;
  item_pos = omega arith;
  fits = omega arith;
  bytes = refl;
  dense = omega arith;
}

-- "b" is marked for deletion.
abbrev marked : Resource ℕ
marked = record second { delete_pending = true }

abbrev marked_rman : Resman ℕ
marked_rman = record pair_rman {
  res = record pair_table { slots = some (some first) ∷ some (some marked) ∷ [] };
}

marked-Holds : Holds marked_rman.res (some first ∷ some marked ∷ [])
marked-Holds = record {
  counted = refl;
  rest = [];
  stored = refl;
  sized = refl;
  item_pos = omega arith;
  fits = omega arith;
  bytes = refl;
  dense = omega arith;
}

sweep_watched-swept_example :
    (rman' : Resman ℕ) × (sweep_watched no_watch 0 (dynarr_size marked_rman.res) marked_rman tt
      ≡ ok (rman', tt))
    × Holds rman'.res (some first ∷ none ∷ [])
    × (rman'.destroyed ≡ 1 ∷ 1 ∷ [])
sweep_watched-swept_example =
    sweep_watched-swept marked_rman tt (some first ∷ some marked ∷ []) marked-Holds refl

-- `resman_remove` marks it.
remove_marks : resman_remove pair_rman 1 ≡ ok marked_rman
unfolding resman_remove item_at write_at
remove_marks = refl
