-- ===== src/Dynarr/Tests.antt =====
-- Runs of the model of src/dynarr.c, and its theorems at concrete arrays.
use libresman.Base.{ℕ, ◌≡◌, refl, Bool, true, false, ◌⊎◌, none, some, [], ◌∷◌, ok, leb, arith}
use libresman.Dynarr.{
  Dynarr, request, mul32, dynarr_alloc, dynarr_push, dynarr_pop, dynarr_size, dynarr_empty,
}
use libresman.Dynarr.Stack.{Holds}
use libresman.Dynarr.Grow.{grown, dynarr_push-total}
use libresman.Dynarr.Shrink.{dynarr_alloc-Holds}

-- A `malloc` that grants everything, and one that grants at most 40 bytes.
abbrev plenty : ℕ → Bool
plenty size = true

abbrev scarce : ℕ → Bool
scarce size = leb size 40

-- Two items where six fit.
abbrev sparse : Dynarr ℕ
sparse = record {
  nelem = 2;
  szelem = 8;
  max_elem = 6;
  bufsz = 48;
  slots = some 5 ∷ some 7 ∷ none ∷ none ∷ none ∷ none ∷ [];
}

abbrev full : Dynarr ℕ
full = record sparse { max_elem = 2; bufsz = 16; slots = some 5 ∷ some 7 ∷ [] }

sparse-Holds : Holds sparse (5 ∷ 7 ∷ [])
sparse-Holds = record {
  counted = refl;
  rest = none ∷ none ∷ none ∷ none ∷ [];
  stored = refl;
  sized = refl;
  item_pos = omega arith;
  fits = omega arith;
  bytes = refl;
  dense = omega arith;
}

full-Holds : Holds full (5 ∷ 7 ∷ [])
full-Holds = record {
  counted = refl;
  rest = [];
  stored = refl;
  sized = refl;
  item_pos = omega arith;
  fits = omega arith;
  bytes = refl;
  dense = omega arith;
}

dynarr_push-total_example :
    (da' : Dynarr ℕ) × (dynarr_push scarce full (some 9) ≡ ok da')
    × (Holds da' (5 ∷ 7 ∷ 9 ∷ [])
        ⊎ ((da' ≡ full)
            × (full.nelem ≡ full.max_elem)
            × (scarce (request (mul32 full.szelem (grown full))) ≡ false)))
dynarr_push-total_example = dynarr_push-total scarce full (5 ∷ 7 ∷ []) 9 full-Holds (omega arith)

fresh_array : (da : Dynarr ℕ) × (dynarr_alloc plenty 0 8 ≡ some da) × Holds da []
fresh_array = dynarr_alloc-Holds plenty 8 (λ size. refl) (omega arith)

-- A push that is denied memory loses its item without a word.
push_denied : dynarr_push scarce full (some 9) ≡ ok full
unfolding dynarr_push
push_denied = refl

pop_shrinks : dynarr_pop plenty sparse ≡ record {
  nelem = 1;
  szelem = 8;
  max_elem = 3;
  bufsz = 24;
  slots = some 5 ∷ some 7 ∷ none ∷ [];
}
unfolding dynarr_pop
pop_shrinks = refl

sizes : (dynarr_size full ≡ 2) × (dynarr_empty full ≡ false)
unfolding dynarr_size dynarr_empty
sizes = (refl, refl)
