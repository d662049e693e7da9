-- ===== src/Resman/Sweep.antt =====
-- The first loop of `resman_poll` of src/resman.c, which removes what is marked for deletion, without
-- the calls of the file watch: it as it is written is `sweep_watched` of Resman/Poll, which comes to
-- the same with the empty file watch (Resman/Returns).
use mathlib.Core.List.{append_assoc, append-nil}
use libresman.Base.{
  ℕ, zero, suc, ◌+◌, ◌<◌, ◌≡◌, refl, sym, ap, ◌∙◌, subst, Bool, true, false, not, ◌&&◌, Option,
  none, some, List, [], ◌∷◌, ◌++◌, Exec, ok, if◌then◌else◌, length, length-append, get_elem?, set,
  arith, inl, inr, Bool-cases,
}
use libresman.Base.Outcome.{◌>>=◌}
use libresman.Dynarr.{dynarr_size}
use libresman.Dynarr.Stack.{Holds}
use libresman.Resman.{Resource, Resman, item_at, erase_resource}
use libresman.Resman.Table.{item_at-Holds, write_at-Holds}

module _ {ℓ} {D : Type ℓ} where
  -- `if(rman->destroy_func) rman->destroy_func(i, rman->destroy_func_cls);`
  abbrev pub call_destroy : Resman D → ℕ → Resman D
  call_destroy rman i = record rman {
    destroyed = if rman.destroy_func then rman.destroyed ++ i ∷ [] else rman.destroyed;
  }

  -- `res->delete_pending && !res->pending`
  abbrev pub doomed : Resource D → Bool
  doomed r = r.delete_pending && not r.pending

  -- The body of the loop.
  unfoldable pub sweep_slot : Resman D → ℕ → Option (Resource D) → Exec (Resman D)
  sweep_slot rman i none = ok rman
  sweep_slot rman i (some r) = if doomed r then erase_resource (call_destroy rman i) i else ok rman

  -- The loop, with the slots from `i` left.
  unfoldable pub sweep : ℕ → ℕ → Resman D → Exec (Resman D)
  sweep i zero rman = ok rman
  sweep i (suc left) rman = do
    slot ← item_at rman.res i
    rman' ← sweep_slot rman i slot
    sweep (i + 1) left rman'

  -- What is left of a list of slots, and the calls of `destroy_func` for the slots from `i` on.
  abbrev pub swept : List (Option (Resource D)) → List (Option (Resource D))
  swept [] = []
  swept (none ∷ xs) = none ∷ swept xs
  swept (some r ∷ xs) = (if doomed r then none else some r) ∷ swept xs

  abbrev pub calls_from : ℕ → List (Option (Resource D)) → List ℕ
  calls_from i [] = []
  calls_from i (none ∷ xs) = calls_from (i + 1) xs
  calls_from i (some r ∷ xs) =
      if doomed r then i ∷ i ∷ calls_from (i + 1) xs else calls_from (i + 1) xs

  pub get_elem?-pre :
      (pre : List (Option (Resource D))) (x : Option (Resource D)) (xs : List (Option (Resource D)))
      → get_elem? (pre ++ x ∷ xs) (length pre) ≡ some x
  get_elem?-pre [] x xs = refl
  get_elem?-pre (y ∷ pre) x xs = get_elem?-pre pre x xs

  pub set-pre :
      (pre : List (Option (Resource D))) (x y : Option (Resource D))
      (xs : List (Option (Resource D)))
      → set (pre ++ x ∷ xs) (length pre) y ≡ pre ++ y ∷ xs
  set-pre [] x y xs = refl
  set-pre (z ∷ pre) x y xs = ap (λ zs. z ∷ zs) (set-pre pre x y xs)

  -- What one turn of the loop does to the slot `x` behind the slots `pre`.
  sweep_slot-Holds :
      (rman : Resman D) (pre : List (Option (Resource D))) (r : Resource D)
      (xs : List (Option (Resource D)))
      → Holds rman.res (pre ++ some r ∷ xs)
      → rman.destroy_func ≡ true
      → doomed r ≡ true
      → (rman' : Resman D) × (sweep_slot rman (length pre) (some r) ≡ ok rman')
        × Holds rman'.res (pre ++ none ∷ xs)
        × (rman'.destroy_func ≡ true)
        × (rman'.destroyed ≡ rman.destroyed ++ length pre ∷ length pre ∷ [])
  unfolding sweep_slot erase_resource
  sweep_slot-Holds rman pre r xs h told dead =
      let here = item_at-Holds rman.res _ (length pre) (some r) h (get_elem?-pre pre (some r) xs) in
      let inside : length pre < length (pre ++ some r ∷ xs) =
        omega (arith, length-append pre (some r ∷ xs)) in
      let (da, e, held, _) = write_at-Holds rman.res _ (length pre) none h inside in
      (
        record rman {
          res = da;
          destroyed = (rman.destroyed ++ length pre ∷ []) ++ length pre ∷ [];
        },
        rw (dead, here, e, told) refl,
        subst (Holds da) (set-pre pre (some r) none xs) held,
        told,
        append_assoc rman.destroyed (length pre ∷ []) (length pre ∷ []),
      )

  -- What the loop comes to from the slot behind `pre` on, with the slots `xs` left.
  abbrev Sweeps : Resman D → List (Option (Resource D)) → List (Option (Resource D)) → Type ℓ
  Sweeps rman pre xs =
      (rman' : Resman D) × (sweep (length pre) (length xs) rman ≡ ok rman')
      × Holds rman'.res (pre ++ swept xs)
      × (rman'.destroyed ≡ rman.destroyed ++ calls_from (length pre) xs)

  -- One slot on: the slot `x` goes to those behind.
  Sweeps-next :
      (rman : Resman D) (pre : List (Option (Resource D))) (x : Option (Resource D))
      (xs : List (Option (Resource D)))
      → Sweeps rman (pre ++ x ∷ []) xs
      → (rman' : Resman D) × (sweep (length pre + 1) (length xs) rman ≡ ok rman')
        × Holds rman'.res (pre ++ x ∷ swept xs)
        × (rman'.destroyed ≡ rman.destroyed ++ calls_from (length pre + 1) xs)
  Sweeps-next rman pre x xs (rman', e, held, told) =
      let n : length pre + 1 ≡ length (pre ++ x ∷ []) = omega (arith, length-append pre (x ∷ [])) in
      (
        rman',
        ap (λ m. sweep m (length xs) rman) n ∙ e,
        subst (Holds rman'.res) (append_assoc pre (x ∷ []) (swept xs)) held,
        told ∙ ap (λ m. rman.destroyed ++ calls_from m xs) (sym n),
      )

  sweep_slot-none : (rman : Resman D) (i : ℕ) → sweep_slot rman i none ≡ ok rman
  unfolding sweep_slot
  sweep_slot-none rman i = refl

  sweep_slot-alive :
      (rman : Resman D) (i : ℕ) (r : Resource D)
      → doomed r ≡ false
      → sweep_slot rman i (some r) ≡ ok rman
  unfolding sweep_slot
  sweep_slot-alive rman i r alive = rw alive refl

  sweep-Sweeps :
      (xs pre : List (Option (Resource D))) (rman : Resman D)
      → Holds rman.res (pre ++ xs)
      → rman.destroy_func ≡ true
      → Sweeps rman pre xs
  unfolding sweep
  sweep-Sweeps [] pre rman h told = (rman, refl, h, sym (append-nil rman.destroyed))
  sweep-Sweeps (none ∷ xs) pre rman h told =
      let here = item_at-Holds rman.res _ (length pre) none h (get_elem?-pre pre none xs) in
      let (rman', e, held, calls) = Sweeps-next rman pre none xs (
        sweep-Sweeps xs (pre ++ none ∷ []) rman
          (subst (Holds rman.res) (sym (append_assoc pre (none ∷ []) xs)) h) told) in
      (rman', rw (here, sweep_slot-none rman (length pre)) e, held, calls)
  sweep-Sweeps (some r ∷ xs) pre rman h told =
      let here = item_at-Holds rman.res _ (length pre) (some r) h (get_elem?-pre pre (some r) xs) in
      elim (Bool-cases (doomed r)) [
        | inr alive ↦
            let (rman', e, held, calls) = Sweeps-next rman pre (some r) xs (
              sweep-Sweeps xs (pre ++ some r ∷ []) rman
                (subst (Holds rman.res) (sym (append_assoc pre (some r ∷ []) xs)) h) told) in
            (
              rman',
              rw (here, sweep_slot-alive rman (length pre) r alive) e,
              rw alive held,
              rw alive calls,
            )
        | inl dead ↦
            let (rman1, e1, held1, told1, calls1) = sweep_slot-Holds rman pre r xs h told dead in
            let (rman', e, held, calls) = Sweeps-next rman1 pre none xs (
              sweep-Sweeps xs (pre ++ none ∷ []) rman1
                (subst (Holds rman1.res) (sym (append_assoc pre (none ∷ []) xs)) held1) told1) in
            (
              rman',
              rw (here, e1) e,
              rw dead held,
              rw dead (
                  calls
                  ∙ ap (λ js. js ++ calls_from (length pre + 1) xs) calls1
                  ∙ append_assoc rman.destroyed _ _),
            )
      ]

  -- What the loop comes to on the list of the slots.
  pub sweep-swept :
      (rman : Resman D) (xs : List (Option (Resource D)))
      → Holds rman.res xs
      → rman.destroy_func ≡ true
      → (rman' : Resman D) × (sweep 0 (dynarr_size rman.res) rman ≡ ok rman')
        × Holds rman'.res (swept xs)
        × (rman'.destroyed ≡ rman.destroyed ++ calls_from 0 xs)
  unfolding dynarr_size
  sweep-swept rman xs h told =
      let (rman', e, held, calls) = sweep-Sweeps xs [] rman h told in
      (rman', ap (λ n. sweep 0 n rman) h.counted ∙ e, held, calls)
