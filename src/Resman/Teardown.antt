-- ===== src/Resman/Teardown.antt =====
-- `resman_destroy` of src/resman.c, and a `resman_init` that follows it.
use mathlib.Core.List.{append_assoc, append-nil}
use libresman.Base.{
  ℕ, ◌+◌, ◌≡◌, refl, sym, ap, ◌∙◌, subst, Bool, true, Option, none, some, List, [], ◌∷◌, ◌++◌, Exec,
  ok, length, length-append, arith,
}
use libresman.Base.Int.{ℤ}
use libresman.Base.Outcome.{ok_of_chain, ok-injective}
use libresman.Dynarr.{Dynarr, dynarr_size}
use libresman.Dynarr.Stack.{Holds}
use libresman.Resman.{Resource, Resman}
use libresman.Resman.Table.{item_at-Holds}
use libresman.Resman.Sweep.{call_destroy, get_elem?-pre}
use libresman.Resman.Setup.{
  SharedPool, Manager, destroy_from, resman_destroy, resman_init, find_pool, init_manager,
  tpool_addref, tpool_release,
}

module _ {ℓ} {D : Type ℓ} where
  -- The numbers of the slots from `i` on that hold a resource.
  abbrev pub live_from : ℕ → List (Option (Resource D)) → List ℕ
  live_from i [] = []
  live_from i (none ∷ xs) = live_from (i + 1) xs
  live_from i (some r ∷ xs) = i ∷ live_from (i + 1) xs

  destroy_from-live :
      (xs pre : List (Option (Resource D))) (rman : Resman D)
      → Holds rman.res (pre ++ xs)
      → rman.destroy_func ≡ true
      → (rman' : Resman D) × (destroy_from (length pre) (length xs) rman ≡ ok rman')
        × (rman'.destroyed ≡ rman.destroyed ++ live_from (length pre) xs)
  unfolding destroy_from
  destroy_from-live [] pre rman h told = (rman, refl, sym (append-nil rman.destroyed))
  destroy_from-live (none ∷ xs) pre rman h told =
      let here = item_at-Holds rman.res _ (length pre) none h (get_elem?-pre pre none xs) in
      let n : length (pre ++ none ∷ []) ≡ length pre + 1 =
        omega (arith, length-append pre (none ∷ [])) in
      let (rman', e, calls) =
        destroy_from-live xs (pre ++ none ∷ []) rman
          (subst (Holds rman.res) (sym (append_assoc pre (none ∷ []) xs)) h) told in
      (
        rman',
        rw here (ap (λ m. destroy_from m (length xs) rman) (sym n) ∙ e),
        calls ∙ ap (λ m. rman.destroyed ++ live_from m xs) n,
      )
  destroy_from-live (some r ∷ xs) pre rman h told =
      let here = item_at-Holds rman.res _ (length pre) (some r) h (get_elem?-pre pre (some r) xs) in
      let n : length (pre ++ some r ∷ []) ≡ length pre + 1 =
        omega (arith, length-append pre (some r ∷ [])) in
      let rman1 = call_destroy rman (length pre) in
      let (rman', e, calls) =
        destroy_from-live xs (pre ++ some r ∷ []) rman1
          (subst (Holds rman.res) (sym (append_assoc pre (some r ∷ []) xs)) h) told in
      (
        rman',
        rw here (ap (λ m. destroy_from m (length xs) rman1) (sym n) ∙ e),
        calls
            ∙ ap (λ m. rman1.destroyed ++ live_from m xs) n
            ∙ rw told
                (append_assoc rman.destroyed (length pre ∷ []) (live_from (length pre + 1) xs)),
      )

module _ {ℓ κ} {D : Type ℓ} {W : Type κ} where
  init_keeps_pool :
      (can_create : Bool) (env : Option ℤ) (processors : ℤ) (mem : ℕ → Bool) (wait_fd : ℕ)
      (monitor : Dynarr ℕ → Exec (Option (Dynarr ℕ × W))) (tpool : SharedPool)
      (q : Option SharedPool × Option (Manager D W))
      → resman_init can_create env processors mem wait_fd monitor (some tpool) ≡ ok q
      → q.0 ≡ some (tpool_addref tpool)
  unfolding resman_init find_pool
  init_keeps_pool can_create env processors mem wait_fd monitor tpool q e =
      let (m, _, e1) = ok_of_chain (init_manager mem wait_fd monitor) _ e in
      sym (ap (λ p. p.0) (ok-injective e1))

  -- Where there is a `destroy_func`, `resman_destroy` calls it once for each resource in the table, in
  -- the order of the slots. When the manager was the last with a reference to the thread pool, the
  -- pool is destroyed with it, but stays the one that the next `resman_init` goes on with: whenever
  -- that returns, its pool is the destroyed one, with one reference, and no new one is made.
  pub resman_destroy-resman_init :
      (m : Manager D W) (xs : List (Option (Resource D))) (tpool : SharedPool)
      → Holds m.rman.res xs
      → m.rman.destroy_func ≡ true
      → tpool.nref ≡ 1
      → (tpool' : SharedPool) × (resman_destroy m (some tpool)
          ≡ ok (m.rman.destroyed ++ live_from 0 xs, some tpool'))
        × (tpool'.destroyed ≡ true)
        × ((can_create : Bool) (env : Option ℤ) (processors : ℤ) (mem : ℕ → Bool) (wait_fd : ℕ)
              (monitor : Dynarr ℕ → Exec (Option (Dynarr ℕ × W)))
              (q : Option SharedPool × Option (Manager D W))
            → resman_init can_create env processors mem wait_fd monitor (some tpool') ≡ ok q
            → q.0 ≡ some (record tpool' { nref = 1 }))
  unfolding resman_destroy tpool_release tpool_addref dynarr_size
  resman_destroy-resman_init m xs tpool h told last =
      let (rman', e, calls) = destroy_from-live xs [] m.rman h told in
      let all : destroy_from 0 m.rman.res.nelem m.rman ≡ ok rman' =
        ap (λ n. destroy_from 0 n m.rman) h.counted ∙ e in
      let tpool' : SharedPool = record tpool { nref = 0; destroyed = true } in
      (
        tpool',
        rw (all, last) (ap (λ js. ok (js, some tpool')) calls),
        refl,
        λ can_create env processors mem wait_fd monitor q e.
            init_keeps_pool can_create env processors mem wait_fd monitor tpool' q e,
      )
