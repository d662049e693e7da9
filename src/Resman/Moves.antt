-- ===== src/Resman/Moves.antt =====
-- What the calls of src/resman.c do to the list of the table's slots, and to the queue of jobs.
use libresman.Base.{
  ℕ, ◌-◌, ◌<◌, ◌≡◌, refl, sym, ap, ◌∙◌, subst, Bool, true, false, ◌&&◌, Option, none, some, List,
  [], ◌∷◌, ◌++◌, ok, if◌then◌else◌, ◌==◌, get_elem?, get_elem?-set_self, ◌⊎◌, set, arith, inl, inr,
  Bool-cases,
}
use libresman.Base.Outcome.{ok_of_chain, ok-injective}
use libresman.Dynarr.{Dynarr, dynarr_size}
use libresman.Dynarr.Stack.{Holds}
use libresman.Resman.{Resource, Resman, item_at, resman_reload, erase_resource, resman_remove}
use libresman.Resman.Table.{item_at-Holds}
use libresman.Resman.Watch.{Watch, remove_watched}
use libresman.Resman.Work.{
  clear_pending, finish_work, mark_loaded, delayed_reload, due, done_callback, minus_one,
}
use libresman.Resman.Owed.{rewrite_slot, get_elem?-lt, lt-of-get_elem?, set-set_slot}

module _ {ℓ} {D : Type ℓ} where
  -- What is read from a slot of the table stands in its list.
  pub get_elem?-item_at :
      (da : Dynarr (Option (Resource D))) (xs : List (Option (Resource D))) (i : ℕ)
      (x : Option (Resource D))
      → Holds da xs
      → i < dynarr_size da
      → item_at da i ≡ ok x
      → get_elem? xs i ≡ some x
  unfolding dynarr_size
  get_elem?-item_at da xs i x h lt e =
      let (y, at) = get_elem?-lt xs i (omega (arith, lt, h.counted)) in
      let same : y ≡ x = ok-injective (sym (item_at-Holds da xs i y h at) ∙ e) in at ∙ ap some same

  -- The table after a step holds the slots `ys`, and the queue holds the jobs `js`.
  abbrev pub Becomes : Resman D → List (Option (Resource D)) → List ℕ → Type ℓ
  Becomes rman ys js = Holds rman.res ys × (rman.jobs ≡ js)

  pub become :
      (q q' : Resman D) (ys : List (Option (Resource D))) (js : List ℕ)
      → q ≡ q'
      → Becomes q ys js
      → Becomes q' ys js
  become q q' ys js e b = subst (λ p. Becomes p ys js) e b

  pub resman_remove-Becomes :
      (rman rman' : Resman D) (xs : List (Option (Resource D))) (i : ℕ) (r : Resource D)
      → Holds rman.res xs
      → get_elem? xs i ≡ some (some r)
      → resman_remove rman i ≡ ok rman'
      → Becomes rman' (set xs i (some (record r { delete_pending = true }))) rman.jobs
  unfolding resman_remove
  resman_remove-Becomes rman rman' xs i r h at e =
      let (da, here, w, held) =
        rewrite_slot rman.res xs i r (some (record r { delete_pending = true })) h at in
      let same : record rman { res = da } ≡ rman' = ok-injective (rw (here, w) at e) in
      become _ _ _ _ same (held, refl)

  pub resman_reload-Becomes :
      (rman rman' : Resman D) (xs : List (Option (Resource D))) (i : ℕ) (r : Resource D)
      → Holds rman.res xs
      → get_elem? xs i ≡ some (some r)
      → resman_reload rman i ≡ ok rman'
      → Becomes rman' (set xs i (some (record r { pending = true }))) (rman.jobs ++ i ∷ [])
  unfolding resman_reload
  resman_reload-Becomes rman rman' xs i r h at e =
      let (da, here, w, held) =
        rewrite_slot rman.res xs i r (some (record r { pending = true })) h at in
      let same : record rman { res = da; tasks = rman.tasks - 1; jobs = rman.jobs ++ i ∷ [] }
          ≡ rman' =
        ok-injective (rw (here, w) at e) in
      become _ _ _ _ same (held, refl)

  pub erase_resource-Becomes :
      (rman rman' : Resman D) (xs : List (Option (Resource D))) (i : ℕ) (r : Resource D)
      → Holds rman.res xs
      → get_elem? xs i ≡ some (some r)
      → erase_resource rman i ≡ ok rman'
      → Becomes rman' (set xs i none) rman.jobs
  unfolding erase_resource
  erase_resource-Becomes rman rman' xs i r h at e =
      let (da, here, w, held) = rewrite_slot rman.res xs i r none h at in
      let same : record rman {
        res = da;
        destroyed = if rman.destroy_func then rman.destroyed ++ i ∷ [] else rman.destroyed;
      }
          ≡ rman' =
        ok-injective (rw (here, w) at e) in
      become _ _ _ _ same (held, refl)

  pub delayed_reload-Becomes :
      (start_time : ℕ) (rman rman' : Resman D) (xs : List (Option (Resource D))) (i : ℕ)
      (r : Resource D)
      → Holds rman.res xs
      → get_elem? xs i ≡ some (some r)
      → due start_time r ≡ true
      → delayed_reload start_time rman i r ≡ ok rman'
      → Becomes rman'
          (set xs i (some (record r { reload_timeout = 0; pending = true })))
          (rman.jobs ++ i ∷ [])
  unfolding delayed_reload
  delayed_reload-Becomes start_time rman rman' xs i r h at now e =
      let r0 = record r { reload_timeout = 0 } in
      let (da, here, w, held) = rewrite_slot rman.res xs i r (some r0) h at in
      let b =
        resman_reload-Becomes (record rman { res = da }) rman' (set xs i (some r0)) i r0 held
          (get_elem?-set_self xs i (some r0) (lt-of-get_elem? xs i (some r) at))
          (rw (now, w) at e) in
      (subst (Holds rman'.res) (set-set_slot xs i _ _) b.0, b.1)

module _ {ℓ κ} {D : Type ℓ} {W : Type κ} (watch : Watch D W) where
  pub remove_watched-Becomes :
      (rman rman' : Resman D) (w w' : W) (xs : List (Option (Resource D))) (i : ℕ) (r : Resource D)
      → Holds rman.res xs
      → get_elem? xs i ≡ some (some r)
      → remove_watched watch rman w i ≡ ok (rman', w')
      → Becomes rman' (set xs i none) rman.jobs
  unfolding remove_watched
  remove_watched-Becomes rman rman' w w' xs i r h at e =
      let here = item_at-Holds rman.res xs i (some r) h at in
      let (w1, _, e1) = ok_of_chain (watch.stop_watch i r w) _ (rw here at e) in
      let (rman1, removed, e2) = ok_of_chain (erase_resource rman i) _ e1 in
      let same : rman1 ≡ rman' = ap (λ p. p.0) (ok-injective e2) in
      erase_resource-Becomes rman rman' xs i r h at (removed ∙ ap ok same)

  mark_loaded-flags :
      (has_done : Bool) (i : ℕ) (r r' : Resource D) (w w' : W)
      → mark_loaded watch has_done i r w ≡ ok (r', w')
      → r'.pending ≡ r.pending
  unfolding mark_loaded
  mark_loaded-flags true i r r' w w' e = sym (ap (λ p. p.0.pending) (ok-injective e))
  mark_loaded-flags false i r r' w w' e = elim (Bool-cases (r.result == minus_one)) [
    | inl failed ↦ elim (Bool-cases (r.num_loads == 0)) [
      | inl first ↦ sym (ap (λ p. p.0.pending) (ok-injective (rw (failed, first) at e)))
      | inr again ↦ sym (ap (λ p. p.0.pending) (ok-injective (rw (failed, again) at e)))
    ]
    | inr fine ↦ (watch.start_watch-flags i r w r' w' (rw fine at e)).0
  ]

  pub clear_pending-Becomes :
      (result : ℕ) (rman rman' : Resman D) (xs : List (Option (Resource D))) (i : ℕ)
      (r : Resource D)
      → Holds rman.res xs
      → get_elem? xs i ≡ some (some r)
      → clear_pending result rman i ≡ ok rman'
      → Becomes rman' (set xs i (some (record r { result = result; pending = false }))) rman.jobs
  unfolding clear_pending
  clear_pending-Becomes result rman rman' xs i r h at e =
      let here = item_at-Holds rman.res xs i (some r) h at in
      let (da, _, wr, held) =
        rewrite_slot rman.res xs i r (some (record r { result = result; pending = false })) h at in
      become _ _ _ _ (ok-injective (rw (here, wr) at e)) (held, refl)

  pub finish_work-Becomes :
      (has_done : Bool) (rman rman' : Resman D) (w w' : W) (xs : List (Option (Resource D))) (i : ℕ)
      (r : Resource D)
      → Holds rman.res xs
      → get_elem? xs i ≡ some (some r)
      → finish_work watch has_done rman w i ≡ ok (rman', w')
      → (r' : Resource D) × (r'.pending ≡ r.pending) × Becomes rman' (set xs i (some r')) rman.jobs
  unfolding finish_work
  finish_work-Becomes has_done rman rman' w w' xs i r h at e =
      let here = item_at-Holds rman.res xs i (some r) h at in
      let ((r', w1), l, e1) = ok_of_chain (mark_loaded watch has_done i r w) _ (rw here at e) in
      let (da, _, wr, held) = rewrite_slot rman.res xs i r (some r') h at in
      let same = ap (λ p. p.0) (ok-injective (rw wr at e1)) in
      (r', mark_loaded-flags has_done i r r' w w1 l, become _ _ _ _ same (held, refl))

  pub done_callback-Becomes :
      (result : ℕ) (rman rman' : Resman D) (w w' : W) (xs : List (Option (Resource D))) (i : ℕ)
      (r : Resource D)
      → Holds rman.res xs
      → get_elem? xs i ≡ some (some r)
      → done_callback watch result rman w i r ≡ ok (rman', w')
      → Becomes rman' (set xs i none) rman.jobs
        ⊎ ((r' : Resource D) × (r'.pending ≡ r.pending)
            × (r'.done_pending ≡ false)
            × Becomes rman' (set xs i (some r')) rman.jobs)
  unfolding done_callback
  done_callback-Becomes result rman rman' w w' xs i r h at e =
      elim (Bool-cases ((result == minus_one) && (r.num_loads == 0))) [
        | inl failed ↦ inl (remove_watched-Becomes rman rman' w w' xs i r h at (rw failed at e))
        | inr fine ↦
            let ((r', w1), s, e1) = ok_of_chain (watch.start_watch i _ w) _ (rw fine at e) in
            let flags = watch.start_watch-flags i _ w r' w1 s in
            let (da, _, wr, held) = rewrite_slot rman.res xs i r (some r') h at in
            let same = ap (λ p. p.0) (ok-injective (rw wr at e1)) in
            inr (r', flags.0, flags.1, become _ _ _ _ same (held, refl))
      ]
