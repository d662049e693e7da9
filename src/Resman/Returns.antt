-- ===== src/Resman/Returns.antt =====
-- `resman_poll` of src/resman.c and its first loop return, in the build without a file watch.
use libresman.Base.{
  ℕ, zero, suc, ◌+◌, ◌<◌, ◌++◌, ◌≡◌, refl, sym, ap, ◌∙◌, true, Option, none, some, List, [], ◌∷◌,
  ok, length, inl, inr, Bool-cases, if_true, if_false,
}
use libresman.Base.Outcome.{◌>>=◌, ok_of_chain, ok-injective}
use libresman.Dynarr.{dynarr_size}
use libresman.Dynarr.Stack.{Holds}
use libresman.Resman.{Resource, Resman, deref, item_at, write_at, erase_resource}
use libresman.Resman.Sweep.{sweep, sweep_slot, sweep-swept, swept, calls_from, call_destroy, doomed}
use libresman.Resman.Watch.{no_watch, remove_watched}
use libresman.Resman.Life.{Life, Run, Run-Sound, pending_job}
use libresman.Resman.Owed.{Owed, count}
use libresman.Resman.Poll.{Polling, resman_poll, sweep_watched, sweep_watched_slot, poll_from}
use libresman.Resman.Polled.{poll_from-polled}
use libresman.Resman.Refine.{AllCalm, poll_ok-Run}

module _ {ℓ} {D : Type ℓ} where
  erase_resource-tells :
      (rman rman' : Resman D) (i : ℕ)
      → erase_resource rman i ≡ ok rman'
      → rman'.destroy_func ≡ rman.destroy_func
  unfolding erase_resource
  erase_resource-tells rman rman' i e =
      let (slot, _, e1) = ok_of_chain (item_at rman.res i) _ e in
      let (r, _, e2) = ok_of_chain (deref slot) _ e1 in
      let (da, _, e3) = ok_of_chain (write_at rman.res i none) _ e2 in
      sym (ap (λ q. q.destroy_func) (ok-injective e3))

  sweep_slot-tells :
      (rman rman' : Resman D) (i : ℕ) (x : Option (Resource D))
      → sweep_slot rman i x ≡ ok rman'
      → rman'.destroy_func ≡ rman.destroy_func
  unfolding sweep_slot
  sweep_slot-tells rman rman' i none e = sym (ap (λ q. q.destroy_func) (ok-injective e))
  sweep_slot-tells rman rman' i (some r) e = elim (Bool-cases (doomed r)) [
    | inl dead ↦
        erase_resource-tells (call_destroy rman i) rman' i (sym (if_true (doomed r) _ _ dead) ∙ e)
    | inr alive ↦
        sym (ap (λ q. q.destroy_func) (ok-injective (sym (if_false (doomed r) _ _ alive) ∙ e)))
  ]

  sweep-tells :
      (left i : ℕ) (rman rman' : Resman D)
      → sweep i left rman ≡ ok rman'
      → rman'.destroy_func ≡ rman.destroy_func
  unfolding sweep
  sweep-tells zero i rman rman' e = sym (ap (λ q. q.destroy_func) (ok-injective e))
  sweep-tells (suc left) i rman rman' e =
      let (x, _, e1) = ok_of_chain (item_at rman.res i) _ e in
      let (rman1, slot, e2) = ok_of_chain (sweep_slot rman i x) _ e1 in
      sweep-tells left (i + 1) rman1 rman' e2 ∙ sweep_slot-tells rman rman1 i x slot

  -- With the empty file watch, the first loop is the one of Resman/Sweep.
  remove_watched-ok :
      (rman rman' : Resman D) (w : Unit {0}) (i : ℕ)
      → erase_resource rman i ≡ ok rman'
      → remove_watched no_watch rman w i ≡ ok (rman', w)
  unfolding remove_watched erase_resource
  remove_watched-ok rman rman' w i e =
      let (slot, here, e1) = ok_of_chain (item_at rman.res i) _ e in
      let (r, there, _) = ok_of_chain (deref slot) _ e1 in
      rw (here, there) (ap (λ m. do q ← m; ok (q, w)) (rw (here, there) at e))

  sweep_watched_slot-ok :
      (rman rman' : Resman D) (w : Unit {0}) (i : ℕ) (x : Option (Resource D))
      → sweep_slot rman i x ≡ ok rman'
      → sweep_watched_slot no_watch rman w i x ≡ ok (rman', w)
  unfolding sweep_watched_slot sweep_slot
  sweep_watched_slot-ok rman rman' w i none e = ap (λ m. do q ← m; ok (q, w)) e
  sweep_watched_slot-ok rman rman' w i (some r) e = elim (Bool-cases (doomed r)) [
    | inl dead ↦
        if_true (doomed r) _ _ dead
        ∙ remove_watched-ok (call_destroy rman i) rman' w i (sym (if_true (doomed r) _ _ dead) ∙ e)
    | inr alive ↦
        if_false (doomed r) _ _ alive
        ∙ ap (λ m. do q ← m; ok (q, w)) (sym (if_false (doomed r) _ _ alive) ∙ e)
  ]

  sweep_watched-ok :
      (left i : ℕ) (rman rman' : Resman D) (w : Unit {0})
      → sweep i left rman ≡ ok rman'
      → sweep_watched no_watch i left rman w ≡ ok (rman', w)
  unfolding sweep_watched sweep
  sweep_watched-ok zero i rman rman' w e = ap (λ m. do q ← m; ok (q, w)) e
  sweep_watched-ok (suc left) i rman rman' w e =
      let (x, here, e1) = ok_of_chain (item_at rman.res i) _ e in
      let (rman1, slot, e2) = ok_of_chain (sweep_slot rman i x) _ e1 in
      rw (here, sweep_watched_slot-ok rman rman1 w i x slot)
        (sweep_watched-ok left (i + 1) rman1 rman' w e2)

  -- In the build without a file watch and with a `destroy_func`, the first loop of `resman_poll` erases
  -- the slots whose resources are marked for deletion and not pending, and no others; for each of
  -- them, in the order of the slots, it calls `destroy_func` not once but twice.
  pub sweep_watched-swept :
      (rman : Resman D) (w : Unit {0}) (xs : List (Option (Resource D)))
      → Holds rman.res xs
      → rman.destroy_func ≡ true
      → (rman' : Resman D) × (sweep_watched no_watch 0 (dynarr_size rman.res) rman w
          ≡ ok (rman', w))
        × Holds rman'.res (swept xs)
        × (rman'.destroyed ≡ rman.destroyed ++ calls_from 0 xs)
  sweep_watched-swept rman w xs h told =
      let (rman', e, held, calls) = sweep-swept rman xs h told in
      (rman', sweep_watched-ok (dynarr_size rman.res) 0 rman rman' w e, held, calls)

  length-swept : (xs : List (Option (Resource D))) → length (swept xs) ≡ length xs
  length-swept [] = refl
  length-swept (none ∷ xs) = ap suc (length-swept xs)
  length-swept (some r ∷ xs) = ap suc (length-swept xs)

  resman_poll-steps :
      (l : Polling) (p : Life D (Unit {0})) (xs : List (Option (Resource D)))
      → Holds p.rman.res xs
      → p.rman.destroy_func ≡ true
      → AllCalm xs
      → (rman' : Resman D) × (resman_poll no_watch l p.rman p.watched ≡ ok (rman', p.watched))
        × Run no_watch p (record p { rman = rman' })
  unfolding resman_poll dynarr_size
  resman_poll-steps l p xs h told calm =
      let (rman1, e1, held1, _) = sweep-swept p.rman xs h told in
      let s1 = sweep_watched-ok p.rman.res.nelem 0 p.rman rman1 p.watched e1 in
      elim (Bool-cases l.has_done) [
        | inl has_done ↦
            let told1 = sweep-tells p.rman.res.nelem 0 p.rman rman1 e1 ∙ told in
            let (rman2, e2, _, _, _) =
              poll_from-polled l rman1 [] (swept xs) p.watched held1 told1 in
            let n : p.rman.res.nelem ≡ length (swept xs) = h.counted ∙ sym (length-swept xs) in
            let e : resman_poll no_watch l p.rman p.watched ≡ ok (rman2, p.watched) = rw s1 (
              if_true l.has_done _ _ has_done
              ∙ ap (λ m. poll_from no_watch l 0 m rman1 p.watched) n
              ∙ e2) in
            (rman2, e, poll_ok-Run l p xs rman2 p.watched h calm e)
        | inr no_done ↦
            let e : resman_poll no_watch l p.rman p.watched ≡ ok (rman1, p.watched) =
              rw s1 (if_false l.has_done _ _ no_done) in
            (rman1, e, poll_ok-Run l p xs rman1 p.watched h calm e)
      ]

  -- In the build without a file watch and with a `destroy_func`, where the jobs that are queued or with
  -- workers that have not yet cleared `pending` are one for each pending resource, where no resource is
  -- both pending and done, and where no pending resource has a delayed reload, `resman_poll` returns,
  -- and what it has done is a run of the steps of Resman/Life; each of those jobs, and each job that
  -- `resman_poll` has added, is afterwards for a resource that is in the table and pending.
  pub resman_poll-Run :
      (l : Polling) (p : Life D (Unit {0})) (xs : List (Option (Resource D)))
      → Holds p.rman.res xs
      → p.rman.destroy_func ≡ true
      → AllCalm xs
      → Owed xs p.rman.jobs p.running
      → (rman' : Resman D) × (resman_poll no_watch l p.rman p.watched ≡ ok (rman', p.watched))
        × Run no_watch p (record p { rman = rman' })
        × ((i : ℕ)
            → 0 < count i rman'.jobs + count i p.running
            → (r : Resource D) × (item_at rman'.res i ≡ ok (some r)) × (r.pending ≡ true))
  resman_poll-Run l p xs h told calm owed =
      let (rman', e, run) = resman_poll-steps l p xs h told calm in
      let q : Life D (Unit {0}) = record p { rman = rman' } in
      (rman', e, run, λ i. pending_job no_watch q i (Run-Sound no_watch p q run (xs, h, owed)))
