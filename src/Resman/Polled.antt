-- ===== src/Resman/Polled.antt =====
-- What the second loop of `resman_poll` of src/resman.c comes to in the build without a file watch.
use mathlib.Core.List.{append_assoc, append-nil}
use libresman.Base.{
  ℕ, ◌+◌, ◌-◌, ◌%◌, ◌^◌, ◌≡◌, refl, sym, ap, ◌∙◌, subst, Bool, true, false, ◌&&◌, Option, none,
  some, List, [], ◌∷◌, ◌++◌, ok, if◌then◌else◌, ◌==◌, length, length-append, arith, inl, inr,
  Bool-cases,
}
use libresman.Dynarr.{Dynarr}
use libresman.Dynarr.Stack.{Holds}
use libresman.Resman.{Resource, Resman, item_at, write_at, resman_reload, erase_resource}
use libresman.Resman.Table.{item_at-Holds}
use libresman.Resman.Sweep.{get_elem?-pre, set-pre}
use libresman.Resman.Watch.{no_watch, remove_watched}
use libresman.Resman.Work.{delayed_reload, done_callback, minus_one, due}
use libresman.Resman.Poll.{Polling, poll_slot, poll_from, late, unsigned_long}
use libresman.Resman.Owed.{rewrite_slot}

-- What the loop makes of one slot: its new content, the jobs and the calls of `destroy_func` that it
-- adds, and whether it is the last slot of this poll.
pub record Turn {ℓ} (D : Type ℓ) : Type ℓ where
  pub slot : Option (Resource D)
  pub reloads : List ℕ
  pub calls : List ℕ
  pub stop : Bool

-- What the loop makes of many.
pub record Turns {ℓ} (D : Type ℓ) : Type ℓ where
  pub slots : List (Option (Resource D))
  pub reloads : List ℕ
  pub calls : List ℕ

-- The table, the jobs and the calls after a turn for the slot behind `pre`.
record Turned {ℓ} {D : Type ℓ} (rman : Resman D) (pre xs : List (Option (Resource D))) (t : Turn D)
    (rman' : Resman D) : Type ℓ where
  held : Holds rman'.res (pre ++ t.slot ∷ xs)
  queued : rman'.jobs ≡ rman.jobs ++ t.reloads
  told : rman'.destroyed ≡ rman.destroyed ++ t.calls
  tells : rman'.destroy_func ≡ true

module _ {ℓ} {D : Type ℓ} (p : Polling) where
  abbrev pub turn : ℕ → Option (Resource D) → Turn D
  turn i none = record { slot = none; reloads = []; calls = []; stop = false }
  turn i (some r) =
      if r.done_pending
      then (if (p.answers i == minus_one) && (r.num_loads == 0)
          then record { slot = none; reloads = []; calls = i ∷ []; stop = false }
          else record {
            slot = some (record r { done_pending = false; num_loads = (r.num_loads + 1) % 2 ^ 32 });
            reloads = [];
            calls = [];
            stop = late (unsigned_long p.opt) p.start_time (p.now i);
          })
      else if due p.start_time r
      then record {
        slot = some (record r { reload_timeout = 0; pending = true });
        reloads = i ∷ [];
        calls = [];
        stop = false;
      }
      else record { slot = some r; reloads = []; calls = []; stop = false }

  abbrev pub then_turns : Turn D → Turns D → Turns D
  then_turns t ts = record {
    slots = t.slot ∷ ts.slots;
    reloads = t.reloads ++ ts.reloads;
    calls = t.calls ++ ts.calls;
  }

  abbrev pub polled : ℕ → List (Option (Resource D)) → Turns D
  polled i [] = record { slots = []; reloads = []; calls = [] }
  polled i (x ∷ xs) =
      let rest = polled (i + 1) xs in
      then_turns (turn i x)
        (if (turn i x).stop then record { slots = xs; reloads = []; calls = [] } else rest)

  write_pre :
      (da : Dynarr (Option (Resource D))) (pre : List (Option (Resource D))) (r : Resource D)
      (xs : List (Option (Resource D))) (y : Option (Resource D))
      → Holds da (pre ++ some r ∷ xs)
      → (da' : Dynarr (Option (Resource D))) × (item_at da (length pre) ≡ ok (some r))
        × (write_at da (length pre) y ≡ ok da')
        × Holds da' (pre ++ y ∷ xs)
  write_pre da pre r xs y h =
      let (da', here, w, held) =
        rewrite_slot da (pre ++ some r ∷ xs) (length pre) r y h (get_elem?-pre pre (some r) xs) in
      (da', here, w, subst (Holds da') (set-pre pre (some r) y xs) held)

  delayed_reload-due :
      (rman : Resman D) (pre : List (Option (Resource D))) (r : Resource D)
      (xs : List (Option (Resource D)))
      → Holds rman.res (pre ++ some r ∷ xs)
      → rman.destroy_func ≡ true
      → due p.start_time r ≡ true
      → (rman' : Resman D) × (delayed_reload p.start_time rman (length pre) r ≡ ok rman')
        × Turned rman pre xs
            (record {
              slot = some (record r { reload_timeout = 0; pending = true });
              reloads = length pre ∷ [];
              calls = [];
              stop = false;
            })
            rman'
  unfolding delayed_reload resman_reload
  delayed_reload-due rman pre r xs h told now =
      let r0 = record r { reload_timeout = 0 } in
      let (da, here, e, held) = write_pre rman.res pre r xs (some r0) h in
      let (da', here', e', held') =
        write_pre da pre r0 xs (some (record r0 { pending = true })) held in
      (
        record rman { res = da'; tasks = rman.tasks - 1; jobs = rman.jobs ++ length pre ∷ [] },
        rw (now, e, here', e') refl,
        record {
          held = held';
          queued = refl;
          told = sym (append-nil rman.destroyed);
          tells = told;
        },
      )

  delayed_reload-later :
      (rman : Resman D) (i : ℕ) (r : Resource D)
      → due p.start_time r ≡ false
      → delayed_reload p.start_time rman i r ≡ ok rman
  unfolding delayed_reload
  delayed_reload-later rman i r later = rw later refl

  poll_slot-turn :
      (rman : Resman D) (pre : List (Option (Resource D))) (x : Option (Resource D))
      (xs : List (Option (Resource D))) (w : Unit {0})
      → Holds rman.res (pre ++ x ∷ xs)
      → rman.destroy_func ≡ true
      → (rman' : Resman D) × (poll_slot no_watch p rman w (length pre) x
          ≡ ok (rman', w, (turn (length pre) x).stop))
        × Turned rman pre xs (turn (length pre) x) rman'
  unfolding poll_slot done_callback remove_watched erase_resource
  poll_slot-turn rman pre none xs w h told = (
    rman,
    refl,
    record {
      held = h;
      queued = sym (append-nil rman.jobs);
      told = sym (append-nil rman.destroyed);
      tells = told;
    },
  )
  poll_slot-turn rman pre (some r) xs w h told = elim (Bool-cases r.done_pending) [
    | inl done ↦ elim (Bool-cases ((p.answers (length pre) == minus_one) && (r.num_loads == 0))) [
      | inl failed ↦
          let (da, here, e, held) = write_pre rman.res pre r xs none h in
          let after : Resman D = record rman {
            res = da;
            destroyed = rman.destroyed ++ length pre ∷ [];
          } in
          (
            after,
            rw (done, failed, here, e, told) refl,
            rw (done, failed)
                (record {
                  held = held;
                  queued = sym (append-nil rman.jobs);
                  told = refl;
                  tells = told;
                }),
          )
      | inr fine ↦
          let r' = record r { done_pending = false; num_loads = (r.num_loads + 1) % 2 ^ 32 } in
          let (da, here, e, held) = write_pre rman.res pre r xs (some r') h in
          let after : Resman D = record rman { res = da } in
          (
            after,
            rw (done, fine, e) refl,
            rw (done, fine)
                (record {
                  held = held;
                  queued = sym (append-nil rman.jobs);
                  told = sym (append-nil rman.destroyed);
                  tells = told;
                }),
          )
    ]
    | inr undone ↦ elim (Bool-cases (due p.start_time r)) [
      | inl now ↦
          let t : Turn D = record {
            slot = some (record r { reload_timeout = 0; pending = true });
            reloads = length pre ∷ [];
            calls = [];
            stop = false;
          } in
          let this : t ≡ turn (length pre) (some r) = simp (undone, now) refl in
          let (rman', e, after) = delayed_reload-due rman pre r xs h told now in
          (rman', rw (e, undone, now) refl, subst (λ u. Turned rman pre xs u rman') this after)
      | inr later ↦ (
        rman,
        rw (delayed_reload-later rman (length pre) r later, undone, later) refl,
        simp (undone, later)
            (record {
              held = h;
              queued = sym (append-nil rman.jobs);
              told = sym (append-nil rman.destroyed);
              tells = told;
            }),
      )
    ]
  ]

  -- In the build without a file watch, and with a `destroy_func`, the second loop of `resman_poll`
  -- does to each slot, in the order of the slots, what its turn is, and breaks off behind the first
  -- slot whose callback leaves it late: a resource that is done and whose `done_func` fails on the
  -- first load is destroyed and its slot erased, any other that is done is taken up and its loads
  -- counted, one with a delayed reload that is due is reloaded, and the rest stays as it is.
  pub poll_from-polled :
      (rman : Resman D) (pre xs : List (Option (Resource D))) (w : Unit {0})
      → Holds rman.res (pre ++ xs)
      → rman.destroy_func ≡ true
      → (rman' : Resman D) × (poll_from no_watch p (length pre) (length xs) rman w ≡ ok (rman', w))
        × Holds rman'.res (pre ++ (polled (length pre) xs).slots)
        × (rman'.jobs ≡ rman.jobs ++ (polled (length pre) xs).reloads)
        × (rman'.destroyed ≡ rman.destroyed ++ (polled (length pre) xs).calls)
  unfolding poll_from
  poll_from-polled rman pre [] w h told =
      (rman, refl, h, sym (append-nil rman.jobs), sym (append-nil rman.destroyed))
  poll_from-polled rman pre (x ∷ xs) w h told =
      let t = turn (length pre) x in
      let here = item_at-Holds rman.res _ (length pre) x h (get_elem?-pre pre x xs) in
      let (rman1, e1, t1) = poll_slot-turn rman pre x xs w h told in
      elim (Bool-cases t.stop) [
        | inl stop ↦ (
          rman1,
          rw (here, e1, stop) refl,
          rw stop t1.held,
          rw stop (t1.queued ∙ ap (λ js. rman.jobs ++ js) (sym (append-nil t.reloads))),
          rw stop (t1.told ∙ ap (λ js. rman.destroyed ++ js) (sym (append-nil t.calls))),
        )
        | inr on ↦
            let (rman', e, held, jobs, calls) =
              poll_from-polled rman1 (pre ++ t.slot ∷ []) xs w
                (subst (Holds rman1.res) (sym (append_assoc pre (t.slot ∷ []) xs)) t1.held)
                t1.tells in
            let n : length (pre ++ t.slot ∷ []) ≡ length pre + 1 =
              omega (arith, length-append pre (t.slot ∷ [])) in
            (
              rman',
              rw (here, e1, on) (ap (λ m. poll_from no_watch p m (length xs) rman1 w) (sym n) ∙ e),
              rw on (
                  subst (Holds rman'.res)
                    (append_assoc pre (t.slot ∷ []) _
                      ∙ ap (λ m. pre ++ t.slot ∷ (polled m xs).slots) n)
                    held),
              rw on (
                  jobs
                  ∙ ap (λ js. js ++ (polled (length (pre ++ t.slot ∷ [])) xs).reloads) t1.queued
                  ∙ append_assoc rman.jobs t.reloads _
                  ∙ ap (λ m. rman.jobs ++ (t.reloads ++ (polled m xs).reloads)) n),
              rw on (
                  calls
                  ∙ ap (λ js. js ++ (polled (length (pre ++ t.slot ∷ [])) xs).calls) t1.told
                  ∙ append_assoc rman.destroyed t.calls _
                  ∙ ap (λ m. rman.destroyed ++ (t.calls ++ (polled m xs).calls)) n),
            )
      ]
