-- ===== src/Resman/Watch.antt =====
-- src/filewatch.h: what src/resman.c asks of a file watch, and the empty one of
-- src/filewatch_dummy.c. A resource is known by the number of its slot.
use libresman.Base.{ℕ, ◌≡◌, sym, ap, ok, Exec}
use libresman.Base.Outcome.{◌>>=◌, ok-injective}
use libresman.Resman.{Resource, Resman, deref, item_at, erase_resource}

-- `W` is what the file watch keeps of its own in `struct resman`. Starting a watch may change the
-- resource, but not what is pending for it; `check_watch` may reload what has changed.
pub record Watch {ℓ κ} (D : Type ℓ) (W : Type κ) : Type (ℓ ⊔ κ) where
  pub start_watch : ℕ → Resource D → W → Exec (Resource D × W)
  pub stop_watch : ℕ → Resource D → W → Exec W
  pub check_watch : Resman D → W → Exec (Resman D × W)
  pub start_watch-flags :
      (i : ℕ) (r : Resource D) (w : W) (r' : Resource D) (w' : W)
      → start_watch i r w ≡ ok (r', w')
      → (r'.pending ≡ r.pending) × (r'.done_pending ≡ r.done_pending)

-- The file watch of src/filewatch_dummy.c.
abbrev pub no_watch {ℓ} : {D : Type ℓ} → Watch D (Unit {0})
no_watch = record {
  start_watch = λ i r w. ok (r, w);
  stop_watch = λ i r w. ok w;
  check_watch = λ rman w. ok (rman, w);
  start_watch-flags = λ i r w r' w' e.
      let h = ok-injective e in (sym (ap (λ p. p.0.pending) h), sym (ap (λ p. p.0.done_pending) h));
}

module _ {ℓ κ} {D : Type ℓ} {W : Type κ} (watch : Watch D W) where
  -- `remove_resource`, which begins with the call of `resman_stop_watch`.
  unfoldable pub remove_watched : Resman D → W → ℕ → Exec (Resman D × W)
  remove_watched rman w idx = do
    slot ← item_at rman.res idx
    r ← deref slot
    w' ← watch.stop_watch idx r w
    rman' ← erase_resource rman idx
    ok (rman', w')
