-- ===== src/Resman/Events.antt =====
-- How far the loop of `resman_check_watch` in src/filewatch_linux.c goes in its buffer.
use libresman.Base.{
  ℕ, suc, ◌+◌, ◌-◌, ◌*◌, ◌%◌, ◌^◌, ◌≤◌, ◌<◌, ◌≡◌, sym, ap, ◌∙◌, true, false, ok, out_of_bounds, leb,
  if_true, if_false, arith,
}
use libresman.Base.Outcome.{ok_of_chain}
use libresman.Tpool.{gt32}
use libresman.Resman.{Resman}
use libresman.Resman.Inotify.{Inotify, InotifyEvent, handle_event, event_loop}

module _ {ℓ} {D : Type ℓ} (event_at : ℕ → InotifyEvent) where
  -- A loop that comes through goes on behind an event without a name.
  event_loop-next :
      (fuel off sz : ℕ) (rman : Resman D) (w : Inotify) (z : Resman D × Inotify)
      → (event_at off).len ≡ 0
      → 16 ≤ sz
      → sz < 2 ^ 31
      → off + 16 ≤ 512
      → event_loop (suc fuel) event_at off sz rman w ≡ ok z
      → (rman' : Resman D) × (w' : Inotify) × (event_loop fuel event_at
            (off + 256)
            (sz - 16)
            rman'
            w'
          ≡ ok z)
  unfolding event_loop
  event_loop-next fuel off sz rman w z bare more small inside e =
      let going : gt32 sz 0 ≡ true = ground (arith, more, small) in
      let within : leb (off + 16) 512 ≡ true = ground (arith, inside) in
      let e1 =
        sym (if_true (leb (off + 16) 512) _ _ within) ∙ sym (if_true (gt32 sz 0) _ _ going) ∙ e in
      let ((rman', w'), _, e2) = ok_of_chain (handle_event rman w (event_at off)) _ e1 in
      let n : off + 16 * ((16 + (event_at off).len) % 2 ^ 32) ≡ off + 256 = omega (arith, bare) in
      let m : (sz + 2 ^ 32 - (16 + (event_at off).len) % 2 ^ 32) % 2 ^ 32 ≡ sz - 16 =
        omega (arith, bare, more, small) in
      (
        rman',
        w',
        ap (λ x. event_loop fuel event_at x (sz - 16) rman' w') (sym n)
            ∙ ap
                (λ y.
                  event_loop fuel event_at (off + 16 * ((16 + (event_at off).len) % 2 ^ 32)) y rman'
                    w')
                (sym m)
            ∙ e2,
      )

  outside :
      (fuel off sz : ℕ) (rman : Resman D) (w : Inotify) (z : Resman D × Inotify)
      → 0 < sz
      → sz < 2 ^ 31
      → 512 < off + 16
      → ¬ (event_loop (suc fuel) event_at off sz rman w ≡ ok z)
  unfolding event_loop
  outside fuel off sz rman w z more small beyond e =
      let going : gt32 sz 0 ≡ true = ground (arith, more, small) in
      let without : leb (off + 16) 512 ≡ false = ground (arith, beyond) in
      let e1 : out_of_bounds ≡ ok z =
        sym (if_false (leb (off + 16) 512) _ _ without) ∙ sym (if_true (gt32 sz 0) _ _ going) ∙ e in
      cc e1

  -- When `read` gives more than two events, the first of them without a name, and what stands in the
  -- middle of the buffer, where the loop looks next, has none either, the loop does not come through:
  -- the third event that it looks for is outside the buffer.
  pub event_loop-third :
      (fuel sz : ℕ) (rman : Resman D) (w : Inotify) (z : Resman D × Inotify)
      → (event_at 0).len ≡ 0
      → (event_at 256).len ≡ 0
      → 32 < sz
      → sz < 2 ^ 31
      → ¬ (event_loop (fuel + 3) event_at 0 sz rman w ≡ ok z)
  event_loop-third fuel sz rman w z bare0 bare1 more small e =
      let (rman1, w1, e1) =
        event_loop-next (suc (suc fuel)) 0 sz rman w z bare0 (omega (arith, more)) small
          (omega arith) (ap (λ n. event_loop n event_at 0 sz rman w) (omega arith) ∙ e) in
      let (rman2, w2, e2) =
        event_loop-next (suc fuel) 256 (sz - 16) rman1 w1 z bare1 (omega (arith, more))
          (omega (arith, small)) (omega arith) e1 in
      outside fuel 512 (sz - 16 - 16) rman2 w2 z (omega (arith, more)) (omega (arith, small))
        (omega arith) e2
