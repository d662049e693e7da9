-- ===== src/Paths/Meant.antt =====
-- `clean_path` of src/filewatch_win32.c writes the path that is meant, and leaves a tail behind it.
use libresman.Base.{
  ℕ, zero, suc, ◌+◌, ◌≡◌, ◌≢◌, refl, ap, ◌∙◌, false, List, [], ◌∷◌, ◌==◌, length, length-append,
  arith, inl,
}
use libresman.Paths.{byte_at, remove_dots, to_backslashes, clean_path}
use libresman.Paths.Clean.{Full, buffer, to_backslashes-buffer}
use libresman.Paths.Reference.{resolve}
use libresman.Paths.Resolved.{keeps, skips, climbs, part_of-Shape, part_at-part_of}
use libresman.Paths.Written.{
  held, byte_ahead, held-Ahead, keep_byte, Writes, Rec, move, skip_step, climb_step,
}

is_zero : (c : ℕ) → c ≢ 0 → (c == 0) ≡ false
is_zero c ne = ground (arith, ne)

loop_at-Rec : (fuel : ℕ) → Rec fuel
unfolding remove_dots
loop_at-Rec zero out mid rest prev full before small = absurd (omega (arith, small))
loop_at-Rec (suc fuel) out mid [] prev full before small =
    let z : length out + length mid ≡ length out + length mid + 0 = omega arith in
    let here = ap (byte_at (held out mid [])) z ∙ byte_ahead out mid [] 0 0 refl in
    (mid, rw here refl, omega arith)
loop_at-Rec (suc fuel) out mid (c ∷ rest) prev (ne, full) before small =
    let z : length out + length mid ≡ length out + length mid + 0 = omega arith in
    let here = ap (byte_at (held out mid (c ∷ rest))) z ∙ byte_ahead out mid (c ∷ rest) 0 c refl in
    let sees =
      part_at-part_of (held out mid (c ∷ rest)) (length out + length mid) prev c rest before
        (held-Ahead out mid c rest) in
    elim (part_of-Shape prev c rest) [
      | keeps e ↦
          let (mid', same, n, last) = keep_byte out mid c rest in
          rw (here, is_zero c ne, sees, e)
            (move fuel (loop_at-Rec fuel) (c ∷ out) mid' rest _ c (length out + length mid + 1)
              (length out + 1) _ full last (omega (arith, small)) same (omega (arith, n))
              (omega arith) (omega (arith, n)))
      | skips rest' e1 e ↦
          rw (here, is_zero c ne, sees, e)
            (rw e1 (
              skip_step fuel (loop_at-Rec fuel) out mid rest' c (rw e1 at full).1
                (omega (arith, small, ap length e1))))
      | climbs rest' e1 e ↦
          rw (here, is_zero c ne, sees, e)
            (rw e1 (
              climb_step fuel (loop_at-Rec fuel) out mid rest' c (rw e1 at full).1.1
                (omega (arith, small, ap length e1))))
    ]

-- On every path, `clean_path` comes to what a single pass over the path means to keep, with its slashes
-- turned, `.\` passed over and `..\` climbed: where there is nothing to climb from it leaves the
-- buffer, and else the buffer begins with what is kept. But the zero stays where it was, so that a
-- tail stands behind it whenever anything was removed.
pub clean_path-resolve :
    (cs : List ℕ)
    → Full cs
    → (ds : List ℕ) × (to_backslashes (buffer cs) ≡ buffer ds)
      × Writes (resolve 0 0 [] ds) (length cs) (clean_path (buffer cs))
unfolding clean_path
clean_path-resolve cs full =
    let (ds, e, f, n) = to_backslashes-buffer cs full in
    (
      ds,
      e,
      rw e (
          move (length (buffer cs)) (loop_at-Rec (length (buffer cs))) [] [] ds (buffer ds) 0 0 0
            (length cs) f (inl (refl, refl)) (omega (arith, n, length-append cs (0 ∷ []))) refl
            (omega arith) refl (omega (arith, n))),
    )
