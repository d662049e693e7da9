-- ===== src/Paths/Written.antt =====
-- The steps of the second loop of `clean_path` of src/filewatch_win32.c, by the path that is meant.
use mathlib.Core.List.{append_assoc}
use libresman.Base.{
  ℕ, suc, ◌+◌, ◌<◌, ◌≡◌, refl, sym, ap, ◌∙◌, subst, true, false, Option, none, some, List, [], ◌∷◌,
  ◌++◌, Exec, ok, out_of_bounds, if◌then◌else◌, ◌==◌, get_elem?, set, length, length-append, arith,
  inl, inr,
}
use libresman.Base.Outcome.{◌>>=◌}
use libresman.Paths.{byte_at, parent, remove_dots, backslash, dot_byte}
use libresman.Paths.Clean.{Full, buffer}
use libresman.Paths.Reference.{unwind, climb, and_then, resolve, byte_at-unwind, set-unwind}
use libresman.Paths.Resolved.{Before, Ahead, parent-climb}

-- The buffer: what was written, what was passed over, and what is to come.
abbrev pub held : List ℕ → List ℕ → List ℕ → List ℕ
held out mid rest = unwind out (mid ++ buffer rest)

get_elem?-append : (xs ys : List ℕ) (k : ℕ) → get_elem? (xs ++ ys) (length xs + k) ≡ get_elem? ys k
get_elem?-append [] ys k = ap (get_elem? ys) (omega arith)
get_elem?-append (x ∷ xs) ys k =
    let e : length (x ∷ xs) + k ≡ suc (length xs + k) = omega arith in
    ap (get_elem? (x ∷ xs ++ ys)) e ∙ get_elem?-append xs ys k

-- A byte that is to come.
pub byte_ahead :
    (out mid rest : List ℕ) (k c : ℕ)
    → get_elem? (buffer rest) k ≡ some c
    → byte_at (held out mid rest) (length out + length mid + k) ≡ ok c
byte_ahead out mid rest k c at =
    byte_at-unwind out (mid ++ buffer rest) (length out + length mid + k) (length mid + k) c
      (omega arith) (get_elem?-append mid (buffer rest) k ∙ at)

pub held-Ahead :
    (out mid : List ℕ) (c : ℕ) (rest : List ℕ)
    → Ahead (held out mid (c ∷ rest)) (length out + length mid) rest
held-Ahead out mid c rest k x at =
    let e : 1 + k ≡ suc k = omega arith in
    byte_ahead out mid (c ∷ rest) (1 + k) x (ap (get_elem? (c ∷ buffer rest)) e ∙ at)

-- The byte that was passed over last.
held-Before :
    (out mid : List ℕ) (x : ℕ) (rest : List ℕ) (ptr : ℕ)
    → ptr ≡ length out + length mid + 1
    → Before (held out (mid ++ x ∷ []) rest) ptr x
held-Before out mid x rest ptr e = inr (
  length out + length mid,
  omega (arith, e),
  byte_at-unwind out ((mid ++ x ∷ []) ++ buffer rest) (length out + length mid) (length mid) x refl
      (ap (λ zs. get_elem? zs (length mid)) (append_assoc mid (x ∷ []) (buffer rest))
        ∙ ap (get_elem? (mid ++ x ∷ buffer rest)) (omega arith)
        ∙ get_elem?-append mid (x ∷ buffer rest) 0),
)

-- A byte is kept: it is written behind what was, unless it stands there.
pub keep_byte :
    (out mid : List ℕ) (c : ℕ) (rest : List ℕ)
    → (mid' : List ℕ) × ((if length out == length out + length mid
          then held out mid (c ∷ rest)
          else set (held out mid (c ∷ rest)) (length out) c)
        ≡ held (c ∷ out) mid' rest)
      × (length mid' ≡ length mid)
      × Before (held (c ∷ out) mid' rest) (length out + length mid + 1) c
keep_byte out [] c rest =
    let same : (length out == length out + 0) ≡ true = ground arith in
    (
      [],
      rw same refl,
      refl,
      inr (
        length out,
        omega arith,
        byte_at-unwind out (c ∷ buffer rest) (length out) 0 c (omega arith) refl,
      ),
    )
keep_byte out (m ∷ mid) c rest =
    let apart : (length out == length out + suc (length mid)) ≡ false = ground arith in
    (
      mid ++ c ∷ [],
      rw apart (
          set-unwind out m (mid ++ c ∷ buffer rest) c
          ∙ ap (λ zs. unwind (c ∷ out) zs) (sym (append_assoc mid (c ∷ []) (buffer rest)))),
      omega (arith, length-append mid (c ∷ [])),
      held-Before (c ∷ out) mid c rest (length out + suc (length mid) + 1) (omega arith),
    )

-- The call writes what is meant, if anything is, and leaves the length as it is.
abbrev pub Writes : Option (List ℕ) → ℕ → Exec (List ℕ) → Type 0
Writes none n e = e ≡ out_of_bounds
Writes (some out) n e =
    (tail : List ℕ) × (e ≡ ok (unwind out (buffer tail))) × (length out + length tail ≡ n)

pub Writes-by :
    (o : Option (List ℕ)) (n : ℕ) (e e' : Exec (List ℕ)) → e ≡ e' → Writes o n e' → Writes o n e
Writes-by o n e e' same w = subst (Writes o n) (sym same) w

-- The loop with as many turns, from the offsets that the lengths give.
abbrev pub loop_at : ℕ → List ℕ → List ℕ → List ℕ → Exec (List ℕ)
loop_at fuel out mid rest =
    remove_dots fuel (held out mid rest) (length out + length mid) (length out)

abbrev pub total : List ℕ → List ℕ → List ℕ → ℕ
total out mid rest = length out + length mid + length rest

-- What is shown of the loop with `fuel` turns.
abbrev pub Rec : ℕ → Type 0
Rec fuel =
    (out mid rest : List ℕ) (prev : ℕ)
    → Full rest
    → Before (held out mid rest) (length out + length mid) prev
    → length rest < fuel
    → Writes (resolve 0 prev out rest) (total out mid rest) (loop_at fuel out mid rest)

-- The same from a buffer, offsets and a length that are equal to these.
pub move :
    (fuel : ℕ) (rec : Rec fuel) (out mid rest path : List ℕ) (prev ptr dest n : ℕ)
    → Full rest
    → Before (held out mid rest) ptr prev
    → length rest < fuel
    → path ≡ held out mid rest
    → ptr ≡ length out + length mid
    → dest ≡ length out
    → n ≡ total out mid rest
    → Writes (resolve 0 prev out rest) n (remove_dots fuel path ptr dest)
move fuel rec out mid rest path prev ptr dest n full before small same p d e =
    subst (λ m. Writes (resolve 0 prev out rest) m (remove_dots fuel path ptr dest)) (sym e)
      (Writes-by (resolve 0 prev out rest) (total out mid rest) _ (loop_at fuel out mid rest)
        (ap (λ z. remove_dots fuel z ptr dest) same
          ∙ ap (λ a. remove_dots fuel (held out mid rest) a dest) p
          ∙ ap (λ b. remove_dots fuel (held out mid rest) (length out + length mid) b) d)
        (rec out mid rest prev full (subst (λ a. Before (held out mid rest) a prev) p before)
          small))

passed :
    (mid rest : List ℕ) (c x : ℕ)
    → mid ++ (c ∷ x ∷ buffer rest) ≡ ((mid ++ c ∷ []) ++ x ∷ []) ++ buffer rest
passed mid rest c x = sym (
    append_assoc (mid ++ c ∷ []) (x ∷ []) (buffer rest)
    ∙ append_assoc mid (c ∷ []) (x ∷ buffer rest))

pub skip_step :
    (fuel : ℕ) (rec : Rec fuel) (out mid rest : List ℕ) (c : ℕ)
    → Full rest
    → length rest < fuel
    → Writes (resolve 0 backslash out rest) (total out mid (c ∷ backslash ∷ rest)) (
        remove_dots fuel
          (held out mid (c ∷ backslash ∷ rest))
          (length out + length mid + 2)
          (length out))
skip_step fuel rec out mid rest c full small =
    let mid' = (mid ++ c ∷ []) ++ backslash ∷ [] in
    let n : length (mid ++ c ∷ []) ≡ length mid + 1 = omega (arith, length-append mid (c ∷ [])) in
    let n' : length mid' ≡ length mid + 2 =
      omega (arith, n, length-append (mid ++ c ∷ []) (backslash ∷ [])) in
    move fuel rec out mid' rest _ backslash (length out + length mid + 2) (length out) _ full
      (held-Before out (mid ++ c ∷ []) backslash rest _ (omega (arith, n))) small
      (ap (unwind out) (passed mid rest c backslash)) (omega (arith, n')) refl (omega (arith, n'))

pub climb_step :
    (fuel : ℕ) (rec : Rec fuel) (out mid rest : List ℕ) (c : ℕ)
    → Full rest
    → length rest < fuel
    → Writes
        (and_then (climb out) (λ above. resolve 0 backslash above rest))
        (total out mid (c ∷ dot_byte ∷ backslash ∷ rest))
        (do
          dest ← parent (held out mid (c ∷ dot_byte ∷ backslash ∷ rest)) (length out)
          remove_dots fuel
              (held out mid (c ∷ dot_byte ∷ backslash ∷ rest))
              (length out + length mid + 3)
              dest)
climb_step fuel rec out mid rest c full small =
    let junk = mid ++ buffer (c ∷ dot_byte ∷ backslash ∷ rest) in
    elim (parent-climb out junk) [
      | inl (none_above, outside) ↦ rw (none_above, outside) refl
      | inr (above, junk', found, e, same, n) ↦
          let behind = (junk' ++ mid) ++ c ∷ [] in
          let mid' = (behind ++ dot_byte ∷ []) ++ backslash ∷ [] in
          let l1 = length-append junk' mid in
          let l2 = length-append (junk' ++ mid) (c ∷ []) in
          let l3 = length-append behind (dot_byte ∷ []) in
          let l4 = length-append (behind ++ dot_byte ∷ []) (backslash ∷ []) in
          let whole : junk' ++ junk ≡ mid' ++ buffer rest =
            sym (append_assoc junk' mid (buffer (c ∷ dot_byte ∷ backslash ∷ rest)))
            ∙ sym (append_assoc (junk' ++ mid) (c ∷ []) (buffer (dot_byte ∷ backslash ∷ rest)))
            ∙ passed behind rest dot_byte backslash in
          rw (found, e)
            (move fuel rec above mid' rest _ backslash (length out + length mid + 3) (length above)
              _ full
              (held-Before above (behind ++ dot_byte ∷ []) backslash rest _
                (omega (arith, n, l1, l2, l3)))
              small (same ∙ ap (unwind above) whole) (omega (arith, n, l1, l2, l3, l4)) refl
              (omega (arith, n, l1, l2, l3, l4)))
    ]
