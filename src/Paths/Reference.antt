-- ===== src/Paths/Reference.antt =====
-- What `clean_path` of src/filewatch_win32.c means to write: a path that is read once from its left
-- to its right, with what is kept of it so far, the last byte first.
use mathlib.Core.List.{append_assoc}
use libresman.Base.{
  ℕ, zero, suc, ◌+◌, ◌≡◌, refl, sym, ap, ◌∙◌, ◌&&◌, Option, none, some, List, [], ◌∷◌, ◌++◌, ok,
  if◌then◌else◌, ◌==◌, get_elem?, set, length, length-append, arith, inl, inr, Bool-cases,
}
use libresman.Paths.{Part, here, up, kept, byte_at, found_byte, slash_before, backslash, dot_byte}

-- The bytes that were kept, the last one first, before the bytes `ys`.
abbrev pub unwind : List ℕ → List ℕ → List ℕ
unwind [] ys = ys
unwind (x ∷ xs) ys = unwind xs (x ∷ ys)

abbrev pub second_dot : List ℕ → Part
second_dot [] = kept
second_dot (c ∷ cs) = if c == backslash then up else kept

abbrev pub first_dot : List ℕ → Part
first_dot [] = kept
first_dot (c ∷ cs) =
    let rest = second_dot cs in
    if c == backslash then here else if c == dot_byte then rest else kept

-- What begins with the byte `c`, behind `prev` and before `rest`.
abbrev pub part_of : ℕ → ℕ → List ℕ → Part
part_of prev c rest =
    let dots = first_dot rest in if (prev == backslash) && (c == dot_byte) then dots else kept

-- What is kept up to its last slash, that slash included.
abbrev pub from_slash : List ℕ → List ℕ
from_slash [] = []
from_slash (c ∷ cs) = let rest = from_slash cs in if c == backslash then c ∷ cs else rest

-- The directory above: the slash at the end, and the byte before it, are not looked at.
abbrev pub climb : List ℕ → Option (List ℕ)
climb [] = none
climb (x ∷ []) = none
climb (x ∷ y ∷ kept_bytes) = some (from_slash (y ∷ kept_bytes))

abbrev pub by_part {ℓ} : {A : Type ℓ} → Part → A → A → A → A
by_part kept on over above = on
by_part here on over above = over
by_part up on over above = above

abbrev pub and_then : Option (List ℕ) → (List ℕ → Option (List ℕ)) → Option (List ℕ)
and_then none f = none
and_then (some above) f = f above

-- The path that is meant, with `skip` bytes to pass over; `none` where there is nothing to climb from.
abbrev pub resolve : ℕ → ℕ → List ℕ → List ℕ → Option (List ℕ)
resolve skip prev out [] = some out
resolve (suc skip) prev out (c ∷ rest) = resolve skip c out rest
resolve zero prev out (c ∷ rest) =
    by_part (part_of prev c rest) (resolve 0 c (c ∷ out) rest) (resolve 1 c out rest)
      (and_then (climb out) (λ above. resolve 2 c above rest))

pub get_elem?-unwind :
    (xs ys : List ℕ) (k : ℕ) → get_elem? (unwind xs ys) (length xs + k) ≡ get_elem? ys k
get_elem?-unwind [] ys k = ap (get_elem? ys) (omega arith)
get_elem?-unwind (x ∷ xs) ys k =
    ap (get_elem? (unwind xs (x ∷ ys))) (omega arith) ∙ get_elem?-unwind xs (x ∷ ys) (suc k)

set-unwind_at :
    (xs ys : List ℕ) (k c : ℕ) → set (unwind xs ys) (length xs + k) c ≡ unwind xs (set ys k c)
set-unwind_at [] ys k c = ap (λ m. set ys m c) (omega arith)
set-unwind_at (x ∷ xs) ys k c =
    ap (λ m. set (unwind xs (x ∷ ys)) m c) (omega arith) ∙ set-unwind_at xs (x ∷ ys) (suc k) c

pub set-unwind :
    (xs : List ℕ) (y : ℕ) (ys : List ℕ) (c : ℕ)
    → set (unwind xs (y ∷ ys)) (length xs) c ≡ unwind xs (c ∷ ys)
set-unwind xs y ys c =
    ap (λ m. set (unwind xs (y ∷ ys)) m c) (omega arith) ∙ set-unwind_at xs (y ∷ ys) 0 c

-- A byte of the buffer that stands `k` behind those that were kept.
pub byte_at-unwind :
    (xs ys : List ℕ) (p k c : ℕ)
    → p ≡ length xs + k
    → get_elem? ys k ≡ some c
    → byte_at (unwind xs ys) p ≡ ok c
byte_at-unwind xs ys p k c e at =
    ap (byte_at (unwind xs ys)) e ∙ ap found_byte (get_elem?-unwind xs ys k ∙ at)

-- The search of the code for a slash, on what was kept.
pub slash_before-unwind :
    (x : ℕ) (r junk : List ℕ)
    → (d c : ℕ) × (slash_before (unwind (x ∷ r) junk) (length r) ≡ ok d)
      × (byte_at (unwind (x ∷ r) junk) d ≡ ok c)
      × ((if c == backslash then d + 1 else d) ≡ length (from_slash (x ∷ r)))
unfolding slash_before
slash_before-unwind x [] junk = elim (Bool-cases (x == backslash)) [
  | inl found ↦ (0, x, refl, refl, rw found refl)
  | inr other ↦ (0, x, refl, refl, rw other refl)
]
slash_before-unwind x (y ∷ r) junk =
    let here = byte_at-unwind (y ∷ r) (x ∷ junk) (length (y ∷ r)) 0 x (omega arith) refl in
    elim (Bool-cases (x == backslash)) [
      | inl found ↦ (suc (length r), x, rw (here, found) refl, here, rw found (omega arith))
      | inr other ↦
          let (d, c, e, at, n) = slash_before-unwind y r (x ∷ junk) in
          (d, c, rw (here, other) e, at, rw other n)
    ]

-- What is kept stands before what is not.
pub unwind-from_slash :
    (r junk : List ℕ)
    → (junk' : List ℕ) × (unwind r junk ≡ unwind (from_slash r) (junk' ++ junk))
      × (length junk' + length (from_slash r) ≡ length r)
unwind-from_slash [] junk = ([], refl, refl)
unwind-from_slash (x ∷ r) junk = elim (Bool-cases (x == backslash)) [
  | inl found ↦ ([], rw found refl, rw found (omega arith))
  | inr other ↦
      let (junk', e, n) = unwind-from_slash r (x ∷ junk) in
      (
        junk' ++ x ∷ [],
        rw other (e ∙ ap (unwind (from_slash r)) (sym (append_assoc junk' (x ∷ []) junk))),
        rw other (omega (arith, n, length-append junk' (x ∷ []))),
      )
]
