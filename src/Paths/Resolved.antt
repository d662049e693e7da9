-- ===== src/Paths/Resolved.antt =====
-- The parts that `clean_path` of src/filewatch_win32.c finds, and the climb to the directory above,
-- by the path that is meant.
use mathlib.Core.List.{append_assoc}
use libresman.Base.{
  ℕ, suc, ◌+◌, ◌-◌, ◌≡◌, ◌⊎◌, refl, sym, ap, ◌∙◌, true, false, ◌&&◌, none, some, List, [], ◌∷◌,
  ◌++◌, ok, out_of_bounds, if◌then◌else◌, ltb, ◌==◌, get_elem?, length, length-append, arith, inl,
  inr, Bool-cases,
}
use libresman.Base.Outcome.{◌>>=◌}
use libresman.Paths.{
  here, up, kept, byte_at, part_of_dots, part_behind, part_at, parent, backslash, dot_byte,
}
use libresman.Paths.Clean.{buffer}
use libresman.Paths.Reference.{
  unwind, part_of, first_dot, second_dot, from_slash, climb, slash_before-unwind, unwind-from_slash,
}

pub is_byte : (c d : ℕ) → (c == d) ≡ true → c ≡ d
is_byte c d e = ground (arith, e)

-- What follows, by what is found.
pub data Shape (prev c : ℕ) (rest : List ℕ) : Type 0 where
  keeps : part_of prev c rest ≡ kept → Shape prev c rest
  skips :
      (rest' : List ℕ) → rest ≡ backslash ∷ rest' → part_of prev c rest ≡ here → Shape prev c rest
  climbs :
      (rest' : List ℕ)
      → rest ≡ dot_byte ∷ backslash ∷ rest'
      → part_of prev c rest ≡ up
      → Shape prev c rest

pub part_of-Shape : (prev c : ℕ) (rest : List ℕ) → Shape prev c rest
part_of-Shape prev c rest = elim (Bool-cases ((prev == backslash) && (c == dot_byte))) [
  | inr other ↦ keeps (rw other refl)
  | inl dotted ↦ by_rest rest dotted
]
  where
    by_rest : (rest : List ℕ) → ((prev == backslash) && (c == dot_byte)) ≡ true → Shape prev c rest
    by_rest [] dotted = keeps (rw dotted refl)
    by_rest (c1 ∷ []) dotted = elim (Bool-cases (c1 == backslash)) [
      | inl ends ↦ skips [] (ap (λ b. b ∷ []) (is_byte c1 backslash ends)) (rw (dotted, ends) refl)
      | inr goes ↦ elim (Bool-cases (c1 == dot_byte)) [
        | inl twice ↦ keeps (rw (dotted, goes, twice) refl)
        | inr other ↦ keeps (rw (dotted, goes, other) refl)
      ]
    ]
    by_rest (c1 ∷ c2 ∷ rest) dotted = elim (Bool-cases (c1 == backslash)) [
      | inl ends ↦
          skips (c2 ∷ rest) (ap (λ b. b ∷ c2 ∷ rest) (is_byte c1 backslash ends))
            (rw (dotted, ends) refl)
      | inr goes ↦ elim (Bool-cases (c1 == dot_byte)) [
        | inr other ↦ keeps (rw (dotted, goes, other) refl)
        | inl twice ↦ elim (Bool-cases (c2 == backslash)) [
          | inr other ↦ keeps (rw (dotted, goes, twice, other) refl)
          | inl ends ↦
              climbs rest
                (ap (λ b. b ∷ c2 ∷ rest) (is_byte c1 dot_byte twice)
                  ∙ ap (λ b. dot_byte ∷ b ∷ rest) (is_byte c2 backslash ends))
                (rw (dotted, goes, twice, ends) refl)
        ]
      ]
    ]

-- The byte before `ptr`; zero stands for none.
abbrev pub Before : List ℕ → ℕ → ℕ → Type 0
Before path ptr prev =
    ((ptr ≡ 0) × (prev ≡ 0)) ⊎ ((before : ℕ) × (ptr ≡ suc before) × (byte_at path before ≡ ok prev))

-- The bytes behind `ptr`.
abbrev pub Ahead : List ℕ → ℕ → List ℕ → Type 0
Ahead path ptr rest =
    (k x : ℕ) → get_elem? (buffer rest) k ≡ some x → byte_at path (ptr + (1 + k)) ≡ ok x

part_of_dots-first_dot :
    (path : List ℕ) (ptr : ℕ) (rest : List ℕ)
    → Ahead path ptr rest
    → (do c1 ← byte_at path (ptr + 1); part_of_dots path ptr c1) ≡ ok (first_dot rest)
unfolding part_of_dots
part_of_dots-first_dot path ptr [] ahead = rw (ahead 0 0 refl) refl
part_of_dots-first_dot path ptr (c1 ∷ rest) ahead = elim (Bool-cases (c1 == backslash)) [
  | inl ends ↦ rw (ahead 0 c1 refl, ends) refl
  | inr goes ↦ elim (Bool-cases (c1 == dot_byte)) [
    | inr other ↦ rw (ahead 0 c1 refl, goes, other) refl
    | inl twice ↦ rw (ahead 0 c1 refl, goes, twice) (second rest (λ x. ahead 1 x))
  ]
]
  where
    second :
        (rest : List ℕ)
        → ((x : ℕ) → get_elem? (buffer rest) 0 ≡ some x → byte_at path (ptr + 2) ≡ ok x)
        → (do c2 ← byte_at path (ptr + 2); ok (if c2 == backslash then up else kept))
          ≡ ok (second_dot rest)
    second [] next = rw (next 0 refl) refl
    second (c2 ∷ rest) next = rw (next c2 refl) refl

pub part_at-part_of :
    (path : List ℕ) (ptr prev c : ℕ) (rest : List ℕ)
    → Before path ptr prev
    → Ahead path ptr rest
    → part_at path ptr c ≡ ok (part_of prev c rest)
unfolding part_at part_behind
part_at-part_of path ptr prev c rest (inl (start, no_byte)) ahead = rw (start, no_byte) refl
part_at-part_of path ptr prev c rest (inr (before, e, at)) ahead =
    elim (Bool-cases ((prev == backslash) && (c == dot_byte))) [
      | inr other ↦ rw (e, at, other) refl
      | inl dotted ↦
          let dots = part_of_dots-first_dot path ptr rest ahead in rw (e, at, dotted) (rw e at dots)
    ]

-- The climb of the code.
pub parent-climb :
    (out junk : List ℕ)
    → ((climb out ≡ none) × (parent (unwind out junk) (length out) ≡ out_of_bounds))
      ⊎ ((above junk' : List ℕ) × (climb out ≡ some above)
          × (parent (unwind out junk) (length out) ≡ ok (length above))
          × (unwind out junk ≡ unwind above (junk' ++ junk))
          × (length above + length junk' ≡ length out))
unfolding parent
parent-climb [] junk = inl (refl, refl)
parent-climb (x ∷ []) junk = inl (refl, refl)
parent-climb (x ∷ y ∷ r) junk =
    let (d, c, e, at, n) = slash_before-unwind y r (x ∷ junk) in
    let (junk', same, m) = unwind-from_slash (y ∷ r) (x ∷ junk) in
    let long : ltb (length (x ∷ y ∷ r)) 2 ≡ false = ground arith in
    let two : length (x ∷ y ∷ r) - 2 ≡ length r = omega arith in
    inr (
      from_slash (y ∷ r),
      junk' ++ x ∷ [],
      refl,
      rw (long, two, e, at) (ap ok n),
      same ∙ ap (unwind (from_slash (y ∷ r))) (sym (append_assoc junk' (x ∷ []) junk)),
      omega (arith, m, length-append junk' (x ∷ [])),
    )
