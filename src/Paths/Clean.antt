-- ===== src/Paths/Clean.antt =====
-- How `clean_path` of src/filewatch_win32.c ends.
use libresman.Base.{
  ℕ, zero, suc, ◌+◌, ◌-◌, ◌≤◌, ◌<◌, ◌≡◌, ◌≢◌, ◌⊎◌, refl, ap, true, false, ◌&&◌, List, [], ◌∷◌, ◌++◌,
  ok, out_of_bounds, if◌then◌else◌, ltb, ◌==◌, set, length, arith, inl, inr, Bool-cases,
}
use libresman.Paths.{
  here, up, kept, byte_at, part_of_dots, part_behind, part_at, slash_before, parent, to_backslashes,
  backslash, dot_byte, slash,
}

-- Bytes of a text: none is zero.
abbrev pub Full : List ℕ → Type 0
Full [] = Unit
Full (c ∷ cs) = (c ≢ 0) × Full cs

pub Full-set : (cs : List ℕ) (i c : ℕ) → Full cs → c ≢ 0 → Full (set cs i c)
Full-set [] i c f ne = tt
Full-set (d ∷ cs) zero c f ne = (ne, f.1)
Full-set (d ∷ cs) (suc i) c f ne = (f.0, Full-set cs i c f.1 ne)

-- The buffer of a text.
abbrev pub buffer : List ℕ → List ℕ
buffer cs = cs ++ 0 ∷ []

pub set-buffer : (cs : List ℕ) (i c : ℕ) → i < length cs → set (buffer cs) i c ≡ buffer (set cs i c)
set-buffer [] i c h = absurd (omega (arith, h))
set-buffer (d ∷ cs) zero c h = refl
set-buffer (d ∷ cs) (suc i) c h = ap (λ zs. d ∷ zs) (set-buffer cs i c (omega (arith, h)))

-- A byte is read up to the zero.
pub read_byte :
    (cs : List ℕ) (i : ℕ)
    → i ≤ length cs
    → (c : ℕ) × (byte_at (buffer cs) i ≡ ok c) × (c ≢ 0 → i < length cs)
read_byte [] zero h = (0, refl, λ ne. absurd (ne refl))
read_byte [] (suc i) h = absurd (omega (arith, h))
read_byte (d ∷ cs) zero h = (d, refl, λ ne. omega arith)
read_byte (d ∷ cs) (suc i) h =
    let (c, e, more) = read_byte cs i (omega (arith, h)) in (c, e, λ ne. omega (arith, more ne))

pub to_backslashes-buffer :
    (cs : List ℕ)
    → Full cs
    → (ds : List ℕ) × (to_backslashes (buffer cs) ≡ buffer ds) × Full ds × (length ds ≡ length cs)
unfolding to_backslashes
to_backslashes-buffer [] f = ([], refl, tt, refl)
to_backslashes-buffer (c ∷ cs) (ne, f) =
    let (ds, e, g, n) = to_backslashes-buffer cs f in
    let going : (c == 0) ≡ false = ground (arith, ne) in
    ((if c == slash then backslash else c) ∷ ds, rw (going, e) refl, (slashed c ne, g), ap suc n)
  where
    slashed : (c : ℕ) → c ≢ 0 → (if c == slash then backslash else c) ≢ 0
    slashed c ne = ground (arith, ne)

-- What is found at `ptr`, and how far it goes.
pub data Finds (cs : List ℕ) (ptr c : ℕ) : Type 0 where
  keeps : part_at (buffer cs) ptr c ≡ ok kept → Finds cs ptr c
  skips : part_at (buffer cs) ptr c ≡ ok here → ptr + 2 ≤ length cs → Finds cs ptr c
  climbs : part_at (buffer cs) ptr c ≡ ok up → ptr + 3 ≤ length cs → Finds cs ptr c

pub part_at-Finds : (cs : List ℕ) (ptr c : ℕ) → ptr < length cs → Finds cs ptr c
unfolding part_at part_behind part_of_dots
part_at-Finds cs zero c h = keeps refl
part_at-Finds cs (suc before) c h =
    let (p, e, _) = read_byte cs before (omega (arith, h)) in
    let (c1, e1, more1) = read_byte cs (suc before + 1) (omega (arith, h)) in
    elim (Bool-cases ((p == backslash) && (c == dot_byte))) [
      | inr other ↦ keeps (rw (e, other) refl)
      | inl dotted ↦ elim (Bool-cases (c1 == backslash)) [
        | inl ends ↦
            skips (rw (e, dotted, e1, ends) refl)
              (omega (arith, more1 (is_nonzero c1 backslash ends (omega arith))))
        | inr goes ↦ elim (Bool-cases (c1 == dot_byte)) [
          | inr other ↦ keeps (rw (e, dotted, e1, goes, other) refl)
          | inl twice ↦
              let lt = more1 (is_nonzero c1 dot_byte twice (omega arith)) in
              let (c2, e2, more2) = read_byte cs (suc before + 2) (omega (arith, lt)) in
              elim (Bool-cases (c2 == backslash)) [
                | inr other ↦ keeps (rw (e, dotted, e1, goes, twice, e2, other) refl)
                | inl ends ↦
                    climbs (rw (e, dotted, e1, goes, twice, e2, ends) refl)
                      (omega (arith, more2 (is_nonzero c2 backslash ends (omega arith))))
              ]
        ]
      ]
    ]
  where
    is_nonzero : (c d : ℕ) → (c == d) ≡ true → 0 < d → c ≢ 0
    is_nonzero c d e h = ground (arith, e, h)

slash_before-le :
    (cs : List ℕ) (dest : ℕ)
    → dest ≤ length cs
    → (d : ℕ) × (slash_before (buffer cs) dest ≡ ok d) × (d ≤ dest)
unfolding slash_before
slash_before-le cs zero h = (0, refl, omega arith)
slash_before-le cs (suc dest) h =
    let (c, e, _) = read_byte cs (suc dest) h in
    let (d, e', le) = slash_before-le cs dest (omega (arith, h)) in
    elim (Bool-cases (c == backslash)) [
      | inl found ↦ (suc dest, rw (e, found) refl, omega arith)
      | inr other ↦ (d, rw (e, other) e', omega (arith, le))
    ]

pub parent-le :
    (cs : List ℕ) (dest : ℕ)
    → dest ≤ length cs
    → ((d : ℕ) × (parent (buffer cs) dest ≡ ok d) × (d ≤ dest))
      ⊎ (parent (buffer cs) dest ≡ out_of_bounds)
unfolding parent
parent-le cs dest h = elim (Bool-cases (ltb dest 2)) [
  | inl short ↦ inr (rw short refl)
  | inr long ↦
      let two : 2 ≤ dest = ground (arith, long) in
      let (d, e, le) = slash_before-le cs (dest - 2) (omega (arith, h)) in
      let (c, e', _) = read_byte cs d (omega (arith, h, le)) in
      elim (Bool-cases (c == backslash)) [
        | inl found ↦ inl (d + 1, rw (long, e, e', found) refl, omega (arith, le, two))
        | inr other ↦ inl (d, rw (long, e, e', other) refl, omega (arith, le))
      ]
]
