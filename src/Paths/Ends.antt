-- ===== src/Paths/Ends.antt =====
-- `clean_path` of src/filewatch_win32.c as a whole.
use libresman.Base.{
  ℕ, zero, suc, ◌+◌, ◌≤◌, ◌<◌, ◌≡◌, ◌≢◌, ◌⊎◌, refl, sym, ◌∙◌, subst, false, List, [], ◌∷◌, Exec, ok,
  out_of_bounds, if◌then◌else◌, ◌==◌, set, length, length-set, length-append, arith, inl, inr,
  Bool-cases,
}
use libresman.Paths.{remove_dots, clean_path}
use libresman.Paths.Clean.{
  Full, Full-set, buffer, set-buffer, read_byte, to_backslashes-buffer, keeps, skips, climbs,
  part_at-Finds, parent-le,
}

-- The call ends with a text of the same length in the buffer, or leaves the buffer.
abbrev pub Ends : List ℕ → Exec (List ℕ) → Type 0
Ends cs e =
    ((ds : List ℕ) × (e ≡ ok (buffer ds)) × Full ds × (length ds ≡ length cs)) ⊎ (e ≡ out_of_bounds)

Ends-from : (cs ds : List ℕ) (e : Exec (List ℕ)) → length ds ≡ length cs → Ends ds e → Ends cs e
Ends-from cs ds e n (inl (es, end, f, m)) = inl (es, end, f, m ∙ n)
Ends-from cs ds e n (inr out) = inr out

Ends-by : (cs : List ℕ) (e e' : Exec (List ℕ)) → e ≡ e' → Ends cs e' → Ends cs e
Ends-by cs e e' same ends = subst (Ends cs) (sym same) ends

-- The byte `c` is kept: written to `dest`, if that is not where it stands.
keep :
    (cs : List ℕ) (ptr dest c : ℕ)
    → Full cs
    → c ≢ 0
    → dest ≤ ptr
    → ptr < length cs
    → (ds : List ℕ) × ((if dest == ptr then buffer cs else set (buffer cs) dest c) ≡ buffer ds)
      × Full ds
      × (length ds ≡ length cs)
keep cs ptr dest c f ne le lt = elim (Bool-cases (dest == ptr)) [
  | inl same ↦ (cs, rw same refl, f, refl)
  | inr apart ↦ (
    set cs dest c,
    rw apart (set-buffer cs dest c (omega (arith, le, lt))),
    Full-set cs dest c f ne,
    length-set cs dest c,
  )
]

remove_dots-Ends :
    (fuel : ℕ) (cs : List ℕ) (ptr dest : ℕ)
    → Full cs
    → dest ≤ ptr
    → ptr ≤ length cs
    → length cs < fuel + ptr
    → Ends cs (remove_dots fuel (buffer cs) ptr dest)
unfolding remove_dots
remove_dots-Ends zero cs ptr dest f le within fuelled = absurd (omega (arith, within, fuelled))
remove_dots-Ends (suc fuel) cs ptr dest f le within fuelled =
    let (c, e, more) = read_byte cs ptr within in
    elim (Bool-cases (c == 0)) [
      | inl over ↦ inl (cs, rw (e, over) refl, f, refl)
      | inr byte ↦
          let ne : c ≢ 0 = is_nonzero c byte in
          let lt = more ne in
          elim (part_at-Finds cs ptr c lt) [
            | keeps found ↦
                let (ds, same, g, n) = keep cs ptr dest c f ne le lt in
                Ends-by cs _ (remove_dots fuel (buffer ds) (ptr + 1) (dest + 1))
                  (rw (e, byte, found, same) refl)
                  (Ends-from cs ds _ n (
                    remove_dots-Ends fuel ds (ptr + 1) (dest + 1) g (omega (arith, le))
                      (omega (arith, lt, n)) (omega (arith, fuelled, n))))
            | skips found far ↦
                Ends-by cs _ (remove_dots fuel (buffer cs) (ptr + 2) dest)
                  (rw (e, byte, found) refl)
                  (remove_dots-Ends fuel cs (ptr + 2) dest f (omega (arith, le))
                    (omega (arith, far)) (omega (arith, fuelled)))
            | climbs found far ↦ elim (parent-le cs dest (omega (arith, le, within))) [
              | inr out ↦ inr (rw (e, byte, found, out) refl)
              | inl (d, up, le') ↦
                  Ends-by cs _ (remove_dots fuel (buffer cs) (ptr + 3) d)
                    (rw (e, byte, found, up) refl)
                    (remove_dots-Ends fuel cs (ptr + 3) d f (omega (arith, le, le'))
                      (omega (arith, far)) (omega (arith, fuelled)))
            ]
          ]
    ]
  where
    is_nonzero : (c : ℕ) → (c == 0) ≡ false → c ≢ 0
    is_nonzero c e = ground (arith, e)

-- `clean_path` ends on every path: its loops need no more turns than the buffer has bytes. If it does
-- not leave the buffer, then what it leaves in there is a text that is as long as the path was,
-- however many of its parts were removed.
pub clean_path-Ends : (cs : List ℕ) → Full cs → Ends cs (clean_path (buffer cs))
unfolding clean_path
clean_path-Ends cs f =
    let (ds, e, g, n) = to_backslashes-buffer cs f in
    rw e (
      Ends-from cs ds _ n (
        remove_dots-Ends (length (buffer cs)) ds 0 0 g (omega arith) (omega arith)
          (omega (arith, n, length-append cs (0 ∷ [])))))
