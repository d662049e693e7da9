-- ===== src/Paths.antt =====
-- `clean_path` of src/filewatch_win32.c, which works in place. A path is the list of the bytes in its
-- buffer, with the zero that ends it; a pointer is an offset.
pub mod Clean
pub mod Ends
pub mod Reference
pub mod Resolved
pub mod Written
pub mod Meant
mod Tests
use libresman.Base.{
  ℕ, zero, suc, ◌+◌, ◌-◌, ◌&&◌, Option, none, some, List, [], ◌∷◌, Exec, ok, out_of_bounds, no_fuel,
  if◌then◌else◌, ltb, ◌==◌, get_elem?, set, length,
}
use libresman.Base.Outcome.{◌>>=◌}

-- The bytes '.', '/' and '\'.
abbrev pub dot_byte : ℕ
dot_byte = 46

abbrev pub slash : ℕ
slash = 47

abbrev pub backslash : ℕ
backslash = 92

-- The first loop.
unfoldable pub to_backslashes : List ℕ → List ℕ
to_backslashes [] = []
to_backslashes (c ∷ cs) =
    let rest = to_backslashes cs in
    if c == 0 then c ∷ cs else (if c == slash then backslash else c) ∷ rest

abbrev pub found_byte : Option ℕ → Exec ℕ
found_byte none = out_of_bounds
found_byte (some c) = ok c

-- `*p`
abbrev pub byte_at : List ℕ → ℕ → Exec ℕ
byte_at path p = found_byte (get_elem? path p)

-- What stands at `ptr`: `.\` or `..\` behind a slash, or something to keep.
pub data Part : Type 0 where
  here : Part
  up : Part
  kept : Part

-- Behind a `.`, whose offset is `ptr`: `c1` is the next byte.
unfoldable pub part_of_dots : List ℕ → ℕ → ℕ → Exec Part
part_of_dots path ptr c1 =
    if c1 == backslash
    then ok here
    else if c1 == dot_byte
    then (do c2 ← byte_at path (ptr + 2); ok (if c2 == backslash then up else kept))
    else ok kept

-- Behind a byte `p`, at the byte `c`, whose offset is `ptr`.
unfoldable pub part_behind : List ℕ → ℕ → ℕ → ℕ → Exec Part
unfolding part_of_dots
part_behind path ptr p c =
    if (p == backslash) && (c == dot_byte)
    then (do c1 ← byte_at path (ptr + 1); part_of_dots path ptr c1)
    else ok kept

unfoldable pub part_at : List ℕ → ℕ → ℕ → Exec Part
unfolding part_behind
part_at path zero c = ok kept
part_at path (suc before) c = do p ← byte_at path before; part_behind path (suc before) p c

-- The search backwards for a slash, which stops at the beginning.
unfoldable pub slash_before : List ℕ → ℕ → Exec ℕ
slash_before path zero = ok zero
slash_before path (suc dest) =
    let rest = slash_before path dest in
    do c ← byte_at path (suc dest); if c == backslash then ok (suc dest) else rest

-- Where to go on writing for a `..\`. `dest -= 2` may leave the buffer.
unfoldable pub parent : List ℕ → ℕ → Exec ℕ
unfolding slash_before
parent path dest = if ltb dest 2 then out_of_bounds else (do
  d ← slash_before path (dest - 2)
  c ← byte_at path d
  ok (if c == backslash then d + 1 else d))

-- The second loop. At the byte `c`, `rest` is the loop from the next offsets on.
abbrev pub next_part : (List ℕ → ℕ → ℕ → Exec (List ℕ)) → List ℕ → ℕ → ℕ → ℕ → Part → Exec (List ℕ)
next_part rest path ptr dest c here = rest path (ptr + 2) dest
next_part rest path ptr dest c up = do dest' ← parent path dest; rest path (ptr + 3) dest'
next_part rest path ptr dest c kept =
    rest (if dest == ptr then path else set path dest c) (ptr + 1) (dest + 1)

unfoldable pub remove_dots : ℕ → List ℕ → ℕ → ℕ → Exec (List ℕ)
unfolding part_at parent
remove_dots zero path ptr dest = no_fuel
remove_dots (suc fuel) path ptr dest = do
  c ← byte_at path ptr
  if c == 0
      then ok path
      else (do part ← part_at path ptr c; next_part (remove_dots fuel) path ptr dest c part)

-- The fuel is the size of the buffer.
unfoldable pub clean_path : List ℕ → Exec (List ℕ)
unfolding to_backslashes remove_dots
clean_path path = remove_dots (length path) (to_backslashes path) 0 0
