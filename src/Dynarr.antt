-- ===== src/Dynarr.antt =====
-- src/dynarr.c: arrays that grow and shrink, used as stacks. An `int` is a number below 2 ^ 32, and
-- products of sizes wrap around. The buffer is the list of the items that fit in it, `none` where
-- nothing was written. `mem` says of a size in bytes whether `malloc` or `realloc` grants it.
-- An array is never null here, so that `dynarr_resize` has no branch for that.
pub mod Stack
pub mod Grow
pub mod Shrink
mod Tests
use libresman.Base.{
  ℕ, zero, suc, ◌+◌, ◌-◌, ◌*◌, ◌/◌, ◌%◌, ◌^◌, Bool, true, false, not, Option, none, some, List, [],
  ◌∷◌, ◌++◌, Exec, ok, out_of_bounds, if◌then◌else◌, ltb, leb, ◌==◌, length, set, take, replicate,
}
use libresman.Base.Outcome.{◌>>=◌}

-- `struct arrdesc` and the buffer behind it.
pub record Dynarr {ℓ} (A : Type ℓ) : Type ℓ where
  pub nelem : ℕ
  pub szelem : ℕ
  pub max_elem : ℕ
  pub bufsz : ℕ
  pub slots : List (Option A)

-- `sizeof(struct arrdesc)`
abbrev pub desc_size : ℕ
desc_size = 16

abbrev pub mul32 : ℕ → ℕ → ℕ
mul32 a b = (a * b) % 2 ^ 32

-- What an `int` becomes when it is added to a `size_t`.
abbrev pub request : ℕ → ℕ
request size =
    (if ltb size (2 ^ 31) then size + desc_size else size + (2 ^ 64 - 2 ^ 32) + desc_size) % 2 ^ 64

module _ {ℓ} {A : Type ℓ} where
  -- The items that a buffer of another size keeps.
  abbrev pub refit : ℕ → List (Option A) → List (Option A)
  refit n xs = take n (xs ++ replicate (n - length xs) none)

  unfoldable pub dynarr_alloc : (ℕ → Bool) → ℕ → ℕ → Option (Dynarr A)
  dynarr_alloc mem elem szelem =
      if mem (request (mul32 elem szelem))
      then some (record {
        nelem = elem;
        szelem = szelem;
        max_elem = elem;
        bufsz = mul32 elem szelem;
        slots = replicate (mul32 elem szelem / szelem) none;
      })
      else none

  unfoldable pub dynarr_resize : (ℕ → Bool) → Dynarr A → ℕ → Option (Dynarr A)
  dynarr_resize mem da elem =
      let newsz = mul32 da.szelem elem in
      if mem (request newsz)
      then some (record {
        nelem = elem;
        szelem = da.szelem;
        max_elem = elem;
        bufsz = newsz;
        slots = refit (newsz / da.szelem) da.slots;
      })
      else none

  unfoldable pub dynarr_empty : Dynarr A → Bool
  dynarr_empty da = if da.nelem == 0 then true else false

  unfoldable pub dynarr_size : Dynarr A → ℕ
  dynarr_size da = da.nelem

  -- `memcpy(da + nelem++ * szelem, item, szelem)`
  unfoldable pub append_item : Dynarr A → A → Exec (Dynarr A)
  append_item da item =
      if ltb da.nelem (length da.slots)
      then ok (record da { nelem = da.nelem + 1; slots = set da.slots da.nelem (some item) })
      else out_of_bounds

  -- The end of `dynarr_push`; a null `item` leaves the array alone.
  unfoldable pub put_item : Dynarr A → Option A → Exec (Dynarr A)
  unfolding append_item
  put_item da none = ok da
  put_item da (some item) = append_item da item

  -- Where no memory is granted the array comes back as it was.
  unfoldable pub dynarr_push : (ℕ → Bool) → Dynarr A → Option A → Exec (Dynarr A)
  unfolding dynarr_resize put_item
  dynarr_push mem da item =
      if leb da.max_elem da.nelem
      then elim (dynarr_resize mem da (if da.max_elem == 0 then 1 else mul32 da.max_elem 2)) [
        | none ↦ ok da
        | some tmp ↦ put_item (record tmp { nelem = da.nelem }) item
      ]
      else put_item da item

  unfoldable pub dynarr_pop : (ℕ → Bool) → Dynarr A → Dynarr A
  unfolding dynarr_resize
  dynarr_pop mem da =
      if da.nelem == 0
      then da
      else if leb da.nelem (da.max_elem / 3)
      then elim (dynarr_resize mem da (da.max_elem / 2)) [
        | none ↦ da
        | some tmp ↦ record tmp { nelem = da.nelem - 1 }
      ]
      else record da { nelem = da.nelem - 1 }
