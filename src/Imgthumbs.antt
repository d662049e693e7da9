-- ===== src/Imgthumbs.antt =====
-- The example program examples/imgthumbs, the client of the resource manager: the data of
-- src/thumbs.h and the steps through its pointers. A pointer to a thumbnail is the number of its
-- block, and null is `none`.
pub mod Thumbs
pub mod Create
pub mod Draw
pub mod Chain
pub mod Link
pub mod Unlink
pub mod Found
pub mod Freed
pub mod Callbacks
pub mod Held
pub mod Turned
pub mod Loading
pub mod Taken
pub mod Finishing
pub mod Viewer
pub mod Clicks
pub mod Steady
pub mod Motions
pub mod Handlers
pub mod Fresh
pub mod Growing
pub mod Life
pub mod Lives
pub mod Safe
pub mod Listing
pub mod Start
mod Samples
mod Tests
mod LifeTests
use libresman.Base.{
  ℕ, Bool, true, false, Option, none, some, List, [], ◌∷◌, Exec, ok, null_deref, out_of_bounds,
  if◌then◌else◌, ◌==◌,
}
use libresman.Base.Outcome.{◌>>=◌}

-- The numbers of the C compiler: `Float` is `float` and `Double` is `double`. An `int` is its bit
-- pattern; `lit a b` is the constant a / b.
pub record Floats : Type 1 where
  pub Float : Type 0
  pub Double : Type 0
  pub of_int : ℕ → Float
  pub double_of_int : ℕ → Double
  pub lit : ℕ → ℕ → Double
  pub widen : Float → Double
  pub narrow : Double → Float
  pub add : Float → Float → Float
  pub div : Float → Float → Float
  pub le : Float → Float → Bool
  pub lt : Float → Float → Bool
  pub double_sub : Double → Double → Double
  pub double_mul : Double → Double → Double
  pub double_div : Double → Double → Double
  pub double_le : Double → Double → Bool

-- `struct img_pixmap`, without its pixels.
pub record Image : Type 0 where
  pub width : ℕ
  pub height : ℕ

-- `struct thumbnail`; `F` is `float`.
pub record Thumbnail (F : Type 0) : Type 0 where
  pub fname : Option (List ℕ)
  pub tex : ℕ
  pub aspect : F
  pub pos_x : F
  pub pos_y : F
  pub size_x : F
  pub size_y : F
  pub img : Option Image
  pub next : Option ℕ
  pub prev : Option ℕ
  pub list : Option ℕ
  pub load_count : ℕ

-- The thumbnails by their blocks, the blocks of file names that were not given back, the textures
-- that were deleted, and the depth of the stack of modelview matrices.
pub record Store (F : Type 0) : Type 0 where
  pub cell : ℕ → Option (Thumbnail F)
  pub names : ℕ
  pub deleted : List ℕ
  pub depth : ℕ

module _ {F : Type 0} where
  abbrev pub update :
      (ℕ → Option (Thumbnail F)) → ℕ → Option (Thumbnail F) → ℕ → Option (Thumbnail F)
  update cell n v m = if m == n then v else cell m

  -- `*p` for a block, which may have been given back.
  abbrev pub alive : Option (Thumbnail F) → Exec (Thumbnail F)
  alive none = out_of_bounds
  alive (some t) = ok t

  -- `*p`
  abbrev pub thumb_at : Store F → Option ℕ → Exec (Thumbnail F)
  thumb_at s none = null_deref
  thumb_at s (some n) = alive (s.cell n)

  abbrev pub write_thumb : Store F → ℕ → Option (Thumbnail F) → Store F
  write_thumb s n v = record s { cell = update s.cell n v }

  -- A write of some fields of `*p`.
  abbrev pub modify : Store F → Option ℕ → (Thumbnail F → Thumbnail F) → Exec (Store F)
  modify s none f = null_deref
  modify s (some n) f = do t ← alive (s.cell n); ok (write_thumb s n (some (f t)))

  -- The same, unless `p` is null.
  abbrev pub modify_if : Store F → Option ℕ → (Thumbnail F → Thumbnail F) → Exec (Store F)
  modify_if s none f = ok s
  modify_if s (some n) f = modify s (some n) f
