-- ===== src/Base/Int.antt =====
-- Signed integers over the native numbers, and the tests against 0 that the C code makes of them.
use Prim.Native.Nat.{ℕ, zero, suc, Ordering}

-- `negsuc n` is -(n + 1).
pub data ℤ : Type 0 where
  pos : ℕ → ℤ
  negsuc : ℕ → ℤ

-- What the tests `x < 0` and `x > 0` tell of `x`.
abbrev pub sign : ℤ → Ordering
sign (pos zero) = Ordering.eq
sign (pos (suc n)) = Ordering.gt
sign (negsuc n) = Ordering.lt
