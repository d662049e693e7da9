-- ===== src/Base/Outcome.antt =====
-- The outcome of C code that may dereference a null pointer, read or write outside an array, or stop
-- the program by a failed `assert`.
-- `no_fuel` is no outcome of the code: it says that a recursion was given too little fuel.
use mathlib.Core.Path.{◌≡◌, refl}

pub data Exec {ℓ} (A : Type ℓ) : Type ℓ where
  ok : A → Exec A
  null_deref : Exec A
  out_of_bounds : Exec A
  aborted : Exec A
  no_fuel : Exec A

infixl 5 ◌>>=◌
abbrev pub ◌>>=◌ {ℓ κ} : {A : Type ℓ} {B : Type κ} → Exec A → (A → Exec B) → Exec B
ok a >>= f = f a
null_deref >>= f = null_deref
out_of_bounds >>= f = out_of_bounds
aborted >>= f = aborted
no_fuel >>= f = no_fuel

module _ {ℓ κ} {A : Type ℓ} {B : Type κ} where
  -- A chain that succeeds had a first part that succeeds.
  pub ok_of_chain :
      {z : B} (m : Exec A) (k : A → Exec B) → (m >>= k) ≡ ok z → (a : A) × (m ≡ ok a) × (k a ≡ ok z)
  ok_of_chain null_deref k e = cc
  ok_of_chain out_of_bounds k e = cc
  ok_of_chain aborted k e = cc
  ok_of_chain no_fuel k e = cc
  ok_of_chain (ok x) k e = (x, refl, e)

pub ok-injective {ℓ} : {A : Type ℓ} {a b : A} → ok a ≡ ok b → a ≡ b
ok-injective h = cc
