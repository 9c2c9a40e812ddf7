-- ===== src/Program.antt =====
-- The ways in which a part of the two programs' start can end.
pub mod Ensures
use udping.Base.{ℕ, Bool, true, false}

-- `exits` holds the status that the shell sees: `exit (-1)` is 255. `crashes` is undefined
-- behaviour or an uncaught exception.
pub data Run {ℓ} (A : Type ℓ) : Type ℓ where
  returns : A → Run A
  exits : ℕ → Run A
  crashes : Run A

infixl 5 ◌>>=◌ ◌>>◌
unfoldable pub ◌>>=◌ {ℓ κ} : {A : Type ℓ} {B : Type κ} → Run A → (A → Run B) → Run B
returns a >>= f = f a
exits n >>= f = exits n
crashes >>= f = crashes

abbrev pub ◌>>◌ {ℓ} : {B : Type ℓ} → Run (Unit {0}) → Run B → Run B
m >> k = m >>= λ _. k

-- A test, with `exit (-1)` where it fails.
unfoldable pub require : Bool → Run (Unit {0})
require true = returns tt
require false = exits 255
