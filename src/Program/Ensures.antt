-- ===== src/Program/Ensures.antt =====
-- What holds of the result of a run, if it returns.
use udping.Base.{ℕ, ◌≡◌, refl, subst, Bool, true, false, if◌then◌else◌}
use udping.Program.{Run, returns, exits, crashes, ◌>>=◌, require}

pub record Ensures {ℓ κ} {A : Type ℓ} (P : A → Type κ) (m : Run A) : Type (ℓ ⊔ κ) where
  pub at : (a : A) → m ≡ returns a → P a

module _ {ℓ κ} {A : Type ℓ} {P : A → Type κ} where
  pub Ensures-returns : (a : A) → P a → Ensures P (returns a)
  Ensures-returns a h = record { at = λ b e. let same : a ≡ b = cc in subst P same h }

  pub Ensures-exits : (n : ℕ) → Ensures P (exits n)
  Ensures-exits n = record { at = λ b e. absurd (cc) }

  pub Ensures-crashes : Ensures P crashes
  Ensures-crashes = record { at = λ b e. absurd (cc) }

  pub Ensures-if :
      (b : Bool) (m n : Run A)
      → (b ≡ true → Ensures P m)
      → (b ≡ false → Ensures P n)
      → Ensures P (if b then m else n)
  Ensures-if true m n hm hn = hm refl
  Ensures-if false m n hm hn = hn refl

module _ {ℓ κ μ} {A : Type ℓ} {B : Type κ} {Q : B → Type μ} where
  -- The rest of a block may use what the step returned.
  pub Ensures-bind :
      (m : Run A) (f : A → Run B)
      → ((a : A) → m ≡ returns a → Ensures Q (f a))
      → Ensures Q (m >>= f)
  unfolding ◌>>=◌
  Ensures-bind (returns a) f next = next a refl
  Ensures-bind (exits n) f next = record { at = λ b e. absurd (cc) }
  Ensures-bind crashes f next = record { at = λ b e. absurd (cc) }

pub require-true : (b : Bool) (u : Unit {0}) → require b ≡ returns u → b ≡ true
unfolding require
require-true true u e = refl
require-true false u e = absurd (cc)
