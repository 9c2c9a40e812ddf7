-- ===== src/Base/Cycle.antt =====
-- The next index modulo a count.
use Prim.Native.Nat.{ℕ, suc, ◌+◌, ◌%◌, ◌≤◌, ◌<◌}
use mathlib.Core.Path.{◌≡◌, ◌∙◌, ap}
use native.Mathlib.Nat.{suc-mod, mod-lt, mod-eq_of_lt, mod_self}
use native.Mathlib.Omega.{arith}

pub mod-suc_step : (j n : ℕ) → j % n + 1 < n → suc j % n ≡ j % n + 1
mod-suc_step j n h =
    let small : suc (j % n) % n ≡ suc (j % n) = mod-eq_of_lt (omega arith) in
    omega (arith, suc-mod j n, small)

pub mod-suc_wrap : (j n : ℕ) → 0 < n → n ≤ j % n + 1 → suc j % n ≡ 0
mod-suc_wrap j n pos h =
    let below = mod-lt j pos in
    let full : suc (j % n) ≡ n = omega arith in suc-mod j n ∙ ap (λ x. x % n) full ∙ mod_self n
