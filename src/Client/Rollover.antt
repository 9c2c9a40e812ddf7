-- ===== src/Client/Rollover.antt =====
-- When a session starts a new measurement interval.
use native.Mathlib.Nat.{div-add-mod', mul-div_cancel, mod-lt}
use udping.Base.{ℕ, ◌-◌, ◌*◌, ◌/◌, ◌%◌, ◌<◌, ◌≤◌, ◌≡◌, ap, sym, ◌∙◌, false, not, ◌==◌, arith}
use udping.Client.{ClientSession, rollover}

rounded_eq : (a n : ℕ) → a - a % n ≡ a / n * n
rounded_eq a n = omega (arith, div-add-mod' a n)

-- Two times round down to the same time exactly when they lie in the same interval.
same_interval : (a b n : ℕ) → 0 < n → (a - a % n == b - b % n) ≡ (a / n == b / n)
same_interval a b n pos =
    let back : a - a % n ≡ b - b % n → a / n ≡ b / n = λ e.
      sym (mul-div_cancel (a / n) pos)
      ∙ ap (λ x. x / n) (sym (rounded_eq a n) ∙ e ∙ rounded_eq b n)
      ∙ mul-div_cancel (b / n) pos in
    let forth : a / n ≡ b / n → a - a % n ≡ b - b % n =
      λ e. rounded_eq a n ∙ ap (λ x. x * n) e ∙ sym (rounded_eq b n) in
    ground (arith, back, forth)

-- After any call the session holds the time of the call, rounded down to the interval.
rollover-last : (n a : ℕ) (s : ClientSession) → (rollover n a s).1.last_rollover ≡ a - a % n
unfolding rollover
rollover-last n a s = ground arith

rollover-from :
    (n b last : ℕ) (s : ClientSession)
    → s.last_rollover ≡ last
    → 0 < last
    → (rollover n b s).0 ≡ not (b - b % n == last)
unfolding rollover
rollover-from n b last s e pos = ground arith

-- For an interval of at least one second, a call rolls over exactly when the interval that the
-- clock is in differs from the one at the call before, if the clock had passed the first interval
-- since its epoch at that call.
pub rollover-rollover :
    (n a b : ℕ) (s : ClientSession)
    → 0 < n
    → n ≤ a
    → (rollover n b (rollover n a s).1).0 ≡ not (b / n == a / n)
rollover-rollover n a b s pos late =
    rollover-from n b (a - a % n) (rollover n a s).1 (rollover-last n a s)
      (omega (arith, mod-lt a pos))
    ∙ ap not (same_interval b a n pos)

-- The first call of a session never rolls over.
pub rollover_first :
    (n a : ℕ) (s : ClientSession) → s.last_rollover ≡ 0 → (rollover n a s).0 ≡ false
unfolding rollover
rollover_first n a s e = ground arith
