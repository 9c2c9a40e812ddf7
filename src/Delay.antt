-- ===== src/Delay.antt =====
-- The timer and the random pause of src/delay.cc. The operations of `double`, the clock and
-- nanosleep are parameters.
pub mod Pause
use udping.Base.{
  ℕ, zero, suc, ◌+◌, ◌-◌, ◌*◌, List, [], ◌∷◌, Option, none, some, Bool, true, false, leb,
  if◌then◌else◌,
}
use udping.Program.{Run, returns, exits, crashes, ◌>>=◌}
use udping.Text.{ℤ, pos, negsuc, neg}

-- `struct timespec`, of a time that is not negative.
pub record TimeSpec : Type 0 where
  pub tv_sec : ℕ
  pub tv_nsec : ℕ

-- What the pause does with `double`. `log_ratio` is the logarithm of a number of `rand` over
-- RAND_MAX, and `to_long` is the truncation to `long`, where that is defined and not negative.
pub record PauseOps (D : Type 0) : Type 0 where
  pub log_ratio : ℕ → D
  pub mul_int : D → ℤ → D
  pub sub_int : D → ℤ → D
  pub div_int : D → ℕ → D
  pub of_int : ℕ → D
  pub is_above : D → ℕ → Bool
  pub le_zero : D → Bool
  pub to_long : D → Option ℕ

abbrev pub nanoseconds : TimeSpec → ℕ
nanoseconds t = 1000000000 * t.tv_sec + t.tv_nsec

abbrev pub difference : ℕ → ℕ → ℤ
difference a b = if leb b a then pos (a - b) else neg (b - a)

-- The time that went by between two readings of the clock; it fits in a `long`.
unfoldable pub check_timer : TimeSpec → TimeSpec → ℤ
check_timer timer time2 = difference (nanoseconds time2) (nanoseconds timer)

-- How one call of nanosleep ends: with errno EINTR and the time that remains, or with another error.
pub data SleepResult : Type 0 where
  slept : SleepResult
  interrupted : TimeSpec → SleepResult
  failed : SleepResult

abbrev pub Call : Type 0
Call = TimeSpec × SleepResult

-- Each call by its number: what it answers to a request.
abbrev pub Sleeper : Type 0
Sleeper = ℕ → TimeSpec → SleepResult

abbrev pub with_call : Call → Option (List Call) → Option (List Call)
with_call c none = none
with_call c (some cs) = some (c ∷ cs)

-- The loop, with the calls that it makes; none where the fuel is not enough.
unfoldable pub sleep_loop : ℕ → Sleeper → ℕ → TimeSpec → Option (List Call)
sleep_loop zero nanosleep n delay = none
sleep_loop (suc fuel) nanosleep n delay = elim (nanosleep n delay) [
  | slept ↦ some ((delay, slept) ∷ [])
  | interrupted remaining ↦
      with_call (delay, interrupted remaining) (sleep_loop fuel nanosleep (suc n) remaining)
  | failed ↦ some ((delay, failed) ∷ [])
]

abbrev pub or_undefined {ℓ} : {A : Type ℓ} → Option A → Run A
or_undefined none = crashes
or_undefined (some a) = returns a

module _ {D : Type 0} (ops : PauseOps D) where
  -- The pause that is drawn, less the time that went by since the timer was started.
  unfoldable pub desired_time : TimeSpec → TimeSpec → ℕ → ℕ → D
  unfolding check_timer
  desired_time timer time2 drawn avg_delay_ms =
      ops.sub_int (ops.mul_int (ops.log_ratio drawn) (neg (avg_delay_ms * 1000000)))
        (check_timer timer time2)

  unfoldable pub limited : ℕ → D → D
  limited avg_delay_ms desired =
      if ops.is_above desired (avg_delay_ms * 1000000 * 10)
      then ops.of_int (avg_delay_ms * 1000000 * 10)
      else desired

  -- The whole seconds, and the nanoseconds behind them.
  unfoldable pub split_time : D → Run TimeSpec
  split_time desired = do
    sec ← or_undefined (ops.to_long (ops.div_int desired 1000000000))
    nsec ← or_undefined (ops.to_long (ops.sub_int desired (pos (sec * 1000000000))))
    returns (record { tv_sec = sec; tv_nsec = nsec })

  -- The calls of nanosleep; `returns none` where the fuel is not enough.
  unfoldable pub do_random_pause :
      ℕ → Sleeper → TimeSpec → TimeSpec → ℕ → ℕ → Run (Option (List Call))
  unfolding desired_time limited split_time sleep_loop
  do_random_pause fuel nanosleep timer time2 drawn avg_delay_ms =
      let desired = limited avg_delay_ms (desired_time timer time2 drawn avg_delay_ms) in
      let sleeping = (do delay ← split_time desired; returns (sleep_loop fuel nanosleep 0 delay)) in
      if ops.le_zero desired then returns (some []) else sleeping
