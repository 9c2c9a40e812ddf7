-- ===== src/Delay/Pause.antt =====
-- How long the client pauses.
use udping.Base.{
  ℕ, zero, suc, ◌+◌, ◌-◌, ◌*◌, ◌/◌, ◌%◌, ◌<◌, ◌≤◌, ◌≡◌, ◌≢◌, ◌⊎◌, inl, inr, refl, List, [], ◌∷◌,
  some, true, false, arith, Bool-cases, ap, ◌∙◌,
}
use udping.Program.{returns, ◌>>=◌}
use udping.Text.{pos}
use udping.Delay.{
  TimeSpec, PauseOps, nanoseconds, SleepResult, slept, interrupted, failed, Call, Sleeper,
  sleep_loop, desired_time, limited, split_time, do_random_pause,
}

-- From call number `k` on no signal comes, and an interrupted call leaves no more time than was
-- asked for.
pub record IsSleeper (k : ℕ) (nanosleep : Sleeper) : Type 0 where
  pub quiet : (n : ℕ) (t rem : TimeSpec) → k ≤ n → nanosleep n t ≢ interrupted rem
  pub remains :
      (n : ℕ) (t rem : TimeSpec) → nanosleep n t ≡ interrupted rem → nanoseconds rem ≤ nanoseconds t

-- The time for which a call sleeps.
abbrev pub call_time : Call → ℕ
call_time (t, slept) = nanoseconds t
call_time (t, interrupted rem) = nanoseconds t - nanoseconds rem
call_time (t, failed) = 0

abbrev pub total : List Call → ℕ
total [] = 0
total (c ∷ cs) = call_time c + total cs

-- The last call failed with another error than EINTR.
abbrev pub IsBroken : List Call → Type 0
IsBroken [] = ⊥
IsBroken ((t, r) ∷ []) = r ≡ failed
IsBroken (c ∷ d ∷ cs) = IsBroken (d ∷ cs)

-- The calls of a loop that ended.
abbrev IsSlept : ℕ → List Call → Type 0
IsSlept asked cs = (total cs ≤ asked) × (IsBroken cs ⊎ (total cs ≡ asked))

IsBroken-next : (c : Call) (cs : List Call) → IsBroken cs → IsBroken (c ∷ cs)
IsBroken-next c [] b = absurd b
IsBroken-next c (d ∷ cs) b = b

next-IsSlept :
    (t rem : TimeSpec) (cs : List Call)
    → nanoseconds rem ≤ nanoseconds t
    → IsSlept (nanoseconds rem) cs
    → IsSlept (nanoseconds t) ((t, interrupted rem) ∷ cs)
next-IsSlept t rem cs le (bound, inl broken) =
    (omega arith, inl (IsBroken-next (t, interrupted rem) cs broken))
next-IsSlept t rem cs le (bound, inr same) = (omega arith, inr (omega arith))

-- The loop from call number `n` on ends.
abbrev Ends : ℕ → Sleeper → ℕ → TimeSpec → Type 0
Ends fuel nanosleep n t =
    (cs : List Call) × (sleep_loop fuel nanosleep n t ≡ some cs) × IsSlept (nanoseconds t) cs

-- One turn of the loop, if the turns behind an interrupted call end.
turn-Ends :
    (fuel k n : ℕ) (nanosleep : Sleeper) (t : TimeSpec) (r : SleepResult)
    → IsSleeper k nanosleep
    → nanosleep n t ≡ r
    → ((rem : TimeSpec) → n < k → Ends fuel nanosleep (suc n) rem)
    → Ends (suc fuel) nanosleep n t
unfolding sleep_loop
turn-Ends fuel k n nanosleep t slept v e again =
    ((t, slept) ∷ [], rw (sleep_loop, e) refl, (omega arith, inr (omega arith)))
turn-Ends fuel k n nanosleep t failed v e again =
    ((t, failed) ∷ [], rw (sleep_loop, e) refl, (omega arith, inl refl))
turn-Ends fuel k n nanosleep t (interrupted rem) v e again =
    let late : ¬ (k ≤ n) = λ h. v.quiet n t rem h e in
    let (cs, run, slept_for) = again rem (ground arith) in
    (
      (t, interrupted rem) ∷ cs,
      rw (sleep_loop, e, run) refl,
      next-IsSlept t rem cs (v.remains n t rem e) slept_for,
    )

sleep_loop-Ends :
    (fuel k n : ℕ) (nanosleep : Sleeper) (t : TimeSpec)
    → IsSleeper k nanosleep
    → k < n + fuel
    → 0 < fuel
    → Ends fuel nanosleep n t
sleep_loop-Ends zero k n nanosleep t v enough some_fuel = absurd (omega arith)
sleep_loop-Ends (suc fuel) k n nanosleep t v enough some_fuel =
    turn-Ends fuel k n nanosleep t (nanosleep n t) v refl
      (λ rem early. sleep_loop-Ends fuel k (suc n) nanosleep rem v (omega arith) (omega arith))

module _ {D : Type 0} (ops : PauseOps D) (IsNumber : D → Type 0) where
  -- For `n` up to 10^10: as a limit it is a number that is not above itself, and a positive number
  -- that is not above it is truncated to at most `n`, with its quotient and its remainder by 10^9
  -- truncated to those of that number.
  pub record IsTruncating : Type 0 where
    pub limit :
        (n : ℕ)
        → n ≤ 10000000000
        → IsNumber (ops.of_int n) × (ops.is_above (ops.of_int n) n ≡ false)
    pub truncated :
        (d : D) (n : ℕ)
        → IsNumber d
        → ops.le_zero d ≡ false
        → ops.is_above d n ≡ false
        → n ≤ 10000000000
        → (m : ℕ) × (m ≤ n)
          × (ops.to_long d ≡ some m)
          × (ops.to_long (ops.div_int d 1000000000) ≡ some (m / 1000000000))
          × (ops.to_long (ops.sub_int d (pos (m / 1000000000 * 1000000000)))
              ≡ some (m % 1000000000))

  -- A request that nanosleep accepts, of at most so many nanoseconds.
  pub record IsRequest (most : ℕ) (t : TimeSpec) : Type 0 where
    pub nsec_fits : t.tv_nsec < 1000000000
    pub at_most : nanoseconds t ≤ most

  limited-IsNumber :
      (avg : ℕ) (d : D)
      → IsTruncating
      → avg ≤ 1000
      → IsNumber d
      → IsNumber (limited ops avg d)
        × (ops.is_above (limited ops avg d) (avg * 1000000 * 10) ≡ false)
  unfolding limited
  limited-IsNumber avg d v small num = elim (Bool-cases (ops.is_above d (avg * 1000000 * 10))) [
    | inl above ↦ rw (limited, above) (v.limit (avg * 1000000 * 10) (omega arith))
    | inr within ↦ rw (limited, within) (num, within)
  ]

  split_time-IsRequest :
      (d : D) (n : ℕ)
      → IsTruncating
      → IsNumber d
      → ops.le_zero d ≡ false
      → ops.is_above d n ≡ false
      → n ≤ 10000000000
      → (t : TimeSpec) × (split_time ops d ≡ returns t)
        × (ops.to_long d ≡ some (nanoseconds t))
        × IsRequest n t
  unfolding split_time ◌>>=◌
  split_time-IsRequest d n v num positive within small =
      let (m, most, whole, secs, nsecs) = v.truncated d n num positive within small in
      (
        record { tv_sec = m / 1000000000; tv_nsec = m % 1000000000 },
        rw (split_time, secs, nsecs) refl,
        whole ∙ ap some (omega arith),
        record { nsec_fits = omega arith; at_most = omega arith },
      )

  -- How the pause for a drawn time ends: without a sleep if the time is not above 0, or else with
  -- one of its whole nanoseconds.
  pub data IsPaused (d : D) (most : ℕ) (cs : List Call) : Type 0 where
    no_sleep : ops.le_zero d ≡ true → cs ≡ [] → IsPaused d most cs
    slept_for :
        (t : TimeSpec)
        → ops.to_long d ≡ some (nanoseconds t)
        → IsRequest most t
        → IsSlept (nanoseconds t) cs
        → IsPaused d most cs

  -- If from call number `k` on no signal interrupts nanosleep, an interrupted call never leaves
  -- more time than was asked for, and the delay is up to 1000 ms, then for a drawn time that is a
  -- number, with truncation as documented, the pause ends, and k + 1 turns of its loop are enough.
  -- It does not sleep if the time left is not above 0. Otherwise it asks for the whole nanoseconds
  -- of that time, which nanosleep accepts, at most ten times the delay, and whatever the
  -- interruptions are it sleeps for exactly that long, or less if a call fails with another error.
  pub do_random_pause-IsPaused :
      (k : ℕ) (nanosleep : Sleeper) (timer time2 : TimeSpec) (drawn avg : ℕ)
      → IsSleeper k nanosleep
      → IsTruncating
      → avg ≤ 1000
      → IsNumber (desired_time ops timer time2 drawn avg)
      → (cs : List Call) × (do_random_pause ops (suc k) nanosleep timer time2 drawn avg
          ≡ returns (some cs))
        × IsPaused
            (limited ops avg (desired_time ops timer time2 drawn avg))
            (avg * 1000000 * 10)
            cs
  unfolding do_random_pause ◌>>=◌
  do_random_pause-IsPaused k nanosleep timer time2 drawn avg sleeper v small num =
      let d = limited ops avg (desired_time ops timer time2 drawn avg) in
      let (limited_num, within) =
        limited-IsNumber avg (desired_time ops timer time2 drawn avg) v small num in
      elim (Bool-cases (ops.le_zero d)) [
        | inl none_left ↦ ([], rw (do_random_pause, none_left) refl, no_sleep none_left refl)
        | inr positive ↦
            let (t, split, whole, request) =
              split_time-IsRequest d (avg * 1000000 * 10) v limited_num positive within
                (omega arith) in
            let (cs, run, slept_all) =
              sleep_loop-Ends (suc k) k 0 nanosleep t sleeper (omega arith) (omega arith) in
            (
              cs,
              rw (do_random_pause, positive, split, run) refl,
              slept_for t whole request slept_all,
            )
      ]
