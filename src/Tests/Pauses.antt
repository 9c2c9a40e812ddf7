-- ===== src/Tests/Pauses.antt =====
-- A pause that a signal interrupts.
use udping.Base.{
  ℕ, ◌+◌, ◌-◌, ◌*◌, ◌/◌, ◌%◌, ◌≤◌, ◌≡◌, ◌≢◌, refl, List, [], ◌∷◌, some, ltb, ◌==◌, arith, ap, subst,
  zero, suc,
}
use udping.Program.{returns, ◌>>=◌}
use udping.Text.{pos, negsuc}
use udping.Delay.{
  nanoseconds, TimeSpec, PauseOps, slept, interrupted, Call, Sleeper, do_random_pause, limited,
  desired_time,
}
use udping.Delay.Pause.{IsSleeper, IsTruncating, IsPaused, do_random_pause-IsPaused}

-- Whole nanoseconds in the place of `double`; the logarithm stands in the draw, with its sign lost.
abbrev pub pause_ops : PauseOps ℕ
pause_ops = record {
  log_ratio = λ drawn. drawn;
  mul_int = λ d z. elim z [ pos n ↦ d * n | negsuc n ↦ d * (n + 1) ];
  sub_int = λ d z. elim z [ pos n ↦ d - n | negsuc n ↦ d + n + 1 ];
  div_int = ◌/◌;
  of_int = λ n. n;
  is_above = λ d n. ltb n d;
  le_zero = λ d. d == 0;
  to_long = λ d. some d;
}

abbrev pub IsAny : ℕ → Type 0
IsAny d = Unit

pub pause_ops-IsTruncating : IsTruncating pause_ops IsAny
pause_ops-IsTruncating = record {
  limit = λ n small. (tt, ground arith);
  truncated = λ d n num positive within small. (
    d,
    ground arith,
    refl,
    refl,
    (let left : d - d / 1000000000 * 1000000000 ≡ d % 1000000000 = omega arith in ap some left),
  );
}

-- The first call is interrupted when its whole seconds have gone by.
pub one_signal : Sleeper
one_signal zero t = interrupted (record t { tv_sec = 0 })
one_signal (suc n) t = slept

quiet : (n : ℕ) (t rem : TimeSpec) → 1 ≤ n → one_signal n t ≢ interrupted rem
unfolding one_signal
quiet zero t rem late e = omega arith
quiet (suc n) t rem late e = cc

remains :
    (n : ℕ) (t rem : TimeSpec) → one_signal n t ≡ interrupted rem → nanoseconds rem ≤ nanoseconds t
unfolding one_signal
remains zero t rem e =
    let left : (record t { tv_sec = 0 }) ≡ rem = cc in
    subst (λ r. nanoseconds r ≤ nanoseconds t) left (omega arith)
remains (suc n) t rem e = absurd (cc)

pub one_signal-IsSleeper : IsSleeper 1 one_signal
one_signal-IsSleeper = record { quiet = quiet; remains = remains }

abbrev at_second : ℕ → TimeSpec
at_second s = record { tv_sec = s; tv_nsec = 0 }

-- Twice an average of a second, less the half second that went by.
run :
    do_random_pause pause_ops 2 one_signal
      (at_second 7)
      (record { tv_sec = 7; tv_nsec = 500000000 })
      2
      1000
    ≡ returns (
        some (
          (
            record { tv_sec = 1; tv_nsec = 500000000 },
            interrupted (record { tv_sec = 0; tv_nsec = 500000000 }),
          )
          ∷ (record { tv_sec = 0; tv_nsec = 500000000 }, slept)
          ∷ []))
unfolding do_random_pause ◌>>=◌ one_signal
run = refl

do_random_pause-IsPaused_example :
    (cs : List Call) × (do_random_pause pause_ops 2 one_signal (at_second 7) (at_second 8) 2 1000
      ≡ returns (some cs))
    × IsPaused pause_ops IsAny
        (limited pause_ops 1000 (desired_time pause_ops (at_second 7) (at_second 8) 2 1000))
        10000000000
        cs
do_random_pause-IsPaused_example =
    do_random_pause-IsPaused pause_ops IsAny 1 one_signal (at_second 7) (at_second 8) 2 1000
      one_signal-IsSleeper pause_ops-IsTruncating (omega arith) tt
