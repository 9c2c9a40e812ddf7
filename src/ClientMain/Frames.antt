-- ===== src/ClientMain/Frames.antt =====
-- The client from its command line to its frames.
use udping.Base.{
  ℕ, suc, ◌*◌, ◌≤◌, ◌<◌, ◌≡◌, refl, ap, ◌∙◌, sym, subst, List, [], ◌∷◌, some, length, length-set,
  arith, All,
}
use udping.Program.{returns, ◌>>=◌}
use udping.Options.{Parsed}
use udping.Host.{Host}
use udping.Client.{advance, ClientList, Random, Tick}
use udping.Client.Run.{IsClock}
use udping.Client.Rounds.{send_round-IsServed}
use udping.Client.Sending.{IsReady, IsSound}
use udping.Client.Sequence.{IsLevel, numbered, served-IsLevel}
use udping.Delay.{TimeSpec, PauseOps, Call, desired_time}
use udping.Delay.Pause.{IsSleeper, IsTruncating, IsPaused, total, do_random_pause-IsPaused}
use udping.ClientMain.{Started, client_start}
use udping.ClientMain.Loop.{Turn, Turned, client_turn, client_loop}
use udping.ClientMain.Ready.{IsSystem}
use udping.ClientMain.Start.{client_start-IsStarted}

abbrev pub ticks : List Turn → List Tick
ticks [] = []
ticks (t ∷ ts) = t.tick ∷ ticks ts

abbrev pub numbers : List Turned → List ℕ
numbers [] = []
numbers (out ∷ outs) = out.0.packet.seq_num ∷ numbers outs

-- A clock whose nanoseconds fit their field, and a nanosleep that is not interrupted from call
-- number `k` on.
abbrev pub IsTurn : ℕ → Turn → Type 0
IsTurn k t = IsClock t.tick × IsSleeper k t.nanosleep

-- A sound frame, and a pause of at most ten times the delay.
abbrev pub IsGood : ℕ → Turned → Type 0
IsGood delay out = IsSound out.0 × (total out.1 ≤ delay * 1000000 * 10)

module _ {D : Type 0} (ops : PauseOps D) (IsNumber : D → Type 0) where
  IsPaused-total :
      (d : D) (most : ℕ) (cs : List Call) → IsPaused ops IsNumber d most cs → total cs ≤ most
  IsPaused-total d most cs (IsPaused.no_sleep none_left e) =
      subst (λ c. total c ≤ most) (sym e) (omega arith)
  IsPaused-total d most cs (IsPaused.slept_for t whole request asked) =
      omega (arith, request.at_most, asked.0)

  -- A ready list, at the state of round `n`, goes through any number of turns.
  client_loop-numbered :
      (k delay n : ℕ) (ts : List Turn) (l : ClientList) (r : Random)
      → IsTruncating ops IsNumber
      → delay ≤ 1000
      → ((timer time2 : TimeSpec) (drawn : ℕ) → IsNumber (desired_time ops timer time2 drawn delay))
      → All (IsTurn k) ts
      → IsReady l
      → IsLevel n l
      → (outs : List Turned) × (l' : ClientList) × (r' : Random) × (client_loop ops
            (suc k)
            delay
            ts
            l
            r
          ≡ returns (some (outs, (l', r'))))
        × (numbers outs ≡ numbered (length l.sessions) n (ticks ts))
        × All (IsGood delay) outs
  unfolding client_loop client_turn ◌>>=◌
  client_loop-numbered k delay n [] l r trunc small num turns ready v = ([], l, r, refl, refl, tt)
  client_loop-numbered k delay n (t ∷ ts) l r trunc small num turns ready v =
      let h = send_round-IsServed t.tick l r ready turns.0.0 in
      let (number, next) = served-IsLevel n t.tick l r ready v h in
      let count : length h.l'.sessions ≡ length l.sessions =
        ap length h.stored ∙ length-set l.sessions l.cur_session h.s' in
      let (calls, paused, bounded) =
        do_random_pause-IsPaused ops IsNumber k t.nanosleep t.timer t.time2 (h.r'.draw h.r'.drawn)
          delay turns.0.1 trunc small (num t.timer t.time2 (h.r'.draw h.r'.drawn)) in
      let (outs, l', r', run, same, good) =
        client_loop-numbered k delay (suc n) ts h.l' (advance h.r' 1) trunc small num turns.1
          h.ready next in
      let rest : numbers outs ≡ numbered (length l.sessions) (suc n) (ticks ts) =
        same ∙ ap (λ c. numbered c (suc n) (ticks ts)) count in
      (
        (h.f, calls) ∷ outs,
        l',
        r',
        rw (client_loop, client_turn, h.run, paused, run) refl,
        λ i. number i ∷ rest i,
        ((h.sound, IsPaused-total _ _ calls bounded), good),
      )

  -- On a system whose addresses have 32 bits and whose MAC addresses have six bytes, a client that
  -- reaches its loop with at least one session completes any number of turns, whatever its command
  -- line was. It sends one sound frame in each, frame number `k`, counted from 0, has the sequence
  -- number k / n in 32 bits, where `n` is the number of its sessions, and no pause lasts longer
  -- than ten times the delay. The conditions on the turns: the clock's nanoseconds are below 2^64,
  -- an interrupted nanosleep never leaves more time than was asked for and is not interrupted from
  -- call number `m` of a pause on, doubles are truncated as documented, and no drawn time is NaN.
  pub client_start-client_loop :
      (h : Host) (args : List Parsed) (now : ℕ → ℕ) (r : Random) (st : Started) (m : ℕ)
      (ts : List Turn)
      → IsSystem h
      → client_start h args now r ≡ returns st
      → 0 < length st.sessions.sessions
      → All (IsTurn m) ts
      → IsTruncating ops IsNumber
      → ((timer time2 : TimeSpec) (drawn : ℕ)
          → IsNumber (desired_time ops timer time2 drawn st.delay))
      → (outs : List Turned) × (l' : ClientList) × (r' : Random) × (client_loop ops
            (suc m)
            st.delay
            ts
            st.sessions
            st.random
          ≡ returns (some (outs, (l', r'))))
        × (numbers outs ≡ numbered (length st.sessions.sessions) 0 (ticks ts))
        × All (IsGood st.delay) outs
  client_start-client_loop h args now r st m ts system started some_session turns trunc num =
      let v = client_start-IsStarted h args now r st system started in
      client_loop-numbered m st.delay 0 ts st.sessions st.random trunc v.delay_le num turns
        (v.ready some_session) v.level
