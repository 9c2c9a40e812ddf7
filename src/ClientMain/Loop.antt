-- ===== src/ClientMain/Loop.antt =====
-- The loop of `main` in src/client.cc with its pauses.
use udping.Base.{ℕ, List, [], ◌∷◌, Option, none, some}
use udping.Program.{Run, returns, ◌>>=◌}
use udping.Client.{advance, ClientList, Random, Sent, Tick, send_round}
use udping.Delay.{TimeSpec, PauseOps, Call, Sleeper, do_random_pause, or_undefined}

-- What the system answers in one turn: the clock at the start of the turn, for the packet and in
-- front of the pause, and the calls of nanosleep.
pub record Turn : Type 0 where
  pub timer : TimeSpec
  pub tick : Tick
  pub time2 : TimeSpec
  pub nanosleep : Sleeper

-- The frame of a turn, with the calls of its pause.
abbrev pub Turned : Type 0
Turned = Sent × List Call

abbrev pub with_calls :
    Sent → ClientList → Random → Option (List Call) → Option (Turned × (ClientList × Random))
with_calls sent l r none = none
with_calls sent l r (some calls) = some ((sent, calls), (l, r))

abbrev pub with_turned :
    Turned
    → Option (List Turned × (ClientList × Random))
    → Option (List Turned × (ClientList × Random))
with_turned out none = none
with_turned out (some (outs, end)) = some (out ∷ outs, end)

module _ {D : Type 0} (ops : PauseOps D) where
  -- One turn, whose pause draws a number of its own; `returns none` where the fuel of the pause is
  -- not enough.
  unfoldable pub client_turn :
      (fuel delay : ℕ) → Turn → ClientList → Random → Run (Option (Turned × (ClientList × Random)))
  unfolding send_round do_random_pause
  client_turn fuel delay t l r = do
    (sent, (l1, r1)) ← or_undefined (send_round t.tick l r)
    calls ← do_random_pause ops fuel t.nanosleep t.timer t.time2 (r1.draw r1.drawn) delay
    returns (with_calls sent l1 (advance r1 1) calls)

  unfoldable pub client_loop :
      (fuel delay : ℕ)
      → List Turn
      → ClientList
      → Random
      → Run (Option (List Turned × (ClientList × Random)))
  unfolding client_turn
  client_loop fuel delay [] l r = returns (some ([], (l, r)))
  client_loop fuel delay (t ∷ ts) l r = do
    turned ← client_turn fuel delay t l r
    elim turned [
      | none ↦ returns none
      | some (out, (l1, r1)) ↦ do
        rest ← client_loop fuel delay ts l1 r1
        returns (with_turned out rest)
    ]
