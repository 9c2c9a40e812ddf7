-- ===== src/Manager/Interrupt.antt =====
-- `receivePing` with alarms in front of, between and behind its statements. The lookup of the
-- session and the sweep are one step each.
pub mod Commute
pub mod Sparse
pub mod Absorb
pub mod Twice
use udping.Base.{u32, ℕ, ◌+◌, List, [], ◌∷◌, ◌++◌, Bool, true, false, ◌==◌, if◌then◌else◌}
use udping.Session.{ServerSession, record_seq}
use udping.Stats.{DoubleOps, add_data_point}
use udping.Manager.{
  Manager, Outcome, ok, fault, ◌>>=◌, deref, store, get_server_session, elapsed_ms, handle_alarm,
  sweep_server_sessions,
}
use udping.Manager.Events.{Received}

-- The times of the alarms at each point.
abbrev pub Alarms : Type 0
Alarms = List (List ℕ)

abbrev pub all_of : Alarms → List ℕ
all_of [] = []
all_of (ts ∷ als) = ts ++ all_of als

abbrev pub first : Alarms → List ℕ
first [] = []
first (ts ∷ als) = ts

abbrev pub later : Alarms → Alarms
later [] = []
later (ts ∷ als) = als

-- A statement of `receivePing`, with the pointer to the session.
abbrev pub Action : Type 0 → Type 0
Action D = ℕ → Manager D → Outcome (ℕ × Manager D)

module _ {D : Type 0} where
  -- Alarms one after the other.
  unfoldable pub with_alarms : List ℕ → Manager D → Outcome (Manager D)
  unfolding handle_alarm
  with_alarms [] m = ok m
  with_alarms (t ∷ ts) m = do next ← handle_alarm t m; with_alarms ts next

  unfoldable pub run_actions : List (Action D) → Alarms → ℕ → Manager D → Outcome (ℕ × Manager D)
  unfolding with_alarms
  run_actions [] als address m = do
    interrupted ← with_alarms (all_of als) m
    ok (address, interrupted)
  run_actions (f ∷ fs) als address m = do
    interrupted ← with_alarms (first als) m
    (next_address, next) ← f address interrupted
    run_actions fs (later als) next_address next

  -- A statement that writes to the session.
  abbrev pub update : (ServerSession D → ServerSession D) → Action D
  update f address m = do ds ← deref m address; ok (address, store address (f ds) m)

module _ {D : Type 0} (ops : DoubleOps D) where
  -- The statements behind `setLastArrival`, and behind the lookup of the session.
  abbrev pub later_updates : Received → List (Action D)
  later_updates r =
      update (λ ds. record_seq ds r.ph.seq_num)
      ∷ update (λ ds. record ds {
        stats = (add_data_point ops ds.stats (elapsed_ms ops r.sec r.nsec r.ph)).0;
      })
      ∷ (λ address m. do swept ← sweep_server_sessions r.now m; ok (address, swept))
      ∷ []

  abbrev pub updates : Received → List (Action D)
  updates r = update (λ ds. record ds { last_arrival = r.arrival }) ∷ later_updates r

  -- The statements behind the count.
  abbrev pub session_statements : Received → List (Action D)
  session_statements r =
      (λ address m. get_server_session ops r.peer r.port r.guid r.ph m) ∷ updates r

  -- All statements, the first of which counts the packet.
  abbrev pub statements : Received → List (Action D)
  statements r =
      (λ address m.
        ok
          (address, record m { interval_packets_received = u32 (m.interval_packets_received + 1) }))
      ∷ session_statements r

  unfoldable pub receive_ping_alarmed : Received → Alarms → Manager D → Outcome (Manager D)
  unfolding get_server_session record_seq add_data_point elapsed_ms run_actions deref store
      sweep_server_sessions
  receive_ping_alarmed r als m = do (address, swept) ← run_actions (statements r) als 0 m; ok swept
