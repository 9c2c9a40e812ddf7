-- ===== src/Tests/Measures.antt =====
-- The server over a stream of two sessions of one client: the events, and the datagrams.
use udping.Map.Keys.{string_key, nat_key}
use udping.Base.{ap, ℕ, ◌≡◌, refl, List, [], ◌∷◌, ◌++◌, some, none, arith}
use udping.Map.{find}
use udping.Session.{ServerSession, with_target}
use udping.Manager.{
  Manager, Report, ok, init, source_key, handle_alarm, sweep_server_sessions, record_packet,
}
use udping.Manager.WellFormed.{init-IsWellFormed}
use udping.Manager.Events.{Received, Event, ping, alarm, run_events, packets_of}
use udping.Manager.Measured.{IsEnd, next, IsMeasured}
use udping.Manager.Measure.{run_events-IsMeasured}
use udping.Manager.{◌>>=◌}
use udping.Manager.Events.{receive}
use udping.Manager.Interrupt.{receive_ping_alarmed, with_alarms}
use udping.Manager.Interrupt.Absorb.{receive_ping_alarmed-absorb}
use udping.Manager.Ledger.{Ledger, empty, account}
use udping.Manager.Faultless.{IsServed, run_events-IsServed}
use udping.Manager.Reporting.{IsReported}
use udping.Tests.Data.{nat_ops-IsOrdered, nat_ops, packet_at, guid_text}

abbrev peer : List ℕ
peer = 49 ∷ 46 ∷ 50 ∷ []

abbrev other_guid : List ℕ
other_guid = 56 ∷ []

-- A packet by its guid, number and time of arrival.
abbrev received : List ℕ → ℕ → ℕ → Received
received guid seq time = record {
  ph = packet_at seq;
  sec = time;
  nsec = 9;
  peer = peer;
  port = 5000;
  guid = guid;
  arrival = time;
  now = time;
  hosts = [];
}

abbrev first_packet : Received
first_packet = received guid_text 5 1001

-- Packets 6 and 7 are lost, and 9 is the last of the session.
abbrev events : List Event
events = ping (received guid_text 8 1003) ∷ ping (received other_guid 10 1012) ∷ alarm 1013 ∷ []

abbrev old_session : ServerSession ℕ
old_session = record {
  client_start_time = 1000;
  successor = other_guid;
  last_arrival = 1003;
  min_seq = 5;
  max_seq = 8;
  stats = record { target_count = 0; count = 2; sum = 2000; sum_of_squares = 4000000; max = 2000 };
  guid = guid_text;
  peer = peer;
  port = 5000;
}

abbrev new_session : ServerSession ℕ
new_session = record {
  client_start_time = 1000;
  successor = [];
  last_arrival = 1012;
  min_seq = 10;
  max_seq = 10;
  stats = record {
    target_count = 0;
    count = 1;
    sum = 11000;
    sum_of_squares = 121000000;
    max = 11000;
  };
  guid = other_guid;
  peer = peer;
  port = 5000;
}

abbrev two_sessions : Manager ℕ
two_sessions = record {
  session_map = (guid_text, 1) ∷ (other_guid, 2) ∷ [];
  source_map = (source_key peer 5000, 2) ∷ [];
  host_map = [];
  interval_packets_received = 0;
  keepalive = 10;
  heap = (1, old_session) ∷ (2, new_session) ∷ [];
  next_address = 3;
  reports = [];
}

abbrev measured : ServerSession ℕ
measured = record old_session { max_seq = 9; stats = record old_session.stats { target_count = 5 } }

abbrev reported : Manager ℕ
reported = record two_sessions {
  session_map = (other_guid, 2) ∷ [];
  heap = (2, new_session) ∷ [];
  reports = record { session = measured; time = 1014 } ∷ [];
}

events_run : run_events nat_ops (ping first_packet ∷ events) (init 10) ≡ ok two_sessions
unfolding run_events udping.Manager.receive_ping udping.Manager.get_server_session find init
    udping.Manager.link_predecessor udping.Manager.deref udping.Manager.store udping.Map.insert
    sweep_server_sessions record_packet source_key udping.Manager.set_successor
    udping.Session.new_session handle_alarm
events_run = refl

alarm_run : handle_alarm 1014 two_sessions ≡ ok reported
unfolding handle_alarm find udping.Map.erase
alarm_run = refl

empty-new : find guid_text (init {D = ℕ} 10).session_map ≡ none
unfolding find init
empty-new = refl

ends : IsEnd 1014 old_session two_sessions (9 ∷ [])
unfolding find
ends =
    next new_session 9 (record { address = 2; entry = refl; held = refl; alive = refl })
      (omega arith) refl

held : find 1 two_sessions.heap ≡ some old_session
unfolding find
held = refl

run_events-IsMeasured_example :
    (m2 : Manager ℕ) × (handle_alarm 1014 two_sessions ≡ ok m2)
    × (report : Report ℕ) × IsReported report [] m2.reports
    × IsMeasured nat_ops first_packet (received guid_text 8 1003 ∷ []) 5 1014 report
unfolding init packets_of
run_events-IsMeasured_example =
    run_events-IsMeasured nat_ops nat_ops-IsOrdered first_packet events 1014 5 (8 ∷ []) (9 ∷ [])
      (init 10) two_sessions old_session (init-IsWellFormed 10) empty-new (omega arith)
      (omega arith, (omega arith, (omega arith, tt))) events_run held (omega arith) refl ends
      (omega arith) (ap (λ k. k ∷ []) (omega arith))
      (omega arith, omega arith, (omega arith, omega arith, tt)) (omega arith)

abbrev pub served_session : ServerSession ℕ
served_session = record {
  client_start_time = 1000;
  successor = [];
  last_arrival = 1001;
  min_seq = 8;
  max_seq = 8;
  stats = record { target_count = 0; count = 1; sum = 0; sum_of_squares = 0; max = 0 };
  guid = guid_text;
  peer = peer;
  port = 5000;
}

abbrev pub served : Manager ℕ
served = record {
  session_map = (guid_text, 1) ∷ [];
  source_map = (source_key peer 5000, 1) ∷ [];
  host_map = (77, peer) ∷ [];
  interval_packets_received = 0;
  keepalive = 10;
  heap = (1, served_session) ∷ [];
  next_address = 2;
  reports = [];
}

receive_ping_alarmed-absorb_example :
    receive_ping_alarmed nat_ops
      (received other_guid 11 1020)
      ((1014 ∷ []) ∷ [] ∷ (1020 ∷ []) ∷ [])
      two_sessions
    ≡ (do
      early ← with_alarms (1014 ∷ []) two_sessions
      n ← receive nat_ops (received other_guid 11 1020) early
      with_alarms (1020 ∷ []) n)
receive_ping_alarmed-absorb_example =
    receive_ping_alarmed-absorb nat_ops (received other_guid 11 1020)
      ((1014 ∷ []) ∷ [] ∷ (1020 ∷ []) ∷ []) two_sessions (omega arith) (omega arith)

-- The account of the same events, and of an alarm when the first guid is silent.
abbrev ledger : Ledger
ledger = record {
  guids = (guid_text, none) ∷ (other_guid, some 1012) ∷ [];
  sources = (source_key peer 5000, other_guid) ∷ [];
}

accounted : account 10 (ping first_packet ∷ events ++ (alarm 1014 ∷ [])) empty ≡ some ledger
unfolding account find udping.Map.insert
accounted = refl

run_events-IsServed_example :
    IsServed nat_ops 10 (ping first_packet ∷ events ++ (alarm 1014 ∷ [])) (init 10) ledger
run_events-IsServed_example =
    run_events-IsServed nat_ops 10 (ping first_packet ∷ events ++ (alarm 1014 ∷ [])) ledger
      accounted
