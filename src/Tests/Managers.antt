-- ===== src/Tests/Managers.antt =====
-- The session manager: one session, its expiry, and what comes after.
use udping.Base.{ℕ, ◌≡◌, ◌≢◌, ◌⊎◌, refl, List, [], ◌∷◌, true, none, some, arith, dec_lt}
use udping.Map.{find, erase}
use udping.Map.Keys.{string_key, nat_key, str_same_iff}
use udping.Session.{ServerSession, with_target}
use udping.Text.{decimal}
use udping.Manager.{
  Manager, ok, fault, init, source_key, receive_ping, handle_alarm, sweep_server_sessions,
}
use udping.Manager.WellFormed.{IsWellFormed}
use udping.Manager.Swept.{IsSwept, expired_at}
use udping.Manager.Expiry.{sweep_server_sessions-IsSwept}
use udping.Manager.Dangling.{receive_ping-after_sweep}
use udping.Manager.Reachable.{handle_alarm_lem}
use udping.Manager.Socket.{Datagram, read_next_packet}
use udping.Manager.Socket.Reject.{IsProper, read_next_packet-reject}
use udping.Manager.Interrupt.{receive_ping_alarmed}
use udping.Manager.Interrupt.Twice.{receive_ping_alarmed-twice}
use udping.Tests.Data.{nat_ops, packet_at, guid_text, names, clock}

abbrev peer : List ℕ
peer = 49 ∷ 46 ∷ 50 ∷ []

abbrev other_guid : List ℕ
other_guid = 56 ∷ []

abbrev session : ServerSession ℕ
session = record {
  client_start_time = 1000;
  successor = [];
  last_arrival = 1001;
  min_seq = 5;
  max_seq = 7;
  stats = record { target_count = 0; count = 3; sum = 6; sum_of_squares = 14; max = 3 };
  guid = guid_text;
  peer = peer;
  port = 5000;
}

abbrev one_session : Manager ℕ
one_session = record {
  session_map = (guid_text, 1) ∷ [];
  source_map = (source_key peer 5000, 1) ∷ [];
  host_map = [];
  interval_packets_received = 0;
  keepalive = 10;
  heap = (1, session) ∷ [];
  next_address = 2;
  reports = [];
}

one_session-IsWellFormed : IsWellFormed one_session
unfolding find
one_session-IsWellFormed = record {
  sorted = (tt, tt);
  live = λ g a e. (ground arith, (session, ground arith, ground (arith, str_same_iff guid_text g)));
  allocated = λ a s e. ground arith;
  positive = omega arith;
  sources = λ k a e. ground arith;
}

one_session-entry : find guid_text one_session.session_map ≡ some 1
unfolding find
one_session-entry = refl

one_session-held : find 1 one_session.heap ≡ some session
unfolding find
one_session-held = refl

one_session-source : find (source_key peer 5000) one_session.source_map ≡ some 1
unfolding find source_key decimal dec_lt
one_session-source = refl

abbrev swept : Manager ℕ
swept = record one_session {
  session_map = [];
  heap = [];
  reports = record { session = with_target session; time = 1050 } ∷ [];
}

sweep_run : sweep_server_sessions 1050 one_session ≡ ok swept
unfolding sweep_server_sessions find erase with_target
sweep_run = refl

sweep_server_sessions-IsSwept_example :
    (m' : Manager ℕ) × (sweep_server_sessions 1050 one_session ≡ ok m')
    × IsSwept 1050 one_session.session_map one_session m'
sweep_server_sessions-IsSwept_example =
    sweep_server_sessions-IsSwept 1050 one_session one_session-IsWellFormed

one_session-expired : expired_at 1050 one_session 1 ≡ true
unfolding find
one_session-expired = refl

swept-new : find other_guid swept.session_map ≡ none
unfolding find
swept-new = refl

receive_ping-after_sweep_example :
    receive_ping nat_ops (packet_at 8) 1060 9 peer 5000 other_guid 1060 1060 swept ≡ fault
receive_ping-after_sweep_example =
    receive_ping-after_sweep nat_ops (packet_at 8) 1060 9 peer 5000 other_guid 1060 1060 one_session
      swept guid_text 1 1050 one_session-IsWellFormed one_session-entry one_session-expired
      one_session-source sweep_run swept-new

handle_alarm_lem_example :
    ((one_session.interval_packets_received ≡ 0)
      × ((m' : Manager ℕ) × (handle_alarm 1050 one_session
            ≡ ok (record m' { interval_packets_received = 0 }))
          × IsSwept 1050 one_session.session_map one_session m'))
    ⊎ ((one_session.interval_packets_received ≢ 0)
        × (handle_alarm 1050 one_session
            ≡ ok (record one_session { interval_packets_received = 0 })))
handle_alarm_lem_example = handle_alarm_lem 1050 one_session one_session-IsWellFormed

alarm_run : handle_alarm 1050 (init {D = ℕ} 10) ≡ ok (init 10)
unfolding handle_alarm sweep_server_sessions init
alarm_run = refl

abbrev short : Datagram
short = record { count = some 20; buf = []; address = 1; port = 2 }

short-bad : (n : ℕ) → ¬ IsProper short n
short-bad n p = ground (arith, p.received, p.long_enough)

read_next_packet-reject_example :
    read_next_packet nat_ops names clock short one_session ≡ ok one_session
read_next_packet-reject_example =
    read_next_packet-reject nat_ops names clock short one_session short-bad

receive_ping_alarmed-twice_example :
    receive_ping_alarmed nat_ops
      (record {
        ph = packet_at 8;
        sec = 1015;
        nsec = 9;
        peer = peer;
        port = 5000;
        guid = guid_text;
        arrival = 1035;
        now = 1035;
        hosts = [];
      })
      ([] ∷ [] ∷ (1020 ∷ 1030 ∷ []) ∷ [])
      one_session
    ≡ fault
receive_ping_alarmed-twice_example =
    receive_ping_alarmed-twice nat_ops _ 1020 1030 1 session one_session one_session-IsWellFormed
      one_session-entry one_session-held (omega arith)
