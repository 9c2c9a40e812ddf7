-- ===== src/Tests/Clients.antt =====
-- A client with one session, its rounds, and its frames at the server.
use udping.Base.{
  ◌+◌, ◌*◌, ◌/◌, ◌≡◌, ℕ, refl, not, ◌==◌, [], ◌∷◌, ◌++◌, take, some, arith, drop, List,
}
use udping.Checksum.{checksum}
use udping.Packet.{padded_packet}
use udping.Frame.{build_frame, frame_bytes}
use udping.Frame.Datagram.{datagram}
use udping.Manager.{Manager, Outcome, init, receive_ping, ◌>>=◌}
use udping.Manager.Serving.{signal, server_loop}
use udping.Client.Arrivals.{Delivery, arrives, interrupts}
use udping.Manager.Socket.{host_name, read_next_packet}
use udping.Tests.Data.{route, packet_at, guid_text, names, clock, nat_ops}
use udping.Client.{
  Sent, ClientSession, ClientList, Random, Tick, new_client_session, reset, rollover,
}
use udping.Client.Invariant.{new_client_session-IsSendable}
use udping.Client.Rollover.{rollover-rollover}
use udping.Client.Sending.{IsSessionReady, IsReady, IsSound}
use udping.Client.Rounds.{IsServed, send_round-IsServed}
use udping.Client.Delivery.{read_next_packet-sent, sent-udp_checksum}
use udping.Mac.{MacList}

abbrev macs : MacList
macs = record { num_macs = 1; cur_mac = 1; macs = (0 ∷ 27 ∷ 33 ∷ 170 ∷ 255 ∷ 9 ∷ []) ∷ [] }

abbrev random : Random
random = record { draw = λ n. 1103515245 * n + 12345; drawn = 0 }

abbrev fresh : ClientSession
fresh = (new_client_session 5000 macs 1700000000 random).0

abbrev client : ClientList
client = record {
  max_packet_size = 1000;
  interval = 60;
  src_ip = 0x0100000a;
  dst_ip = 0x0200000a;
  src_mac = 2 ∷ 3 ∷ 4 ∷ 5 ∷ 6 ∷ 7 ∷ [];
  dst_port = 6000;
  sessions = fresh ∷ [];
  cur_session = 0;
}

abbrev tick : Tick
tick = record { now = 1700000000; sec = 1700000000; nsec = 999999999 }

fresh-IsSessionReady : IsSessionReady fresh
unfolding new_client_session reset
fresh-IsSessionReady = record {
  sendable = new_client_session-IsSendable 5000 macs 1700000000 random;
  filled = record { nonempty = omega arith; complete = refl; six_bytes = omega arith };
}

client-IsReady : IsReady client
client-IsReady = record {
  sessions_ready = (fresh-IsSessionReady, tt);
  in_range = omega arith;
  max_pos = omega arith;
  max_le = omega arith;
  addressed = record { six_bytes = refl; src_fits = omega arith; dst_fits = omega arith };
}

send_round-IsServed_example : IsServed client tick random
send_round-IsServed_example = send_round-IsServed tick client random client-IsReady (omega arith)

rollover-rollover_example :
    (rollover 60 1700000040 (rollover 60 1700000000 fresh).1).0
    ≡ not (1700000040 / 60 == 1700000000 / 60)
rollover-rollover_example =
    rollover-rollover 60 1700000000 1700000040 fresh (omega arith) (omega arith)

-- The frame of one packet.
abbrev frame_sent : Sent
frame_sent =
    let (frame, frame_length) = build_frame route (padded_packet (packet_at 8)) 60 56 in
    record { route = route; packet = packet_at 8; bytes = take frame_length (frame_bytes frame) }

abbrev frame_sound : IsSound frame_sent
frame_sound = record {
  sendable = record {
    fits = record {
      version_fits = omega arith;
      start_fits = omega arith;
      guid_length = refl;
      guid_bytes = omega arith;
      seq_fits = omega arith;
      sec_fits = omega arith;
      nsec_fits = omega arith;
      size_fits = omega arith;
    };
    version = refl;
    text = guid_text;
    ends = refl;
    no_zero = omega arith;
  };
  long = omega arith;
  short = omega arith;
  addressed = record { six_bytes = refl; src_fits = omega arith; dst_fits = omega arith };
  next_hop = refl;
  framed = refl;
}

read_next_packet-sent_example :
    let (name, named) = host_name names 77 (init 10) in
    read_next_packet nat_ops names clock
      (record {
        count = some 60;
        buf = drop 42 frame_sent.bytes ++ (9 ∷ []);
        address = 77;
        port = 5000;
      })
      (init 10)
    ≡ receive_ping nat_ops (packet_at 8) 1001 9 name 5000 frame_sound.sendable.text 1001 1001 named
read_next_packet-sent_example =
    read_next_packet-sent nat_ops names clock frame_sent (9 ∷ []) 77 5000 (init 10) frame_sound

sent-udp_checksum_example :
    checksum (datagram (build_frame route (padded_packet (packet_at 8)) 60 56).0) ≡ 0
sent-udp_checksum_example = sent-udp_checksum frame_sent frame_sound

abbrev deliveries : List Delivery
deliveries = arrives frame_sent frame_sound clock (9 ∷ []) 77 5000 ∷ interrupts 1002 ∷ []

abbrev rest_of_loop : Outcome (Manager ℕ) → Outcome (Manager ℕ)
rest_of_loop o = do next ← o; server_loop nat_ops names (signal 1002 ∷ []) next
