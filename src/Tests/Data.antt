-- ===== src/Tests/Data.antt =====
-- The concrete inputs that the tests share.
use udping.Base.{ℕ, ◌+◌, ◌-◌, ◌*◌, ◌/◌, List, [], ◌∷◌, ◌++◌, ltb, replicate, none, some, All}
use udping.Stats.{DoubleOps, IsOrdered}
use udping.Packet.{Packet}
use udping.Frame.{Route}
use udping.Map.Keys.{ltb_irrefl, ltb_trans}
use udping.Packet.{encode, guid_string}
use udping.Manager.Socket.EndToEnd.{carrying}
use udping.Manager.Serving.{Input, datagram, signal}
use udping.Manager.Serving.Faults.{HasGuid}
use udping.Manager.Socket.{Datagram, NameService, Clock}

-- Whole milliseconds in the place of `double`.
abbrev pub nat_ops : DoubleOps ℕ
nat_ops = record {
  of_int = λ n. n;
  lowest = 0;
  add = ◌+◌;
  sub = ◌-◌;
  mul = ◌*◌;
  div = ◌/◌;
  lt = ltb;
}

abbrev pub nat_ops-IsOrdered : IsOrdered nat_ops
nat_ops-IsOrdered = record { lt_irrefl = ltb_irrefl; lt_trans = ltb_trans }

-- Twenty characters '7'.
abbrev pub guid_text : List ℕ
guid_text = replicate 20 55

abbrev pub packet_at : ℕ → Packet
packet_at seq = record {
  proto_version = 1;
  client_start_time = 1000;
  guid = guid_text ++ (0 ∷ []);
  seq_num = seq;
  sent_sec = 1001;
  sent_nsec = 5;
  size = 60;
}

abbrev pub route : Route
route = record {
  src_mac = 1 ∷ 2 ∷ 3 ∷ 4 ∷ 5 ∷ 6 ∷ [];
  dst_mac = 11 ∷ 12 ∷ 13 ∷ 14 ∷ 15 ∷ 16 ∷ [];
  src_ip = 0x0100007f;
  dst_ip = 0x0200000a;
  src_port = 5000;
  dst_port = 6000;
}

abbrev pub names : NameService
names = record { host_by_addr = λ a. none; ntoa = λ a. 49 ∷ 46 ∷ 50 ∷ [] }

abbrev pub clock : Clock
clock = record { sec = 1001; nsec = 9; arrival = 1001; now = 1001 }

-- A datagram with a session of one packet, one that is too short, and an alarm.
abbrev pub server_input : List Input
server_input =
    datagram clock (carrying (packet_at 8) [] 77 5000)
    ∷ datagram clock (record { count = some 20; buf = []; address = 1; port = 2 })
    ∷ signal 1002
    ∷ []

pub server_input-HasGuid : All HasGuid server_input
unfolding guid_string encode udping.Manager.Socket.is_accepted
server_input-HasGuid = (λ good e. absurd (cc), (λ good e. absurd (cc), (tt, tt)))
