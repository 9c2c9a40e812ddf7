-- ===== src/Client.antt =====
-- `ClientSession` and `ClientSessionList` of src/clientsession.cc, `sendMessage` of
-- src/protocol.cc, and the sending loop of src/client.cc. The outputs of `rand` are a sequence
-- with the number of those drawn so far; clocks are arguments.
pub mod Invariant
pub mod Rollover
pub mod Sending
pub mod Rounds
pub mod Run
pub mod Sequence
pub mod Delivery
pub mod Arrivals
use udping.Base.{
  ℕ, zero, suc, ◌+◌, ◌-◌, ◌*◌, ◌/◌, ◌%◌, ◌^◌, List, [], ◌∷◌, ◌++◌, Option, none, some, Bool, true,
  false, ltb, ◌==◌, if◌then◌else◌, length, get_elem?, set, take, drop, replicate, u32,
}
use udping.Constants.{max_guid, packet_size, proto_version}
use udping.Packet.{Packet, padded_packet}
use udping.Frame.{Route, build_frame, frame_bytes}
use udping.Mac.{MacList, next_mac}

pub record ClientSession : Type 0 where
  pub packet : Packet
  pub port : ℕ
  pub last_rollover : ℕ
  pub dst_macs : MacList

-- The fields that the sessions share, the sessions, and the place of `curSession` among them.
pub record ClientList : Type 0 where
  pub max_packet_size : ℕ
  pub interval : ℕ
  pub src_ip : ℕ
  pub dst_ip : ℕ
  pub src_mac : List ℕ
  pub dst_port : ℕ
  pub sessions : List ClientSession
  pub cur_session : ℕ

-- `rand`: its outputs, and how many were drawn.
pub record Random : Type 0 where
  pub draw : ℕ → ℕ
  pub drawn : ℕ

abbrev pub advance : Random → ℕ → Random
advance r n = record r { drawn = r.drawn + n }

-- `hexdigits[n]`.
abbrev pub hex_digit : ℕ → ℕ
hex_digit n = if ltb n 10 then 48 + n else 87 + n

-- The loop of `generateGuid`.
unfoldable pub guid_digits : (ℕ → ℕ) → ℕ → ℕ → List ℕ
guid_digits draw start zero = []
guid_digits draw start (suc n) = hex_digit (draw start % 16) ∷ guid_digits draw (start + 1) n

-- A new guid in the packet; the byte behind its 20 characters stays.
unfoldable pub reset : ClientSession → Random → ClientSession × Random
reset s r =
    let digits = guid_digits r.draw r.drawn max_guid in
    let packet = record s.packet { guid = digits ++ drop max_guid s.packet.guid } in
    (record s { packet = packet }, advance r max_guid)

-- The constructor: a cleared packet, then `reset`.
unfoldable pub new_client_session : ℕ → MacList → ℕ → Random → ClientSession × Random
new_client_session port macs now r =
    let cleared : Packet = record {
      proto_version = proto_version;
      client_start_time = u32 now;
      guid = replicate 21 0;
      seq_num = 0;
      sent_sec = 0;
      sent_nsec = 0;
      size = 0;
    } in
    reset (record { packet = cleared; port = port; last_rollover = 0; dst_macs = macs }) r

-- Whether a new measurement interval began, from the time rounded down to the interval.
unfoldable pub rollover : ℕ → ℕ → ClientSession → Bool × ClientSession
rollover interval now s =
    let cur_time = now - now % interval in
    let last = if s.last_rollover == 0 then cur_time else s.last_rollover in
    if cur_time == last
    then (false, record s { last_rollover = last })
    else (true, record s { last_rollover = cur_time })

unfoldable pub increment : ClientSession → ClientSession
increment s = record s { packet = record s.packet { seq_num = u32 (s.packet.seq_num + 1) } }

-- The bytes that `sendto` is given and the number that `sendMessage` returns, which is always
-- the length of the message.
unfoldable pub send_message : Route → List ℕ → ℕ → ℕ → List ℕ × ℕ
send_message r message datalen covered =
    let (frame, frame_length) = build_frame r message datalen covered in
    (take frame_length (frame_bytes frame), datalen)

-- A frame on its way: the route and the packet that it was built from, and its bytes.
pub record Sent : Type 0 where
  pub route : Route
  pub packet : Packet
  pub bytes : List ℕ

abbrev pub sent_size : ℕ → ℕ
sent_size size = if ltb size packet_size then packet_size else size

abbrev pub route_of : ClientList → ClientSession → List ℕ → Route
route_of l s dst_mac = record {
  src_mac = l.src_mac;
  dst_mac = dst_mac;
  src_ip = l.src_ip;
  dst_ip = l.dst_ip;
  src_port = s.port;
  dst_port = l.dst_port;
}

-- `none` is a copy from a null next-hop address.
unfoldable pub send_packet : ClientList → ℕ → ClientSession → Option (Sent × ClientSession)
send_packet l size s =
    let (mac, macs) = next_mac s.dst_macs in
    let packet = record s.packet { size = sent_size size } in
    elim mac [
      | none ↦ none
      | some dst_mac ↦
          let route = route_of l s dst_mac in
          let (bytes, n_sent) =
            send_message route (padded_packet packet) (sent_size size) packet_size in
          some (
            record { route = route; packet = packet; bytes = bytes },
            record s { packet = packet; dst_macs = macs },
          )
    ]

-- `sec` and `nsec` are the clock's; the size is the next output of `rand` modulo the maximum.
unfoldable pub send_ping_packet :
    ClientList → ℕ → ℕ → ClientSession → Random → Option ((Sent × ClientSession) × Random)
send_ping_packet l sec nsec s r =
    let stamped = record s.packet { sent_sec = u32 sec; sent_nsec = nsec } in
    elim (send_packet l (r.draw r.drawn % l.max_packet_size) (record s { packet = stamped })) [
      | none ↦ none
      | some out ↦ some (out, advance r 1)
    ]

-- The place of the next session, and the list with `curSession` moved on, from the end to the
-- start.
unfoldable pub get_next_session : ClientList → ℕ × ClientList
get_next_session l =
    let next = l.cur_session + 1 in
    (l.cur_session, record l { cur_session = if next == length l.sessions then 0 else next })

-- What the clock shows in one round of the loop.
pub record Tick : Type 0 where
  pub now : ℕ
  pub sec : ℕ
  pub nsec : ℕ

abbrev pub rolled : ℕ → Tick → ClientSession → Random → ClientSession × Random
rolled interval t s r =
    let (over, s1) = rollover interval t.now s in if over then reset s1 r else (s1, r)

-- One round of `while (1)`; `none` is a read past the end of the sessions or of a null address.
unfoldable pub send_round : Tick → ClientList → Random → Option (Sent × (ClientList × Random))
send_round t l r =
    let (at, moved) = get_next_session l in
    elim (get_elem? l.sessions at) [
      | none ↦ none
      | some s ↦
          let (s1, r1) = rolled l.interval t s r in
          elim (send_ping_packet moved t.sec t.nsec s1 r1) [
            | none ↦ none
            | some ((sent, s2), r2) ↦
                some (sent, (record moved { sessions = set l.sessions at (increment s2) }, r2))
          ]
    ]

-- Rounds of the loop without their pauses, one for each reading of the clock, and the frames sent.
unfoldable pub send_rounds :
    List Tick → ClientList → Random → Option (List Sent × (ClientList × Random))
send_rounds [] l r = some ([], (l, r))
send_rounds (t ∷ ts) l r = elim (send_round t l r) [
  | none ↦ none
  | some (f, (l1, r1)) ↦ elim (send_rounds ts l1 r1) [
    | none ↦ none
    | some (fs, end) ↦ some (f ∷ fs, end)
  ]
]
