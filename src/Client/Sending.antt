-- ===== src/Client/Sending.antt =====
-- The packets that a ready session sends: each is complete, sound and stamped.
use native.Mathlib.Nat.{mod-lt}
use udping.Base.{
  List, ℕ, ◌-◌, ◌%◌, ◌^◌, ◌<◌, ◌≤◌, ◌≡◌, refl, ap, ◌∙◌, Bool, true, false, some, arith, length, All,
  u32, take, if◌then◌else◌, ◌==◌,
}
use udping.Packet.{Packet, padded_packet}
use udping.Frame.{build_frame, frame_bytes}
use udping.Mac.{next_mac}
use udping.Mac.Rotation.{IsFilled, next_mac-some}
use udping.Client.{
  advance, ClientSession, ClientList, Random, Sent, Tick, reset, rollover, send_message,
  send_packet, send_ping_packet, sent_size, rolled, route_of,
}
use udping.Client.Invariant.{IsSendable, reset-IsSendable, update-IsSendable}

-- A session can send: its packet is complete, and it has a next-hop address.
pub record IsSessionReady (s : ClientSession) : Type 0 where
  pub sendable : IsSendable s.packet
  pub filled : IsFilled s.dst_macs

-- The sender's MAC address has six bytes, and the addresses of both hosts have 32 bits.
pub record IsAddressed (src_mac : List ℕ) (src_ip dst_ip : ℕ) : Type 0 where
  pub six_bytes : length src_mac ≡ 6
  pub src_fits : src_ip < 2 ^ 32
  pub dst_fits : dst_ip < 2 ^ 32

-- The maximum size is in the range that the options allow, 1 to 2000, and `curSession` is a
-- session.
pub record IsReady (l : ClientList) : Type 0 where
  pub sessions_ready : All IsSessionReady l.sessions
  pub in_range : l.cur_session < length l.sessions
  pub max_pos : 0 < l.max_packet_size
  pub max_le : l.max_packet_size ≤ 2000
  pub addressed : IsAddressed l.src_mac l.src_ip l.dst_ip

-- The frame has a complete packet, of at least the header's size, with its zero padding, and goes
-- between addresses of the right widths.
pub record IsSound (f : Sent) : Type 0 where
  pub sendable : IsSendable f.packet
  pub long : 56 ≤ f.packet.size
  pub short : f.packet.size < 2000
  pub addressed : IsAddressed f.route.src_mac f.route.src_ip f.route.dst_ip
  pub next_hop : length f.route.dst_mac ≡ 6
  pub framed : f.bytes ≡ (
      let (frame, frame_length) = build_frame f.route (padded_packet f.packet) f.packet.size 56 in
      take frame_length (frame_bytes frame))

pub send_packet_lem :
    (l : ClientList) (size : ℕ) (s : ClientSession)
    → IsAddressed l.src_mac l.src_ip l.dst_ip
    → IsSessionReady s
    → size < 2000
    → (f : Sent) × (s' : ClientSession) × (send_packet l size s ≡ some (f, s'))
      × IsSound f
      × IsSessionReady s'
      × (f.packet ≡ record s.packet { size = sent_size size })
      × (s'.packet ≡ f.packet)
unfolding send_packet send_message
send_packet_lem l size s addressed ready h =
    let (mac, handed, six, filled) = next_mac-some s.dst_macs ready.filled in
    let p = s.packet in
    let v = ready.sendable in
    let sent : Packet = record p { size = sent_size size } in
    let long : 56 ≤ sent_size size = ground arith in
    let short : sent_size size < 2000 = ground arith in
    let good : IsSendable sent =
      update-IsSendable p p.seq_num p.sent_sec p.sent_nsec (sent_size size) v v.fits.seq_fits
        v.fits.sec_fits v.fits.nsec_fits (omega arith) in
    let route = route_of l s mac in
    let (frame, frame_length) = build_frame route (padded_packet sent) (sent_size size) 56 in
    let bytes = take frame_length (frame_bytes frame) in
    (
      record { route = route; packet = sent; bytes = bytes },
      record s { packet = sent; dst_macs = (next_mac s.dst_macs).1 },
      rw (send_packet, handed) refl,
      record {
        sendable = good;
        long = long;
        short = short;
        addressed = addressed;
        next_hop = six;
        framed = refl;
      },
      record { sendable = good; filled = filled },
      refl,
      refl,
    )

-- Ready as before, and at the same sequence number.
pub record Keeps (s s' : ClientSession) : Type 0 where
  pub ready : IsSessionReady s'
  pub same_seq : s'.packet.seq_num ≡ s.packet.seq_num

rollover-Keeps :
    (interval now : ℕ) (s : ClientSession) → IsSessionReady s → Keeps s (rollover interval now s).1
unfolding rollover
rollover-Keeps interval now s ready =
    let cur = now - now % interval in
    let last = if s.last_rollover == 0 then cur else s.last_rollover in
    let moved : Bool → Bool × ClientSession = λ b.
      if b
      then (false, record s { last_rollover = last })
      else (true, record s { last_rollover = cur }) in
    elim (cur == last) as (λ b. Keeps s (moved b).1) [
      | true ↦ record {
        ready = record { sendable = ready.sendable; filled = ready.filled };
        same_seq = refl;
      }
      | false ↦ record {
        ready = record { sendable = ready.sendable; filled = ready.filled };
        same_seq = refl;
      }
    ]

reset_if-Keeps :
    (s s' : ClientSession) (r : Random) (over : Bool)
    → Keeps s s'
    → Keeps s (if over then reset s' r else (s', r)).0
unfolding reset
reset_if-Keeps s s' r true k = record {
  ready = record { sendable = reset-IsSendable s' r k.ready.sendable; filled = k.ready.filled };
  same_seq = k.same_seq;
}
reset_if-Keeps s s' r false k = k

pub rolled-Keeps :
    (interval : ℕ) (t : Tick) (s : ClientSession) (r : Random)
    → IsSessionReady s
    → Keeps s (rolled interval t s r).0
rolled-Keeps interval t s r ready =
    let (over, s1) = rollover interval t.now s in
    reset_if-Keeps s s1 r over (rollover-Keeps interval t.now s ready)

-- A ping carries the session's sequence number and the clock's time.
pub record Carries (p : Packet) (n s ns : ℕ) : Type 0 where
  pub seq : p.seq_num ≡ n
  pub sec : p.sent_sec ≡ u32 s
  pub nsec : p.sent_nsec ≡ ns

pub send_ping_packet_lem :
    (l : ClientList) (sec nsec : ℕ) (s : ClientSession) (r : Random)
    → 0 < l.max_packet_size
    → l.max_packet_size ≤ 2000
    → nsec < 2 ^ 64
    → IsAddressed l.src_mac l.src_ip l.dst_ip
    → IsSessionReady s
    → (f : Sent) × (s' : ClientSession) × (send_ping_packet l sec nsec s r
        ≡ some ((f, s'), advance r 1))
      × IsSound f
      × Carries f.packet s.packet.seq_num sec nsec
      × IsSessionReady s'
      × (s'.packet.seq_num ≡ s.packet.seq_num)
unfolding send_ping_packet
send_ping_packet_lem l sec nsec s r pos le fits addressed ready =
    let p = s.packet in
    let v = ready.sendable in
    let size = r.draw r.drawn % l.max_packet_size in
    let stamped : ClientSession = record s {
      packet = record p { sent_sec = u32 sec; sent_nsec = nsec };
    } in
    let stamped_ready : IsSessionReady stamped = record {
      sendable =
          update-IsSendable p p.seq_num (u32 sec) nsec p.size v v.fits.seq_fits (omega arith) fits
            v.fits.size_fits;
      filled = ready.filled;
    } in
    let below : size < 2000 = omega (arith, mod-lt (r.draw r.drawn) pos) in
    let (f, s', run, sound, ready', packet, after) =
      send_packet_lem l size stamped addressed stamped_ready below in
    (
      f,
      s',
      rw (send_ping_packet, run) refl,
      sound,
      record {
        seq = ap (λ q. q.seq_num) packet;
        sec = ap (λ q. q.sent_sec) packet;
        nsec = ap (λ q. q.sent_nsec) packet;
      },
      ready',
      ap (λ q. q.seq_num) (after ∙ packet),
    )
