-- ===== src/Client/Delivery.antt =====
-- What the client sends, the server takes: from the bytes of a frame to the recorded packet.
use mathlib.Core.List.{append-nil, append_assoc}
use udping.Base.{
  ℕ, zero, suc, ◌+◌, ◌-◌, ◌<◌, ◌≤◌, ◌≡◌, ap, sym, ◌∙◌, subst, List, [], ◌∷◌, ◌++◌, some, arith,
  length, take, drop, replicate, length-replicate, length-append, length-take_of_le,
  take-length_append,
}
use udping.Checksum.{checksum}
use udping.Checksum.Sum.{IsPaired}
use udping.Packet.{Packet, encode, padded_packet}
use udping.Packet.RoundTrip.{IsPacket, length-encode, encode-IsBytes, drop-length_append}
use udping.Frame.{Route, build_frame, frame_bytes}
use udping.Frame.Layout.{build_frame-length}
use udping.Frame.Datagram.{datagram, build_frame-udp_checksum, take-padded}
use udping.Stats.{DoubleOps}
use udping.Manager.{Manager, receive_ping}
use udping.Manager.Socket.{Datagram, NameService, Clock, host_name, read_next_packet}
use udping.Manager.Socket.EndToEnd.{read_next_packet-encode}
use udping.Client.{Sent}
use udping.Client.Sending.{IsSound}

take_all : (xs : List ℕ) (n : ℕ) → length xs ≡ n → take n xs ≡ xs
take_all xs n e =
    let whole : take (length xs) xs ≡ xs =
      ap (take (length xs)) (sym (append-nil xs)) ∙ take-length_append xs [] in
    subst (λ k. take k xs ≡ xs) e whole

-- Behind the Ethernet, IP and UDP headers a frame has its message.
frame_payload :
    (r : Route) (message : List ℕ) (datalen covered : ℕ)
    → 6 ≤ length r.src_mac
    → 6 ≤ length r.dst_mac
    → datalen ≤ length message
    → let (frame, frame_length) = build_frame r message datalen covered in
      drop 42 (take frame_length (frame_bytes frame)) ≡ take datalen message
unfolding build_frame
frame_payload r message datalen covered hs hd hm =
    let (frame, frame_length) = build_frame r message datalen covered in
    ap (drop 42) (
      take_all (frame_bytes frame) frame_length
        (build_frame-length r message datalen covered hs hd hm))
    ∙ drop-length_append (take 6 r.dst_mac) _ 6 36 (length-take_of_le 6 r.dst_mac hd)
    ∙ drop-length_append (take 6 r.src_mac) _ 6 30 (length-take_of_le 6 r.src_mac hs)

padded_size :
    (p : Packet)
    → IsPacket p
    → 56 ≤ p.size
    → p.size < 2000
    → take p.size (padded_packet p) ≡ encode p ++ replicate (p.size - 56) 0
unfolding padded_packet
padded_size p v long short =
    let n = length-encode p v.guid_length in
    let size : length (encode p) + (p.size - 56) ≡ p.size = omega arith in
    subst (λ k. take k (encode p ++ replicate 2000 0) ≡ encode p ++ replicate (p.size - 56) 0) size
      (take-padded (encode p) (p.size - 56) 2000 (omega arith))

length-padded_packet : (p : Packet) → IsPacket p → 2000 ≤ length (padded_packet p)
unfolding padded_packet
length-padded_packet p v =
    omega (arith, length-append (encode p) (replicate 2000 0), length-replicate {A = ℕ} 2000 0)

-- The payload that the receiver's kernel hands over.
pub sent_payload :
    (f : Sent) → IsSound f → drop 42 f.bytes ≡ encode f.packet ++ replicate (f.packet.size - 56) 0
sent_payload f sound =
    let p = f.packet in
    let v = sound.sendable.fits in
    ap (drop 42) sound.framed
    ∙ frame_payload f.route (padded_packet p) p.size 56 (omega (arith, sound.addressed.six_bytes))
        (omega (arith, sound.next_hop)) (omega (arith, length-padded_packet p v, sound.short))
    ∙ padded_size p v sound.long sound.short

module _ {D : Type 0} where
  -- The server takes the payload of every sound frame for the packet that the client sent, under
  -- the packet's guid, whatever the receive buffer has behind the payload.
  pub read_next_packet-sent :
      (ops : DoubleOps D) (names : NameService) (t : Clock) (f : Sent) (rest : List ℕ)
      (address port : ℕ) (m : Manager D) (sound : IsSound f)
      → let (name, named) = host_name names address m in
        read_next_packet ops names t
          (record {
            count = some f.packet.size;
            buf = drop 42 f.bytes ++ rest;
            address = address;
            port = port;
          })
          m
        ≡ receive_ping ops f.packet t.sec t.nsec name port sound.sendable.text t.arrival t.now named
  read_next_packet-sent ops names t f rest address port m sound =
      let p = f.packet in
      let v = sound.sendable in
      let zeros = replicate (p.size - 56) 0 in
      let buf : drop 42 f.bytes ++ rest ≡ encode p ++ (zeros ++ rest) =
        ap (λ b. b ++ rest) (sent_payload f sound) ∙ append_assoc (encode p) zeros rest in
      let read : List ℕ → Datagram =
        λ b. record { count = some p.size; buf = b; address = address; port = port } in
      ap (λ b. read_next_packet ops names t (read b) m) buf
      ∙ read_next_packet-encode ops names t p v.text (zeros ++ rest) address port m v.fits v.ends
          v.no_zero sound.long v.version

length-IsPaired : (k : ℕ) (xs : List ℕ) → length xs ≡ k + k → IsPaired xs
length-IsPaired k [] e = tt
length-IsPaired k (b ∷ []) e = absurd (omega arith)
length-IsPaired zero (lo ∷ hi ∷ xs) e = absurd (omega arith)
length-IsPaired (suc k) (lo ∷ hi ∷ xs) e = length-IsPaired k xs (omega arith)

-- The UDP checksum of a sound frame, though summed over the packet's header alone, passes the
-- receiver's check over the whole datagram.
pub sent-udp_checksum :
    (f : Sent)
    → IsSound f
    → checksum (datagram (build_frame f.route (padded_packet f.packet) f.packet.size 56).0) ≡ 0
unfolding padded_packet
sent-udp_checksum f sound =
    let p = f.packet in
    let v = sound.sendable.fits in
    let n = length-encode p v.guid_length in
    let size : length (encode p) + (p.size - 56) ≡ p.size = omega (arith, sound.long) in
    subst (λ (k : ℕ × ℕ). checksum (datagram (build_frame f.route (padded_packet p) k.0 k.1).0) ≡ 0)
      (λ i. (size i, n i))
      (build_frame-udp_checksum f.route (encode p) (p.size - 56) 2000 sound.addressed.src_fits
        sound.addressed.dst_fits (omega arith) (length-IsPaired 28 (encode p) n)
        (encode-IsBytes p v.guid_bytes) (omega (arith, sound.short)) (omega (arith, sound.short)))
