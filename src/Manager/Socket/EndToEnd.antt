-- ===== src/Manager/Socket/EndToEnd.antt =====
-- What the client sends is what the server records.
use udping.Base.{ℕ, ◌≤◌, ◌≡◌, ◌≢◌, refl, true, List, [], ◌∷◌, ◌++◌, some, arith, All}
use udping.Packet.{Packet, encode, guid_string}
use udping.Packet.RoundTrip.{IsPacket, decode-encode, guid_string-encode}
use udping.Stats.{DoubleOps}
use udping.Manager.{Manager, ok, receive_ping}
use udping.Manager.Socket.{
  Datagram, NameService, Clock, is_accepted, host_name, guid_of, read_next_packet,
}

-- The datagram that carries a packet; bytes of padding, or of earlier datagrams, follow it in
-- the buffer.
abbrev pub carrying : Packet → List ℕ → ℕ → ℕ → Datagram
carrying p rest address port = record {
  count = some p.size;
  buf = encode p ++ rest;
  address = address;
  port = port;
}

pub carrying-is_accepted :
    (p : Packet) (rest : List ℕ) (address port : ℕ)
    → IsPacket p
    → 56 ≤ p.size
    → p.proto_version ≡ 1
    → is_accepted (carrying p rest address port) ≡ true
unfolding is_accepted
carrying-is_accepted p rest address port v long version = rw (decode-encode p rest v) (ground arith)

guid_of-ok : (buf g : List ℕ) → guid_string buf ≡ some g → guid_of buf ≡ ok g
unfolding guid_of
guid_of-ok buf g e = rw (e, guid_of) refl

module _ {D : Type 0} where
  -- A datagram with a packet of this protocol, whose fields fit their types, whose guid ends in
  -- its only zero byte and whose size is the number of bytes received and at least the header's,
  -- is received as that packet, under that guid, whatever bytes follow it.
  pub read_next_packet-encode :
      (ops : DoubleOps D) (names : NameService) (t : Clock) (p : Packet) (g rest : List ℕ)
      (address port : ℕ) (m : Manager D)
      → IsPacket p
      → p.guid ≡ g ++ (0 ∷ [])
      → All (λ b. b ≢ 0) g
      → 56 ≤ p.size
      → p.proto_version ≡ 1
      → let (name, named) = host_name names address m in
        read_next_packet ops names t (carrying p rest address port) m
        ≡ receive_ping ops p t.sec t.nsec name port g t.arrival t.now named
  unfolding read_next_packet
  read_next_packet-encode ops names t p g rest address port m v ends nonzero long version =
      rw
        (
          carrying-is_accepted p rest address port v long version,
          guid_of-ok (encode p ++ rest) g (guid_string-encode p g rest ends nonzero),
          decode-encode p rest v,
        )
        refl
