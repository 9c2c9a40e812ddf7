-- ===== src/Manager/Socket.antt =====
-- `readNextPacket` of src/serversession.cc: the checks of a datagram, and the name of its sender.
-- The name service and the clocks are parameters.
pub mod Names
pub mod Reject
pub mod EndToEnd
use udping.Base.{
  ℕ, Bool, true, false, List, [], ◌∷◌, Option, none, some, ltb, ◌==◌, if◌then◌else◌, not,
}
use udping.Constants.{packet_size, proto_version}
use udping.Map.{find, insert}
use udping.Map.Keys.{nat_key}
use udping.Packet.{Packet, decode, guid_string}
use udping.Stats.{DoubleOps}
use udping.Manager.{Manager, Outcome, ok, fault, ◌>>=◌, receive_ping}

-- What recvfrom leaves: the number of bytes, none for an error, the buffer as it is after the
-- call, and the sender's address and port.
pub record Datagram : Type 0 where
  pub count : Option ℕ
  pub buf : List ℕ
  pub address : ℕ
  pub port : ℕ

-- `gethostbyaddr`, which may know no name, and `inet_ntoa`.
pub record NameService : Type 0 where
  pub host_by_addr : ℕ → Option (List ℕ)
  pub ntoa : ℕ → List ℕ

-- The clock at receipt, and the two readings of `time(0)`.
pub record Clock : Type 0 where
  pub sec : ℕ
  pub nsec : ℕ
  pub arrival : ℕ
  pub now : ℕ

-- A datagram that passes every check.
unfoldable pub is_accepted : Datagram → Bool
is_accepted d = elim d.count [
  | none ↦ false
  | some n ↦
      if ltb n packet_size
      then false
      else if not (n == (decode d.buf).size)
      then false
      else (decode d.buf).proto_version == proto_version
]

abbrev pub cached_name : Option (List ℕ) → List ℕ
cached_name none = []
cached_name (some name) = name

abbrev pub looked_up : NameService → ℕ → List ℕ
looked_up names address = elim (names.host_by_addr address) [
  | some name ↦ name
  | none ↦ names.ntoa address
]

unfoldable pub guid_of : List ℕ → Outcome (List ℕ)
guid_of buf = elim (guid_string buf) [ none ↦ fault | some guid ↦ ok guid ]

module _ {D : Type 0} where
  -- The sender's name, from the cache or looked up and put there.
  unfoldable pub host_name : NameService → ℕ → Manager D → List ℕ × Manager D
  host_name names address m = elim (cached_name (find address m.host_map)) [
    | [] ↦
        let name = looked_up names address in
        (name, record m { host_map = insert address name m.host_map })
    | c ∷ cs ↦ (c ∷ cs, m)
  ]

  -- The state afterwards; the number of bytes that the method returns is `d.count`.
  unfoldable pub read_next_packet :
      DoubleOps D → NameService → Clock → Datagram → Manager D → Outcome (Manager D)
  unfolding is_accepted host_name
  read_next_packet ops names t d m = if not (is_accepted d) then ok m else (do
    let ph = decode d.buf
    let (name, named) = host_name names d.address m
    guid ← guid_of d.buf
    receive_ping ops ph t.sec t.nsec name d.port guid t.arrival t.now named)
