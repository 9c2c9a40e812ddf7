-- ===== src/Manager/Socket/Reject.antt =====
-- Malformed datagrams.
use udping.Base.{ℕ, ◌≤◌, ◌≡◌, refl, true, some, arith, inl, inr, Bool-cases, Option-cases}
use udping.Packet.{decode}
use udping.Stats.{DoubleOps}
use udping.Manager.{Manager, ok}
use udping.Manager.Socket.{Datagram, NameService, Clock, is_accepted, read_next_packet}

-- A datagram of at least the header's size, with its own size and the protocol version in it.
pub record IsProper (d : Datagram) (n : ℕ) : Type 0 where
  pub received : d.count ≡ some n
  pub long_enough : 56 ≤ n
  pub right_size : (decode d.buf).size ≡ n
  pub right_version : (decode d.buf).proto_version ≡ 1

pub is_accepted-IsProper : (d : Datagram) → is_accepted d ≡ true → (n : ℕ) × IsProper d n
unfolding is_accepted
is_accepted-IsProper d h = elim (Option-cases d.count) [
  | inl e ↦ absurd (ground arith)
  | inr (n, e) ↦ (
    n,
    record {
      received = e;
      long_enough = ground arith;
      right_size = ground arith;
      right_version = ground arith;
    },
  )
]

module _ {D : Type 0} where
  -- A receive error, a datagram shorter than the header, one whose size field is not the number
  -- of bytes received, and one of another protocol version leave the manager as it was.
  pub read_next_packet-reject :
      (ops : DoubleOps D) (names : NameService) (t : Clock) (d : Datagram) (m : Manager D)
      → ((n : ℕ) → ¬ IsProper d n)
      → read_next_packet ops names t d m ≡ ok m
  unfolding read_next_packet
  read_next_packet-reject ops names t d m bad = elim (Bool-cases (is_accepted d)) [
    | inl good ↦ let (n, p) = is_accepted-IsProper d good in absurd (bad n p)
    | inr refused ↦ rw refused refl
  ]
