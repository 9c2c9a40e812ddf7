-- ===== src/Session.antt =====
-- `ServerSession` of src/serversession.cc and include/serversession.h: one stream of packets.
pub mod Window
pub mod Coverage
pub mod Adjacent
pub mod Bursts
use udping.Base.{ℕ, ◌+◌, ◌-◌, ◌%◌, ◌^◌, Bool, ◌&&◌, List, [], ◌∷◌, ltb, if◌then◌else◌, sub32, u32}
use udping.Packet.{Packet}
use udping.Stats.{DoubleOps, Stats, init}

pub record ServerSession (D : Type 0) : Type 0 where
  pub client_start_time : ℕ
  pub successor : List ℕ
  pub last_arrival : ℕ
  pub min_seq : ℕ
  pub max_seq : ℕ
  pub stats : Stats D
  -- The guid, peer and port that `statsWriters` holds.
  pub guid : List ℕ
  pub peer : List ℕ
  pub port : ℕ

-- A sequence number is 1 to 9 ahead of another, in 32-bit arithmetic.
abbrev pub is_ahead : ℕ → ℕ → Bool
is_ahead a b = ltb 0 (sub32 a b) && ltb (sub32 a b) 10

module _ {D : Type 0} where
  -- A new session for the stream that `p` begins; `guid` is `p->guid` as a string.
  unfoldable pub new_session : DoubleOps D → List ℕ → List ℕ → ℕ → Packet → ServerSession D
  unfolding init
  new_session ops guid peer port p = record {
    client_start_time = p.client_start_time;
    successor = [];
    last_arrival = 0;
    min_seq = p.seq_num;
    max_seq = p.seq_num;
    stats = init ops;
    guid = guid;
    peer = peer;
    port = port;
  }

  unfoldable pub record_seq : ServerSession D → ℕ → ServerSession D
  record_seq s seq_num = record s {
    max_seq = if is_ahead seq_num s.max_seq then seq_num else s.max_seq;
    min_seq = if is_ahead s.min_seq seq_num then seq_num else s.min_seq;
  }

  -- The target count that `writeStats` sets: `1 + maxSeq - minSeq` in 32 bits.
  abbrev pub target_count : ServerSession D → ℕ
  target_count s = u32 (1 + s.max_seq + 2 ^ 32 - s.min_seq)

  -- The session as `writeStats` hands it to the writer.
  unfoldable pub with_target : ServerSession D → ServerSession D
  with_target s = record s { stats = record s.stats { target_count = target_count s } }

  -- The sequence numbers of a stream, recorded in the order of arrival.
  unfoldable pub record_all : ServerSession D → List ℕ → ServerSession D
  unfolding record_seq
  record_all s [] = s
  record_all s (n ∷ ns) = record_all (record_seq s n) ns
