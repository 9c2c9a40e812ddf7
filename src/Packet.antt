-- ===== src/Packet.antt =====
-- `packet` and `paddedPacket` of include/protocol.h, with their layout in memory: the client
-- sends the struct as it lies there, and the server reads the received bytes as the struct.
pub mod RoundTrip
use udping.Base.{
  ℕ, List, [], ◌∷◌, ◌++◌, Option, none, some, ◌==◌, if◌then◌else◌, le_bytes, le_load, take, drop,
  replicate, get_or,
}
use mathlib.Core.Option
use udping.Constants.{max_buf}

pub record Packet : Type 0 where
  pub proto_version : ℕ
  pub client_start_time : ℕ
  pub guid : List ℕ
  pub seq_num : ℕ
  pub sent_sec : ℕ
  pub sent_nsec : ℕ
  pub size : ℕ

-- The fields behind `guid`: padding to offset 32, then the numbers and the padding at the end.
abbrev pub encode_tail : Packet → List ℕ
encode_tail p =
    0
    ∷ 0
    ∷ 0
    ∷ (le_bytes 4 p.seq_num
        ++ (le_bytes 4 p.sent_sec
            ++ (le_bytes 8 p.sent_nsec ++ (le_bytes 4 p.size ++ replicate 4 0))))

-- The struct's 56 bytes; the client clears it before use, so the padding is zero.
unfoldable pub encode : Packet → List ℕ
encode p =
    (le_bytes 1 p.proto_version ++ (0 ∷ 0 ∷ 0 ∷ le_bytes 4 p.client_start_time))
    ++ (p.guid ++ encode_tail p)

-- A number of `k` bytes at an offset of a buffer.
abbrev pub load_at : ℕ → ℕ → List ℕ → ℕ
load_at offset k buf = le_load (take k (drop offset buf))

-- The cast of a buffer to a packet.
unfoldable pub decode : List ℕ → Packet
decode buf = record {
  proto_version = load_at 0 1 buf;
  client_start_time = load_at 4 4 buf;
  guid = take 21 (drop 8 buf);
  seq_num = load_at 32 4 buf;
  sent_sec = load_at 36 4 buf;
  sent_nsec = load_at 40 8 buf;
  size = load_at 48 4 buf;
}

-- A char pointer read as a string: the bytes before the first zero. `none` is a read past the
-- memory that the list holds.
unfoldable pub c_string : List ℕ → Option (List ℕ)
c_string [] = none
c_string (b ∷ bs) = if b == 0 then some [] else Option.map (◌∷◌ b) (c_string bs)

-- `p->guid` used as a string: it starts at the offset of `guid` and ends at a zero byte, which
-- the struct's own bounds do not stop.
unfoldable pub guid_string : List ℕ → Option (List ℕ)
unfolding c_string
guid_string buf = c_string (drop 8 buf)

-- A header with its zeroed padding.
unfoldable pub padded_packet : Packet → List ℕ
unfolding encode
padded_packet p = encode p ++ replicate max_buf 0
