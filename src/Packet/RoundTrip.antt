-- ===== src/Packet/RoundTrip.antt =====
-- Casting the bytes of a packet back gives the packet.
use mathlib.Core.List.{append_assoc}
use native.Mathlib.Nat.{zero-add, suc-add}
use udping.Base.{
  ℕ, zero, suc, ◌+◌, ◌^◌, ◌<◌, ◌≡◌, refl, ap, ◌∙◌, List, [], ◌∷◌, ◌++◌, some, arith, le_bytes,
  le_load, take, drop, length, IsBytes, IsByte, All-append, length-append, take-length_append, ◌≢◌,
  All,
}
use udping.Packet.{Packet, encode, encode_tail, decode, c_string, guid_string}

-- Each field fits its type, and `guid` has its 21 bytes.
pub record IsPacket (p : Packet) : Type 0 where
  pub version_fits : p.proto_version < 2 ^ 8
  pub start_fits : p.client_start_time < 2 ^ 32
  pub guid_length : length p.guid ≡ 21
  pub guid_bytes : IsBytes p.guid
  pub seq_fits : p.seq_num < 2 ^ 32
  pub sec_fits : p.sent_sec < 2 ^ 32
  pub nsec_fits : p.sent_nsec < 2 ^ 64
  pub size_fits : p.size < 2 ^ 32

pub drop-length_append :
    (xs ys : List ℕ) (m k : ℕ) → length xs ≡ m → drop (m + k) (xs ++ ys) ≡ drop k ys
drop-length_append [] ys zero k e = rw zero-add
drop-length_append [] ys (suc m) k e = absurd (omega arith)
drop-length_append (x ∷ xs) ys zero k e = absurd (omega arith)
drop-length_append (x ∷ xs) ys (suc m) k e = rw suc-add (drop-length_append xs ys m k (omega arith))

take_of_length : (xs ys : List ℕ) (m : ℕ) → length xs ≡ m → take m (xs ++ ys) ≡ xs
take_of_length xs ys m e = rw (← e) (take-length_append xs ys)

after_guid :
    (p : Packet) (rest : List ℕ) (k : ℕ)
    → length p.guid ≡ 21
    → drop (21 + k) ((p.guid ++ encode_tail p) ++ rest) ≡ drop k (encode_tail p ++ rest)
after_guid p rest k e =
    rw (append_assoc p.guid (encode_tail p) rest)
      (drop-length_append p.guid (encode_tail p ++ rest) 21 k e)

guid_at :
    (p : Packet) (rest : List ℕ)
    → length p.guid ≡ 21
    → take 21 ((p.guid ++ encode_tail p) ++ rest) ≡ p.guid
guid_at p rest e =
    rw (append_assoc p.guid (encode_tail p) rest)
      (take_of_length p.guid (encode_tail p ++ rest) 21 e)

load_after : (p : Packet) (rest : List ℕ) (k width : ℕ) → ℕ
load_after p rest k width = le_load (take width (drop (21 + k) ((p.guid ++ encode_tail p) ++ rest)))

load_after-eq :
    (p : Packet) (rest : List ℕ) (k width : ℕ)
    → length p.guid ≡ 21
    → load_after p rest k width ≡ le_load (take width (drop k (encode_tail p ++ rest)))
unfolding load_after
load_after-eq p rest k width e = ap (λ l. le_load (take width l)) (after_guid p rest k e)

-- Reading the bytes of a packet whose fields fit their types as a packet gives it back, whatever
-- bytes follow.
pub decode-encode : (p : Packet) (rest : List ℕ) → IsPacket p → decode (encode p ++ rest) ≡ p
unfolding decode encode load_after
decode-encode p rest v = λ i. record {
  proto_version = version i;
  client_start_time = start i;
  guid = guid_at p rest v.guid_length i;
  seq_num = seq i;
  sent_sec = sec i;
  sent_nsec = nsec i;
  size = size i;
}
  where
    version : (decode (encode p ++ rest)).proto_version ≡ p.proto_version
    version = omega arith

    start : (decode (encode p ++ rest)).client_start_time ≡ p.client_start_time
    start = omega arith

    seq : (decode (encode p ++ rest)).seq_num ≡ p.seq_num
    seq = load_after-eq p rest 3 4 v.guid_length ∙ (omega arith)

    sec : (decode (encode p ++ rest)).sent_sec ≡ p.sent_sec
    sec = load_after-eq p rest 7 4 v.guid_length ∙ (omega arith)

    nsec : (decode (encode p ++ rest)).sent_nsec ≡ p.sent_nsec
    nsec = load_after-eq p rest 11 8 v.guid_length ∙ (omega arith)

    size : (decode (encode p ++ rest)).size ≡ p.size
    size = load_after-eq p rest 19 4 v.guid_length ∙ (omega arith)

pub length-encode : (p : Packet) → length p.guid ≡ 21 → length (encode p) ≡ 56
unfolding encode
length-encode p e = omega (arith, length-append {0} p.guid (encode_tail p))

-- Every byte of the struct is a byte.
pub encode-IsBytes : (p : Packet) → IsBytes p.guid → IsBytes (encode p)
unfolding encode
encode-IsBytes p b =
    All-append IsByte (le_bytes 1 p.proto_version ++ (0 ∷ 0 ∷ 0 ∷ le_bytes 4 p.client_start_time)) _
      (omega arith) (All-append IsByte p.guid (encode_tail p) b (omega arith))

-- A terminated guid with no zero byte before its terminator is read back as the session's key.
pub c_string-terminated :
    (g rest : List ℕ) → All (λ b. b ≢ 0) g → c_string (g ++ (0 ∷ rest)) ≡ some g
unfolding c_string
c_string-terminated [] rest h = refl
c_string-terminated (b ∷ g) rest h = ground (arith, c_string-terminated g rest h.1)

-- A packet whose guid ends in its only zero byte is looked up under the guid without that byte.
pub guid_string-encode :
    (p : Packet) (g rest : List ℕ)
    → p.guid ≡ g ++ (0 ∷ [])
    → All (λ b. b ≢ 0) g
    → guid_string (encode p ++ rest) ≡ some g
unfolding guid_string encode
guid_string-encode p g rest e h =
    rw
      (append_assoc p.guid (encode_tail p) rest, e, append_assoc g (0 ∷ []) (encode_tail p ++ rest))
      (c_string-terminated g (encode_tail p ++ rest) h)
