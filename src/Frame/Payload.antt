-- ===== src/Frame/Payload.antt =====
-- The sum of `udp4_checksum2` against the bytes that RFC 768 names: a pseudo header, the UDP
-- header and the payload.
use udping.Base.{
  ℕ, ◌+◌, ◌*◌, ◌/◌, ◌%◌, ◌^◌, ◌≤◌, ◌<◌, ◌≡◌, sym, ap, ◌∙◌, List, [], ◌∷◌, ◌++◌, arith, u32,
  le_bytes, IsBytes, length, All-append, IsByte, length-append,
}
use udping.Checksum.{checksum, fold_carries, complement16}
use udping.Checksum.Sum.{word_sum, IsPaired, word_sum-le}
use udping.Checksum.Verify.{checksum-eq, with_field, word_sum-with_field, checksum_verifies}
use udping.Frame.{IpHeader, UdpHeader, sum_payload, header_sum, udp4_checksum2}

-- Source and destination address, a zero byte, the protocol and the UDP length.
unfoldable pub pseudo_header : IpHeader → UdpHeader → List ℕ
pseudo_header ip udp =
    le_bytes 4 ip.ip_src ++ (le_bytes 4 ip.ip_dst ++ (0 ∷ ip.ip_p ∷ le_bytes 2 udp.len))

-- The bytes in front of the UDP checksum field, pseudo header included.
unfoldable pub before_check : IpHeader → UdpHeader → List ℕ
unfolding pseudo_header
before_check ip udp =
    le_bytes 4 ip.ip_src
    ++ (le_bytes 4 ip.ip_dst
        ++ (0
            ∷ ip.ip_p
            ∷ (le_bytes 2 udp.len
                ++ (le_bytes 2 udp.source ++ (le_bytes 2 udp.dest ++ le_bytes 2 udp.len)))))

-- The header fields that the sum reads fit their types.
pub record FitsHeaders (ip : IpHeader) (udp : UdpHeader) : Type 0 where
  pub src_fits : ip.ip_src < 2 ^ 32
  pub dst_fits : ip.ip_dst < 2 ^ 32
  pub protocol_fits : ip.ip_p < 2 ^ 8
  pub source_fits : udp.source < 2 ^ 16
  pub dest_fits : udp.dest < 2 ^ 16
  pub len_fits : udp.len < 2 ^ 16

pub header_sum-lt :
    (ip : IpHeader) (udp : UdpHeader) → FitsHeaders ip udp → header_sum ip udp < 600000
header_sum-lt ip udp f = omega arith

pub header_sum-eq :
    (ip : IpHeader) (udp : UdpHeader)
    → FitsHeaders ip udp
    → header_sum ip udp ≡ word_sum (before_check ip udp)
unfolding word_sum before_check
header_sum-eq ip udp f = omega arith

pub before_check-IsPaired : (ip : IpHeader) (udp : UdpHeader) → IsPaired (before_check ip udp)
unfolding before_check
before_check-IsPaired ip udp = tt

sum_payload-eq :
    (s : ℕ) (bs : List ℕ) → s < 2 ^ 32 → IsPaired bs → sum_payload s bs ≡ u32 (s + word_sum bs)
unfolding sum_payload word_sum
sum_payload-eq s [] h p = omega arith
sum_payload-eq s (b ∷ []) h p = absurd p
sum_payload-eq s (lo ∷ hi ∷ rest) h p =
    omega (arith, sum_payload-eq (u32 (s + (lo + 256 * hi))) rest (omega arith) p)

before_check-facts :
    (ip : IpHeader) (udp : UdpHeader)
    → FitsHeaders ip udp
    → IsBytes (before_check ip udp) × (length (before_check ip udp) ≡ 18)
unfolding before_check
before_check-facts ip udp f = (omega arith, omega arith)

pub with_check-facts :
    (ip : IpHeader) (udp : UdpHeader) (payload : List ℕ) (c : ℕ)
    → FitsHeaders ip udp
    → c < 65536
    → IsBytes payload
    → length payload ≤ 65535
    → IsBytes (with_field (before_check ip udp) c payload)
      × (length (with_field (before_check ip udp) c payload) ≤ 70000)
with_check-facts ip udp payload c f c_lt b h =
    let (bytes, len) = before_check-facts ip udp f in
    (
      All-append IsByte (before_check ip udp) _ bytes (omega arith, (omega arith, b)),
      omega
          (arith, length-append (before_check ip udp) ((c % 256) ∷ (c / 256 % 256) ∷ payload), len),
    )

payload_total :
    (ip : IpHeader) (udp : UdpHeader) (payload : List ℕ)
    → FitsHeaders ip udp
    → IsPaired payload
    → IsBytes payload
    → length payload ≤ 65535
    → sum_payload (header_sum ip udp) payload
      ≡ word_sum (with_field (before_check ip udp) 0 payload)
payload_total ip udp payload f even b h = omega (
  arith,
  sum_payload-eq (header_sum ip udp) payload (omega (arith, header_sum-lt ip udp f)) even,
  header_sum-lt ip udp f,
  header_sum-eq ip udp f,
  word_sum-le payload b,
  word_sum-with_field (before_check ip udp) payload 0 (omega arith) (before_check-IsPaired ip udp),
)

pub udp4_checksum2-lt :
    (ip : IpHeader) (udp : UdpHeader) (payload : List ℕ) → udp4_checksum2 ip udp payload < 65536
unfolding udp4_checksum2
udp4_checksum2-lt ip udp payload = omega arith

-- If the header fields fit their widths, then on at most 65,535 bytes of payload, even in number,
-- the routine that reads the headers in place computes the checksum of the bytes that RFC 768
-- names, with the check field zero.
pub udp4_checksum2-eq :
    (ip : IpHeader) (udp : UdpHeader) (payload : List ℕ)
    → FitsHeaders ip udp
    → IsPaired payload
    → IsBytes payload
    → length payload ≤ 65535
    → udp4_checksum2 ip udp payload ≡ checksum (with_field (before_check ip udp) 0 payload)
unfolding udp4_checksum2
udp4_checksum2-eq ip udp payload f even b h =
    let facts = with_check-facts ip udp payload 0 f (omega arith) b h in
    ap (λ s. complement16 (fold_carries s)) (payload_total ip udp payload f even b h)
    ∙ sym
        (checksum-eq (with_field (before_check ip udp) 0 payload) facts.0 (omega (arith, facts.1)))

-- The receiver's check over pseudo header, UDP header and an even payload gives zero.
pub udp4_checksum2_verifies :
    (ip : IpHeader) (udp : UdpHeader) (payload : List ℕ)
    → FitsHeaders ip udp
    → IsPaired payload
    → IsBytes payload
    → length payload ≤ 65535
    → checksum (with_field (before_check ip udp) (udp4_checksum2 ip udp payload) payload) ≡ 0
udp4_checksum2_verifies ip udp payload f even b h =
    let facts = before_check-facts ip udp f in
    rw (udp4_checksum2-eq ip udp payload f even b h) (
      checksum_verifies (before_check ip udp) payload (before_check-IsPaired ip udp) facts.0 b
        (omega (arith, facts.1)))
