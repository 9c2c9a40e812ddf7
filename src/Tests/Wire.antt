-- ===== src/Tests/Wire.antt =====
-- Checksums, packets and frames.
use udping.Base.{ℕ, ◌≡◌, ◌≢◌, refl, List, [], ◌∷◌, ◌++◌, arith, replicate, dec_lt}
use udping.Checksum.{checksum}
use udping.Checksum.Verify.{with_field}
use udping.Frame.{IpHeader, UdpHeader, build_frame, ip_bytes, udp4_checksum2, ip_header, udp_header}
use udping.Frame.Header.{build_frame-ip_checksum}
use udping.Frame.Payload.{before_check, udp4_checksum2-eq}
use udping.Frame.Datagram.{datagram, build_frame-udp_checksum}
use udping.Frame.OddPayload.{udp4_checksum2_odd}
use udping.Tests.Data.{route}

-- The values that tests/t_protocol.cc expects of "aaaaaa", "AAAAAAAA" and "AAAAAAA".
known_checksums :
    (checksum (replicate 6 97) ≡ 0xdbdb)
    × (checksum (replicate 8 65) ≡ 0xfafa)
    × (checksum (replicate 7 65) ≡ 0x3bfb)
unfolding checksum dec_lt
known_checksums = (refl, refl, refl)

two_words : List ℕ
two_words = 1 ∷ 2 ∷ 3 ∷ 4 ∷ []

build_frame-ip_checksum_example :
    checksum (ip_bytes (build_frame route (replicate 9 1) 7 4).0.iphdr) ≡ 0
build_frame-ip_checksum_example = build_frame-ip_checksum route (replicate 9 1) 7 4

build_frame-udp_checksum_example :
    checksum (datagram (build_frame route ((1 ∷ 2 ∷ []) ++ replicate 9 0) 5 2).0) ≡ 0
build_frame-udp_checksum_example =
    build_frame-udp_checksum route (1 ∷ 2 ∷ []) 3 9 (omega arith) (omega arith) (omega arith) tt
      (omega arith) (omega arith) (omega arith)

abbrev ip : IpHeader
ip = ip_header 0x0100007f 0x0200000a 2

abbrev udp : UdpHeader
udp = udp_header 5000 6000 2

udp4_checksum2-eq_example :
    udp4_checksum2 ip udp (8 ∷ 9 ∷ []) ≡ checksum (with_field (before_check ip udp) 0 (8 ∷ 9 ∷ []))
udp4_checksum2-eq_example =
    udp4_checksum2-eq ip udp (8 ∷ 9 ∷ []) (omega arith) tt (omega arith) (omega arith)

udp4_checksum2_odd_example :
    checksum
      (with_field (before_check ip udp) (udp4_checksum2 ip udp (8 ∷ 9 ∷ 7 ∷ [])) (8 ∷ 9 ∷ 7 ∷ []))
    ≢ 0
udp4_checksum2_odd_example =
    udp4_checksum2_odd ip udp (8 ∷ 9 ∷ []) 7 (omega arith) tt (omega arith) (omega arith)
      (omega arith) (omega arith)
