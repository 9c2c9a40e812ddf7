-- ===== src/Frame/Layout.antt =====
-- A built frame as the bytes that go on the wire: its length, and each field in network order.
use udping.Base.{
  ℕ, ◌+◌, ◌/◌, ◌%◌, ◌≤◌, ◌≡◌, List, [], ◌∷◌, ◌++◌, arith, length, take, htons, le_bytes,
  length-append, length-take_of_le,
}
use udping.Frame.{Route, ip_bytes, udp_bytes, frame_bytes, build_frame}

-- A 16-bit number in network order.
abbrev pub be_bytes : ℕ → List ℕ
be_bytes x = (x / 256 % 256) ∷ (x % 256) ∷ []

pub le_bytes-htons : (x : ℕ) → le_bytes 2 (htons x) ≡ be_bytes x
le_bytes-htons x = λ i. high i ∷ low i ∷ []
  where
    high : htons x % 256 ≡ x / 256 % 256
    high = omega arith

    low : htons x / 256 % 256 ≡ x % 256
    low = omega arith

-- If both MACs have six bytes and the memory of the message has `datalen` bytes, the number that
-- `build_frame` returns is the length of the frame that it wrote.
pub build_frame-length :
    (r : Route) (message : List ℕ) (datalen covered : ℕ)
    → 6 ≤ length r.src_mac
    → 6 ≤ length r.dst_mac
    → datalen ≤ length message
    → length (frame_bytes (build_frame r message datalen covered).0)
      ≡ (build_frame r message datalen covered).1
unfolding build_frame
build_frame-length r message datalen covered hs hd hm =
    let f = (build_frame r message datalen covered).0 in
    omega (
      arith,
      length-append {0} f.dst_mac
          (f.src_mac ++ (f.proto ++ (ip_bytes f.iphdr ++ (udp_bytes f.udphdr ++ f.message)))),
      length-append {0} f.src_mac
          (f.proto ++ (ip_bytes f.iphdr ++ (udp_bytes f.udphdr ++ f.message))),
      length-take_of_le {0} 6 r.src_mac hs,
      length-take_of_le {0} 6 r.dst_mac hd,
      length-take_of_le {0} datalen message hm,
    )

-- The frame on the wire: destination and source MAC, the IPv4 ether type, an IPv4 header with no
-- options, fragmentation or type of service, a time to live of 255 and protocol 17, then the
-- ports and the length of UDP, and the message. Lengths and ports are in network order, cut to
-- 16 bits; the addresses stand as they lie in memory.
build_frame-layout :
    (r : Route) (message : List ℕ) (datalen covered : ℕ)
    → let f = (build_frame r message datalen covered).0 in
      frame_bytes f
      ≡ take 6 r.dst_mac
        ++ (take 6 r.src_mac
            ++ (8
                ∷ 0
                ∷ 0x45
                ∷ 0
                ∷ (be_bytes (28 + datalen)
                    ++ (0
                        ∷ 0
                        ∷ 0
                        ∷ 0
                        ∷ 255
                        ∷ 17
                        ∷ (le_bytes 2 f.iphdr.ip_sum
                            ++ (le_bytes 4 r.src_ip
                                ++ (le_bytes 4 r.dst_ip
                                    ++ (be_bytes r.src_port
                                        ++ (be_bytes r.dst_port
                                            ++ (be_bytes (8 + datalen)
                                                ++ (le_bytes 2 f.udphdr.check
                                                    ++ take datalen message)))))))))))
unfolding build_frame
build_frame-layout r message datalen covered = λ i.
    let f = (build_frame r message datalen covered).0 in
    take 6 r.dst_mac
    ++ (take 6 r.src_mac
        ++ (8
            ∷ 0
            ∷ 0x45
            ∷ 0
            ∷ (le_bytes-htons (28 + datalen) i
                ++ (0
                    ∷ 0
                    ∷ 0
                    ∷ 0
                    ∷ 255
                    ∷ 17
                    ∷ (le_bytes 2 f.iphdr.ip_sum
                        ++ (le_bytes 4 r.src_ip
                            ++ (le_bytes 4 r.dst_ip
                                ++ (le_bytes-htons r.src_port i
                                    ++ (le_bytes-htons r.dst_port i
                                        ++ (le_bytes-htons (8 + datalen) i
                                            ++ (le_bytes 2 f.udphdr.check
                                                ++ take datalen message)))))))))))
