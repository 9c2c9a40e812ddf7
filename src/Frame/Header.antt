-- ===== src/Frame/Header.antt =====
-- The IP header of a built frame passes the receiver's check.
use udping.Base.{ℕ, ◌+◌, ◌*◌, ◌≡◌, List, [], ◌∷◌, ◌++◌, arith, le_bytes}
use udping.Checksum.{checksum}
use udping.Checksum.Verify.{checksum_verifies}
use udping.Frame.{Route, IpHeader, ip_bytes, ip_header, build_frame}

before_sum : IpHeader → List ℕ
before_sum h =
    (h.ip_hl + 16 * h.ip_v)
    ∷ h.ip_tos
    ∷ (le_bytes 2 h.ip_len
        ++ (le_bytes 2 h.ip_id ++ (le_bytes 2 h.ip_off ++ (h.ip_ttl ∷ h.ip_p ∷ []))))

after_sum : IpHeader → List ℕ
after_sum h = le_bytes 4 h.ip_src ++ le_bytes 4 h.ip_dst

-- For any addresses, ports and payload, the IP header that `build_frame` writes checks to zero.
pub build_frame-ip_checksum :
    (r : Route) (message : List ℕ) (datalen covered : ℕ)
    → checksum (ip_bytes (build_frame r message datalen covered).0.iphdr) ≡ 0
unfolding build_frame before_sum after_sum
build_frame-ip_checksum r message datalen covered =
    let h = ip_header r.src_ip r.dst_ip datalen in
    checksum_verifies (before_sum h) (after_sum h) (tt) (omega arith) (omega arith) (omega arith)
