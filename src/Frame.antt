-- ===== src/Frame.antt =====
-- `struct frame`, `buildFrame`, `udp4_checksum2` and `sendMessage` of src/protocol.cc.
-- Numbers that the kernel headers keep in network order are held as the host loads them.
pub mod Layout
pub mod Header
pub mod Payload
pub mod Datagram
pub mod OddPayload
use udping.Base.{
  ℕ, ◌+◌, ◌-◌, ◌*◌, ◌/◌, ◌%◌, ◌^◌, List, [], ◌∷◌, ◌++◌, Bool, true, false, ◌==◌, if◌then◌else◌, u8,
  u16, u32, htons, le_bytes, take,
}
use udping.Checksum.{checksum, fold_carries, complement16}

-- struct ip, with `ip_hl` and `ip_v` as the halves of its first byte.
pub record IpHeader : Type 0 where
  pub ip_hl : ℕ
  pub ip_v : ℕ
  pub ip_tos : ℕ
  pub ip_len : ℕ
  pub ip_id : ℕ
  pub ip_off : ℕ
  pub ip_ttl : ℕ
  pub ip_p : ℕ
  pub ip_sum : ℕ
  pub ip_src : ℕ
  pub ip_dst : ℕ

pub record UdpHeader : Type 0 where
  pub source : ℕ
  pub dest : ℕ
  pub len : ℕ
  pub check : ℕ

pub record Frame : Type 0 where
  pub dst_mac : List ℕ
  pub src_mac : List ℕ
  pub proto : List ℕ
  pub iphdr : IpHeader
  pub udphdr : UdpHeader
  pub message : List ℕ

-- The 20 bytes of the IP header in memory.
abbrev pub ip_bytes : IpHeader → List ℕ
ip_bytes h =
    (h.ip_hl + 16 * h.ip_v)
    ∷ h.ip_tos
    ∷ (le_bytes 2 h.ip_len
        ++ (le_bytes 2 h.ip_id
            ++ (le_bytes 2 h.ip_off
                ++ (h.ip_ttl
                    ∷ h.ip_p
                    ∷ (le_bytes 2 h.ip_sum ++ (le_bytes 4 h.ip_src ++ le_bytes 4 h.ip_dst))))))

-- The 8 bytes of the UDP header in memory.
abbrev pub udp_bytes : UdpHeader → List ℕ
udp_bytes h = le_bytes 2 h.source ++ (le_bytes 2 h.dest ++ (le_bytes 2 h.len ++ le_bytes 2 h.check))

-- The bytes of the frame from its start.
abbrev pub frame_bytes : Frame → List ℕ
frame_bytes f =
    f.dst_mac ++ (f.src_mac ++ (f.proto ++ (ip_bytes f.iphdr ++ (udp_bytes f.udphdr ++ f.message))))

abbrev pub ip4_hdrlen : ℕ
ip4_hdrlen = 20

abbrev pub udp_hdrlen : ℕ
udp_hdrlen = 8

abbrev pub eth_p_ip : ℕ
eth_p_ip = 0x0800

-- The payload loop of `udp4_checksum2`; a left-over byte is shifted into the high half.
unfoldable pub sum_payload : ℕ → List ℕ → ℕ
sum_payload sum [] = sum
sum_payload sum (b ∷ []) = u32 (sum + u16 (b * 256))
sum_payload sum (lo ∷ hi ∷ rest) = sum_payload (u32 (sum + (lo + 256 * hi))) rest

-- The sum over the pseudo header and the UDP header, before the payload.
abbrev pub header_sum : IpHeader → UdpHeader → ℕ
header_sum ip udp =
    let s1 = u32 (ip.ip_src % 2 ^ 16) in
    let s2 = u32 (s1 + ip.ip_src / 2 ^ 16) in
    let s3 = u32 (s2 + ip.ip_dst % 2 ^ 16) in
    let s4 = u32 (s3 + ip.ip_dst / 2 ^ 16) in
    let s5 = u32 (s4 + u16 (ip.ip_p * 256)) in
    let s6 = u32 (s5 + udp.len) in
    let s7 = u32 (s6 + udp.source) in let s8 = u32 (s7 + udp.dest) in u32 (s8 + udp.len)

unfoldable pub udp4_checksum2 : IpHeader → UdpHeader → List ℕ → ℕ
unfolding sum_payload fold_carries
udp4_checksum2 ip udp payload =
    complement16 (fold_carries (sum_payload (header_sum ip udp) payload))

-- The IP header with a zero checksum, as it is when its checksum is computed.
abbrev pub ip_header : ℕ → ℕ → ℕ → IpHeader
ip_header src_ip dst_ip datalen = record {
  ip_hl = ip4_hdrlen / 4;
  ip_v = 4;
  ip_tos = 0;
  ip_len = htons (ip4_hdrlen + udp_hdrlen + datalen);
  ip_id = htons 0;
  ip_off = 0;
  ip_ttl = 255;
  ip_p = 17;
  ip_sum = 0;
  ip_src = src_ip;
  ip_dst = dst_ip;
}

abbrev pub udp_header : ℕ → ℕ → ℕ → UdpHeader
udp_header src_port dst_port datalen = record {
  source = htons src_port;
  dest = htons dst_port;
  len = htons (udp_hdrlen + datalen);
  check = 0;
}

-- The addresses, ports and MACs that a frame is built from.
pub record Route : Type 0 where
  pub src_mac : List ℕ
  pub dst_mac : List ℕ
  pub src_ip : ℕ
  pub dst_ip : ℕ
  pub src_port : ℕ
  pub dst_port : ℕ

-- `message` is the memory that the argument points to; the frame and its length come back.
unfoldable pub build_frame : Route → List ℕ → ℕ → ℕ → Frame × ℕ
unfolding checksum udp4_checksum2
build_frame r message datalen checksum_length =
    let covered = if checksum_length == 0 then datalen else checksum_length in
    let ip = ip_header r.src_ip r.dst_ip datalen in
    let summed = record ip { ip_sum = checksum (ip_bytes ip) } in
    let udp = udp_header r.src_port r.dst_port datalen in
    (
      record {
        dst_mac = take 6 r.dst_mac;
        src_mac = take 6 r.src_mac;
        proto = (eth_p_ip / 256) ∷ (eth_p_ip % 256) ∷ [];
        iphdr = summed;
        udphdr = record udp { check = udp4_checksum2 summed udp (take covered message) };
        message = take datalen message;
      },
      6 + 6 + 2 + ip4_hdrlen + udp_hdrlen + datalen,
    )
