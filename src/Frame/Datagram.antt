-- ===== src/Frame/Datagram.antt =====
-- The UDP checksum of a built frame, as the receiver checks it: over the pseudo header, the UDP
-- header and all of the message, though `build_frame` sums only the first bytes of the message.
use native.Mathlib.Nat.{zero-add, suc-add}
use udping.Base.{
  ℕ, zero, suc, ◌+◌, ◌^◌, ◌≤◌, ◌<◌, ◌≡◌, refl, sym, ap, ◌∙◌, List, [], ◌∷◌, ◌++◌, arith, IsBytes,
  length, take, replicate, length-append, length-replicate, take-length_append, All-append, IsByte,
  ◌==◌, if◌then◌else◌,
}
use udping.Checksum.{checksum, fold_carries, complement16}
use udping.Checksum.Sum.{word_sum, IsPaired, word_sum-append}
use udping.Checksum.Verify.{checksum-eq, with_field, word_sum-with_field}
use udping.Frame.{
  Route, Frame, IpHeader, UdpHeader, udp_bytes, udp4_checksum2, build_frame, ip_header, udp_header,
  ip_bytes,
}
use udping.Frame.Payload.{
  pseudo_header, before_check, before_check-IsPaired, FitsHeaders, with_check-facts,
  udp4_checksum2_verifies, udp4_checksum2-lt,
}

-- What RFC 768 sums: the pseudo header, the UDP header and the payload.
unfoldable pub datagram : Frame → List ℕ
unfolding pseudo_header
datagram f = pseudo_header f.iphdr f.udphdr ++ (udp_bytes f.udphdr ++ f.message)

word_sum-zeros : (k : ℕ) → word_sum (replicate k 0) ≡ 0
unfolding word_sum
word_sum-zeros zero = refl
word_sum-zeros (suc zero) = refl
word_sum-zeros (suc (suc k)) = omega (arith, word_sum-zeros k)

zeros-IsBytes : (k : ℕ) → IsBytes (replicate k 0)
zeros-IsBytes zero = tt
zeros-IsBytes (suc k) = (omega arith, zeros-IsBytes k)

take-zeros : (j k : ℕ) → j ≤ k → take j (replicate {A = ℕ} k 0) ≡ replicate j 0
take-zeros zero k h = refl
take-zeros (suc j) zero h = absurd (omega arith)
take-zeros (suc j) (suc k) h = ap (◌∷◌ 0) (take-zeros j k (omega arith))

-- A prefix of zero-padded data that holds all of the data.
pub take-padded :
    (head : List ℕ) (j k : ℕ)
    → j ≤ k
    → take (length head + j) (head ++ replicate k 0) ≡ head ++ replicate j 0
take-padded [] j k h = rw zero-add (take-zeros j k h)
take-padded (b ∷ head) j k h = rw suc-add (ap (◌∷◌ b) (take-padded head j k h))

padded_total :
    (ip : IpHeader) (udp : UdpHeader) (head : List ℕ) (c j : ℕ)
    → c < 65536
    → IsPaired head
    → word_sum (with_field (before_check ip udp) c (head ++ replicate j 0))
      ≡ word_sum (with_field (before_check ip udp) c head)
padded_total ip udp head c j h even =
    let even_front = before_check-IsPaired ip udp in
    omega (
      arith,
      word_sum-with_field (before_check ip udp) (head ++ replicate j 0) c h even_front,
      word_sum-with_field (before_check ip udp) head c h even_front,
      word_sum-append head (replicate j 0) even,
      word_sum-zeros j,
    )

-- Zero padding behind an even prefix does not change the checksum of the datagram.
pub checksum-padded :
    (ip : IpHeader) (udp : UdpHeader) (head : List ℕ) (c j : ℕ)
    → FitsHeaders ip udp
    → c < 65536
    → IsPaired head
    → IsBytes head
    → length head + j ≤ 65535
    → checksum (with_field (before_check ip udp) c (head ++ replicate j 0))
      ≡ checksum (with_field (before_check ip udp) c head)
checksum-padded ip udp head c j f c_lt even b h =
    let padded =
      with_check-facts ip udp (head ++ replicate j 0) c f c_lt
        (All-append IsByte head (replicate j 0) b (zeros-IsBytes j))
        (omega (arith, length-append head (replicate j 0), length-replicate {A = ℕ} j 0)) in
    let bare = with_check-facts ip udp head c f c_lt b (omega arith) in
    checksum-eq _ padded.0 (omega (arith, padded.1))
    ∙ ap (λ s. complement16 (fold_carries s)) (padded_total ip udp head c j c_lt even)
    ∙ sym (checksum-eq _ bare.0 (omega (arith, bare.1)))

take-covered :
    (head rest : List ℕ) (d : ℕ)
    → 0 < length head
    → take (if length head == 0 then d else length head) (head ++ rest) ≡ head
take-covered head rest d pos =
    let covered : (if length head == 0 then d else length head) ≡ length head = ground arith in
    ap (λ n. take n (head ++ rest)) covered ∙ take-length_append head rest

-- The headers of a frame, before the UDP checksum.
abbrev frame_ip : Route → ℕ → IpHeader
frame_ip r datalen =
    let ip = ip_header r.src_ip r.dst_ip datalen in record ip { ip_sum = checksum (ip_bytes ip) }

abbrev frame_udp : Route → ℕ → UdpHeader
frame_udp r datalen = udp_header r.src_port r.dst_port datalen

pub frame-FitsHeaders :
    (r : Route) (datalen : ℕ)
    → r.src_ip < 2 ^ 32
    → r.dst_ip < 2 ^ 32
    → FitsHeaders (frame_ip r datalen) (frame_udp r datalen)
frame-FitsHeaders r datalen hs hd = omega arith

-- `build_frame` sums only `head`, which is not empty and has an even number of bytes. If all that
-- follows `head` in the message is zero, the addresses have 32 bits and the message has 65507
-- bytes at most, the receiver's check over the whole message gives zero, also where its length is
-- odd.
pub build_frame-udp_checksum :
    (r : Route) (head : List ℕ) (j k : ℕ)
    → r.src_ip < 2 ^ 32
    → r.dst_ip < 2 ^ 32
    → 0 < length head
    → IsPaired head
    → IsBytes head
    → j ≤ k
    → length head + j ≤ 65507
    → checksum (datagram (build_frame r (head ++ replicate k 0) (length head + j) (length head)).0)
      ≡ 0
unfolding build_frame datagram before_check
build_frame-udp_checksum r head j k hs hd pos even b le h =
    let ip = frame_ip r (length head + j) in
    let udp = frame_udp r (length head + j) in
    let fits = frame-FitsHeaders r (length head + j) hs hd in
    let covered = take-covered head (replicate k 0) (length head + j) pos in
    let sent = take-padded head j k le in
    (λ i. checksum (with_field (before_check ip udp) (udp4_checksum2 ip udp (covered i)) (sent i)))
    ∙ checksum-padded ip udp head (udp4_checksum2 ip udp head) j fits
        (udp4_checksum2-lt ip udp head) even b (omega arith)
    ∙ udp4_checksum2_verifies ip udp head fits even b (omega arith)
