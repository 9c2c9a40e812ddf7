-- ===== src/Frame/OddPayload.antt =====
-- The left-over byte of `udp4_checksum2`. A little-endian host adds the last byte of an odd
-- payload as it is (so does `checksum`); the routine shifts it by 8 bits instead.
use udping.Base.{
  ℕ, ◌+◌, ◌*◌, ◌%◌, ◌^◌, ◌≤◌, ◌<◌, ◌≡◌, ◌≢◌, List, [], ◌∷◌, ◌++◌, arith, u32, length, IsByte,
  IsBytes, All-append, length-append, sym, ◌∙◌, subst,
}
use udping.Checksum.{checksum, fold_carries, complement16}
use udping.Checksum.Fold.{complement16-fold_completes, complement16-fold_residue}
use udping.Checksum.Sum.{word_sum, IsPaired, word_sum-append, word_sum-le, word_sum-lt}
use udping.Checksum.Verify.{checksum-eq, with_field, word_sum-with_field}
use udping.Frame.{IpHeader, UdpHeader, sum_payload, header_sum, udp4_checksum2}
use udping.Frame.Payload.{
  before_check, before_check-IsPaired, FitsHeaders, with_check-facts, header_sum-eq, header_sum-lt,
  udp4_checksum2-lt,
}

sum_payload-odd :
    (s : ℕ) (bs : List ℕ) (b : ℕ)
    → s < 2 ^ 32
    → b < 256
    → IsPaired bs
    → sum_payload s (bs ++ (b ∷ [])) ≡ u32 (s + word_sum bs + 256 * b)
unfolding sum_payload word_sum
sum_payload-odd s [] b h hb p = omega arith
sum_payload-odd s (x ∷ []) b h hb p = absurd p
sum_payload-odd s (lo ∷ hi ∷ rest) b h hb p =
    omega (arith, sum_payload-odd (u32 (s + (lo + 256 * hi))) rest b (omega arith) hb p)

word_sum-odd : (bs : List ℕ) (b : ℕ) → IsPaired bs → word_sum (bs ++ (b ∷ [])) ≡ word_sum bs + b
unfolding word_sum
word_sum-odd bs b p = word_sum-append bs (b ∷ []) p

odd_total :
    (ip : IpHeader) (udp : UdpHeader) (bs : List ℕ) (b : ℕ)
    → FitsHeaders ip udp
    → IsPaired bs
    → IsBytes bs
    → b < 256
    → length bs ≤ 65000
    → (udp4_checksum2 ip udp (bs ++ (b ∷ [])) + (header_sum ip udp + word_sum bs + 256 * b)) % 65535
      ≡ 0
unfolding udp4_checksum2
odd_total ip udp bs b f even bytes hb h =
    let small = header_sum-lt ip udp f in
    let total : ℕ = header_sum ip udp + word_sum bs + 256 * b in
    let few : total < 2 ^ 32 = omega (arith, small, word_sum-le bs bytes) in
    let summed : sum_payload (header_sum ip udp) (bs ++ (b ∷ [])) ≡ total = omega (
      arith,
      few,
      small,
      sum_payload-odd (header_sum ip udp) bs b (omega (arith, small)) hb even,
    ) in
    subst (λ s. (complement16 (fold_carries s) + total) % 65535 ≡ 0) (sym summed)
      (complement16-fold_completes total few).1

-- If the header fields fit their widths, a payload of odd length, up to 65,001 bytes, whose last
-- byte is not zero fails the receiver's check under the checksum of `udp4_checksum2`.
pub udp4_checksum2_odd :
    (ip : IpHeader) (udp : UdpHeader) (bs : List ℕ) (b : ℕ)
    → FitsHeaders ip udp
    → IsPaired bs
    → IsBytes bs
    → b < 256
    → 0 < b
    → length bs ≤ 65000
    → checksum
        (with_field (before_check ip udp) (udp4_checksum2 ip udp (bs ++ (b ∷ []))) (bs ++ (b ∷ [])))
      ≢ 0
udp4_checksum2_odd ip udp bs b f even bytes hb pos h e =
    let c = udp4_checksum2 ip udp (bs ++ (b ∷ [])) in
    let c_lt = udp4_checksum2-lt ip udp (bs ++ (b ∷ [])) in
    let facts =
      with_check-facts ip udp (bs ++ (b ∷ [])) c f c_lt
        (All-append IsByte bs (b ∷ []) bytes (hb, tt)) (omega (arith, length-append bs (b ∷ []))) in
    let short : length (with_field (before_check ip udp) c (bs ++ (b ∷ []))) ≤ 100000 =
      omega (arith, facts.1) in
    let zero_residue =
      complement16-fold_residue _ (word_sum-lt _ facts.0 short)
        (sym (checksum-eq _ facts.0 short) ∙ e) in
    omega (
      arith,
      zero_residue,
      odd_total ip udp bs b f even bytes hb h,
      header_sum-eq ip udp f,
      word_sum-odd bs b even,
      word_sum-with_field (before_check ip udp) (bs ++ (b ∷ [])) c c_lt
          (before_check-IsPaired ip udp),
    )
