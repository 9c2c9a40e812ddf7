-- ===== src/Client/Invariant.antt =====
-- What holds of every packet that a client session sends.
use udping.Base.{
  ℕ, zero, suc, ◌+◌, ◌^◌, ◌<◌, ◌≡◌, ◌≢◌, refl, ap, ◌∙◌, List, [], ◌∷◌, ◌++◌, arith, length, drop,
  All, IsByte, All-append, All-map, length-append,
}
use udping.Packet.{Packet}
use udping.Packet.RoundTrip.{IsPacket, drop-length_append}
use udping.Mac.{MacList}
use udping.Client.{ClientSession, Random, guid_digits, reset, new_client_session}

-- The packet fits its struct, is of this protocol, and its guid is 20 characters and the zero byte.
pub record IsSendable (p : Packet) : Type 0 where
  pub fits : IsPacket p
  pub version : p.proto_version ≡ 1
  pub text : List ℕ
  pub ends : p.guid ≡ text ++ (0 ∷ [])
  pub no_zero : All (λ b. b ≢ 0) text

-- A character that can stand in a guid.
pub IsGuidChar : ℕ → Type 0
IsGuidChar b = (b ≢ 0) × (b < 256)

guid_digits-IsGuidChar : (draw : ℕ → ℕ) (start n : ℕ) → All IsGuidChar (guid_digits draw start n)
unfolding guid_digits IsGuidChar
guid_digits-IsGuidChar draw start zero = tt
guid_digits-IsGuidChar draw start (suc n) =
    (ground arith, guid_digits-IsGuidChar draw (start + 1) n)

length-guid_digits : (draw : ℕ → ℕ) (start n : ℕ) → length (guid_digits draw start n) ≡ n
unfolding guid_digits
length-guid_digits draw start zero = refl
length-guid_digits draw start (suc n) = ap suc (length-guid_digits draw (start + 1) n)

-- The state that `reset` needs and every operation keeps: all of `IsSendable` but the text.
pub record IsFramed (p : Packet) : Type 0 where
  pub version : p.proto_version ≡ 1
  pub start_fits : p.client_start_time < 2 ^ 32
  pub ends : drop 20 p.guid ≡ 0 ∷ []
  pub seq_fits : p.seq_num < 2 ^ 32
  pub sec_fits : p.sent_sec < 2 ^ 32
  pub nsec_fits : p.sent_nsec < 2 ^ 64
  pub size_fits : p.size < 2 ^ 32

fresh-IsSendable :
    (p : Packet) (digits : List ℕ)
    → IsFramed p
    → length digits ≡ 20
    → All IsGuidChar digits
    → IsSendable (record p { guid = digits ++ drop 20 p.guid })
unfolding IsGuidChar
fresh-IsSendable p digits f n chars =
    let guid : digits ++ drop 20 p.guid ≡ digits ++ (0 ∷ []) = ap (λ t. digits ++ t) f.ends in
    let bytes = All-map (λ x c. c.1) digits chars in
    record {
      fits = record {
        version_fits = omega (arith, f.version);
        start_fits = f.start_fits;
        guid_length = rw guid (omega (arith, length-append digits (0 ∷ [])));
        guid_bytes = rw guid (All-append IsByte digits (0 ∷ []) bytes (omega arith));
        seq_fits = f.seq_fits;
        sec_fits = f.sec_fits;
        nsec_fits = f.nsec_fits;
        size_fits = f.size_fits;
      };
      version = f.version;
      text = digits;
      ends = guid;
      no_zero = All-map (λ x c. c.0) digits chars;
    }

sendable-IsFramed : (p : Packet) → IsSendable p → IsFramed p
sendable-IsFramed p v =
    let n : length v.text ≡ 20 =
      omega (arith, length-append v.text (0 ∷ []), v.fits.guid_length, ap length v.ends) in
    record {
      version = v.version;
      start_fits = v.fits.start_fits;
      ends = ap (drop 20) v.ends ∙ drop-length_append v.text (0 ∷ []) 20 0 n;
      seq_fits = v.fits.seq_fits;
      sec_fits = v.fits.sec_fits;
      nsec_fits = v.fits.nsec_fits;
      size_fits = v.fits.size_fits;
    }

reset-fresh : (s : ClientSession) (r : Random) → IsFramed s.packet → IsSendable (reset s r).0.packet
unfolding reset
reset-fresh s r f =
    fresh-IsSendable s.packet (guid_digits r.draw r.drawn 20) f
      (length-guid_digits r.draw r.drawn 20) (guid_digits-IsGuidChar r.draw r.drawn 20)

-- A new session is ready to send, whatever the clock and `rand` give.
pub new_client_session-IsSendable :
    (port : ℕ) (macs : MacList) (now : ℕ) (r : Random)
    → IsSendable (new_client_session port macs now r).0.packet
unfolding new_client_session
new_client_session-IsSendable port macs now r = reset-fresh _ r (record {
  version = refl;
  start_fits = omega arith;
  ends = refl;
  seq_fits = omega arith;
  sec_fits = omega arith;
  nsec_fits = omega arith;
  size_fits = omega arith;
})

pub reset-IsSendable :
    (s : ClientSession) (r : Random) → IsSendable s.packet → IsSendable (reset s r).0.packet
reset-IsSendable s r v = reset-fresh s r (sendable-IsFramed s.packet v)

-- The fields that change between two packets of a session.
pub update-IsSendable :
    (p : Packet) (seq sec nsec size : ℕ)
    → IsSendable p
    → seq < 2 ^ 32
    → sec < 2 ^ 32
    → nsec < 2 ^ 64
    → size < 2 ^ 32
    → IsSendable (record p { seq_num = seq; sent_sec = sec; sent_nsec = nsec; size = size })
update-IsSendable p seq sec nsec size v h_seq h_sec h_nsec h_size = record {
  fits = record {
    version_fits = v.fits.version_fits;
    start_fits = v.fits.start_fits;
    guid_length = v.fits.guid_length;
    guid_bytes = v.fits.guid_bytes;
    seq_fits = h_seq;
    sec_fits = h_sec;
    nsec_fits = h_nsec;
    size_fits = h_size;
  };
  version = v.version;
  text = v.text;
  ends = v.ends;
  no_zero = v.no_zero;
}
