-- ===== src/Ports/Order.antt =====
-- The sequence numbers that a client sends from its start on.
use native.Mathlib.Nat.{zero-mod, zero-div}
use udping.Base.{
  ℕ, ◌<◌, ◌≤◌, ◌≡◌, refl, ap, ◌∙◌, List, [], ◌∷◌, some, arith, length, All, All-get_elem?,
}
use udping.Mac.{MacList, new_mac_list}
use udping.Client.{
  ClientSession, ClientList, Random, Tick, Sent, new_client_session, reset, send_rounds,
}
use udping.Client.Sending.{IsAddressed, IsSound}
use udping.Client.Run.{IsClock}
use udping.Client.Sequence.{IsLevel, sequence, numbered, send_rounds-numbered}
use udping.Ports.{new_sessions, new_client_list}
use udping.Ports.Start.{new_client_list-IsReady, length-new_sessions}

abbrev IsFresh : ClientSession → Type 0
IsFresh s = s.packet.seq_num ≡ 0

new_sessions-IsFresh :
    (ports : List ℕ) (macs : MacList) (now : ℕ → ℕ) (r : Random)
    → All IsFresh (new_sessions ports macs now r).0
unfolding new_sessions new_client_session reset
new_sessions-IsFresh [] macs now r = tt
new_sessions-IsFresh (port ∷ ports) macs now r =
    (refl, new_sessions-IsFresh ports macs now (new_client_session port macs (now port) r).1)

fresh-IsLevel : (l : ClientList) → All IsFresh l.sessions → l.cur_session ≡ 0 → IsLevel 0 l
fresh-IsLevel l fresh start =
    let n = length l.sessions in
    record {
      turn = omega (arith, start, zero-mod n);
      level = λ i s e.
          let zeroed = All-get_elem? IsFresh l.sessions i s fresh e in
          ground (arith, zeroed, zero-mod n, zero-div n);
    }

-- A list that was made is at the first round.
pub new_client_list-IsLevel :
    (max_size interval src_ip dst_ip : ℕ) (src_mac : List ℕ) (dst_port : ℕ) (ports : List ℕ)
    (macs : MacList) (now : ℕ → ℕ) (r : Random)
    → IsLevel 0
        (new_client_list max_size interval src_ip dst_ip src_mac dst_port ports macs now r).0
unfolding new_client_list
new_client_list-IsLevel max_size interval src_ip dst_ip src_mac dst_port ports macs now r =
    fresh-IsLevel _ (new_sessions-IsFresh ports macs now r) refl

-- If there is a source port, the text of the next-hop addresses is valid, the maximum size is from
-- 1 to 2000, the addresses have their widths and the clock's nanoseconds are below 2^64, a started
-- client completes any number of rounds, and its frame number `k`, counted from 0, has the sequence
-- number k / n in 32 bits, where `n` is the number of its source ports; each frame is sound.
pub send_rounds-new_client_list :
    (max_size interval src_ip dst_ip : ℕ) (src_mac : List ℕ) (dst_port : ℕ)
    (ports mac_text : List ℕ) (now : ℕ → ℕ) (r : Random) (ts : List Tick)
    → 0 < max_size
    → max_size ≤ 2000
    → 0 < length ports
    → 0 < (new_mac_list mac_text).num_macs
    → IsAddressed src_mac src_ip dst_ip
    → All IsClock ts
    → let (l, r1) =
        new_client_list max_size interval src_ip dst_ip src_mac dst_port ports
          (new_mac_list mac_text)
          now
          r in
      (fs : List Sent) × (l' : ClientList) × (r' : Random) × (send_rounds ts l r1
        ≡ some (fs, (l', r')))
      × (sequence fs ≡ numbered (length ports) 0 ts)
      × All IsSound fs
unfolding new_client_list
send_rounds-new_client_list max_size interval src_ip dst_ip src_mac dst_port ports mac_text now r ts
      pos le some_port valid addressed clocks =
    let macs = new_mac_list mac_text in
    let (l, r1) =
      new_client_list max_size interval src_ip dst_ip src_mac dst_port ports macs now r in
    let ready =
      (new_client_list-IsReady max_size interval src_ip dst_ip src_mac dst_port ports mac_text now r
        pos le some_port valid addressed).0 in
    let level =
      new_client_list-IsLevel max_size interval src_ip dst_ip src_mac dst_port ports macs now r in
    let (fs, l', r', run, numbers, sound) = send_rounds-numbered 0 ts l r1 clocks ready level in
    (
      fs,
      l',
      r',
      run,
      numbers ∙ ap (λ n. numbered n 0 ts) (length-new_sessions ports macs now r),
      sound,
    )
