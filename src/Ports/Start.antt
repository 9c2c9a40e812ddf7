-- ===== src/Ports/Start.antt =====
-- The client from its start: the constructor, then any number of rounds.
use udping.Base.{ℕ, suc, ◌<◌, ◌≤◌, ◌≡◌, refl, ap, List, [], ◌∷◌, arith, length, All}
use udping.Mac.{MacList, new_mac_list}
use udping.Mac.Rotation.{IsFilled}
use udping.Mac.Filled.{new_mac_list-IsFilled}
use udping.Client.{ClientSession, Random, new_client_session, reset}
use udping.Client.Invariant.{new_client_session-IsSendable}
use udping.Client.Sending.{IsSessionReady, IsAddressed, IsReady}
use udping.Ports.{new_sessions, new_client_list}

new_session-IsSessionReady :
    (port : ℕ) (macs : MacList) (now : ℕ) (r : Random)
    → IsFilled macs
    → IsSessionReady (new_client_session port macs now r).0
unfolding new_client_session reset
new_session-IsSessionReady port macs now r f = record {
  sendable = new_client_session-IsSendable port macs now r;
  filled = f;
}

new_sessions-IsSessionReady :
    (ports : List ℕ) (macs : MacList) (now : ℕ → ℕ) (r : Random)
    → IsFilled macs
    → All IsSessionReady (new_sessions ports macs now r).0
unfolding new_sessions
new_sessions-IsSessionReady [] macs now r f = tt
new_sessions-IsSessionReady (port ∷ ports) macs now r f = (
  new_session-IsSessionReady port macs (now port) r f,
  new_sessions-IsSessionReady ports macs now (new_client_session port macs (now port) r).1 f,
)

pub length-new_sessions :
    (ports : List ℕ) (macs : MacList) (now : ℕ → ℕ) (r : Random)
    → length (new_sessions ports macs now r).0 ≡ length ports
unfolding new_sessions
length-new_sessions [] macs now r = refl
length-new_sessions (port ∷ ports) macs now r =
    ap suc (length-new_sessions ports macs now (new_client_session port macs (now port) r).1)

-- The source ports of sessions, in their order.
abbrev pub session_ports : List ClientSession → List ℕ
session_ports [] = []
session_ports (s ∷ rest) = s.port ∷ session_ports rest

pub session_ports-new_sessions :
    (ports : List ℕ) (macs : MacList) (now : ℕ → ℕ) (r : Random)
    → session_ports (new_sessions ports macs now r).0 ≡ ports
unfolding new_sessions new_client_session reset
session_ports-new_sessions [] macs now r = refl
session_ports-new_sessions (port ∷ ports) macs now r =
    ap (◌∷◌ port)
      (session_ports-new_sessions ports macs now (new_client_session port macs (now port) r).1)

-- The constructor makes a list that is ready, with a session for each port, in order, if there is a port, the
-- text of the next-hop addresses is valid, the maximum size is in the options' range, and the addresses have their
-- widths.
pub new_client_list-IsReady :
    (max_size interval src_ip dst_ip : ℕ) (src_mac : List ℕ) (dst_port : ℕ)
    (ports mac_text : List ℕ) (now : ℕ → ℕ) (r : Random)
    → 0 < max_size
    → max_size ≤ 2000
    → 0 < length ports
    → 0 < (new_mac_list mac_text).num_macs
    → IsAddressed src_mac src_ip dst_ip
    → let l =
        (new_client_list max_size interval src_ip dst_ip src_mac dst_port ports
          (new_mac_list mac_text)
          now
          r).0 in
      IsReady l × (session_ports l.sessions ≡ ports)
unfolding new_client_list
new_client_list-IsReady max_size interval src_ip dst_ip src_mac dst_port ports mac_text now r pos le
      some_port valid addressed =
    let macs = new_mac_list mac_text in
    let count = length-new_sessions ports macs now r in
    (
      record {
        sessions_ready =
            new_sessions-IsSessionReady ports macs now r (new_mac_list-IsFilled mac_text valid);
        in_range = omega (arith, count, some_port);
        max_pos = pos;
        max_le = le;
        addressed = addressed;
      },
      session_ports-new_sessions ports macs now r,
    )
