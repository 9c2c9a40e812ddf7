-- ===== src/ClientMain/Ready.antt =====
-- The client's loop is reached only in a state in which it can run.
use udping.Base.{
  Option-cases, [], ◌∷◌, ◌^◌, ℕ, ◌<◌, ◌≤◌, ◌≡◌, inl, inr, refl, ◌∙◌, sym, ap, subst, List, Option,
  none, some, true, not, ◌==◌, arith, length,
}
use udping.Program.{returns, exits, crashes}
use udping.Program.Ensures.{Ensures, Ensures-bind, Ensures-returns, require-true}
use udping.Options.{Options}
use udping.Options.Laws.{IsBetween, required-IsBetween}
use udping.Host.{Host, get_sock_addr}
use udping.Mac.{MacList, new_mac_list, make_mac_list}
use udping.Client.{ClientList, Random}
use udping.IfInfo.Search.{IsInfo, get_if_info-IsInfo}
use udping.Ports.Order.{new_client_list-IsLevel}
use udping.Client.Sequence.{IsLevel}
use udping.Client.Sending.{IsAddressed, IsReady}
use udping.Ports.{new_client_list, source_ports}
use udping.Ports as Ports
use udping.Ports.Bounds.{IsPortList, source_ports-IsPortList}
use udping.Ports.Start.{
  session_ports, session_ports-new_sessions, length-new_sessions, new_client_list-IsReady,
}
use udping.ClientMain.{Config, client_config, client_session_list, found_interface, read_ports}

-- The numbers that the loop relies on are in range, and the next-hop addresses are valid.
pub record IsConfig (c : Config) : Type 0 where
  pub delay_le : c.delay ≤ 1000
  pub interval_pos : 0 < c.interval
  pub interval_le : c.interval ≤ 900
  pub size_pos : 0 < c.max_packet_size
  pub size_le : c.max_packet_size ≤ 2000
  pub macs_valid : 0 < (new_mac_list c.dst_mac).num_macs

checked :
    (c : Config)
    → IsBetween 0 1000 c.delay
    → IsBetween 1 900 c.interval
    → IsBetween 1 2000 c.max_packet_size
    → not ((new_mac_list c.dst_mac).num_macs == 0) ≡ true
    → IsConfig c
checked c delay interval size valid = record {
  delay_le = delay.1;
  interval_pos = interval.0;
  interval_le = interval.1;
  size_pos = size.0;
  size_le = size.1;
  macs_valid = ground arith;
}

make_mac_list-returns :
    (text : List ℕ) (l : MacList) → make_mac_list text ≡ returns l → new_mac_list text ≡ l
unfolding make_mac_list
make_mac_list-returns [] l e = absurd (cc)
make_mac_list-returns (c ∷ cs) l e = let run : returns (new_mac_list (c ∷ cs)) ≡ returns l = e in cc

-- Whatever the options are, a configuration that is accepted is in range.
pub client_config-IsConfig : (o : Options) → Ensures IsConfig (client_config o)
unfolding client_config
client_config-IsConfig o = Ensures-bind _ _ (λ _ _. Ensures-bind _ _ (λ dst_host _.
    Ensures-bind _ _ (λ dst_port _. Ensures-bind _ _ (λ src_ip _. Ensures-bind _ _ (λ src_ports _.
      Ensures-bind _ _ (λ num_ports _. Ensures-bind _ _ (λ descriptor _.
        Ensures-bind _ _ (λ delay e_delay. Ensures-bind _ _ (λ interval e_interval.
          Ensures-bind _ _ (λ size e_size. Ensures-bind _ _ (λ (dst_mac : List ℕ) _.
            Ensures-bind (make_mac_list dst_mac) _ (λ dstml made. Ensures-bind _ _ (λ u valid.
              let list : new_mac_list dst_mac ≡ dstml = make_mac_list-returns dst_mac dstml made in
              let nonempty : not ((new_mac_list dst_mac).num_macs == 0) ≡ true =
                rw list (require-true _ u valid) in
              Ensures-returns _ (
                checked _ (required-IsBetween o b'd' 0 1000 delay e_delay)
                  (required-IsBetween o b'i' 1 900 interval e_interval)
                  (required-IsBetween o b'm' 1 2000 size e_size) nonempty))))))))))))))

-- Sessions for valid ports, and a list that is ready if there is a session.
pub record IsBuilt (c : Config) (l : ClientList) : Type 0 where
  pub ports_valid : IsPortList (session_ports l.sessions)
  pub interval_kept : l.interval ≡ c.interval
  pub level : IsLevel 0 l
  pub ready : 0 < length l.sessions → IsReady l

read_ports-IsPortList :
    (text ports : List ℕ) → read_ports (source_ports text) ≡ returns ports → IsPortList ports
read_ports-IsPortList text ports e = by_result (source_ports text) refl
  where
    by_result : (o : Ports.Parsed) → source_ports text ≡ o → IsPortList ports
    by_result (Ports.accepted out) h =
        let run : returns out ≡ returns ports = rw h at e in
        let same : out ≡ ports = cc in
        source_ports-IsPortList text ports (h ∙ ap Ports.accepted same)
    by_result Ports.refused h = let stop : exits 255 ≡ returns ports = rw h at e in absurd (cc)
    by_result Ports.overrun h = let stop : crashes ≡ returns ports = rw h at e in absurd (cc)

built :
    (c : Config) (src_ip dst_ip : ℕ) (src_mac ports : List ℕ) (now : ℕ → ℕ) (r : Random)
    → IsConfig c
    → IsPortList ports
    → IsAddressed src_mac src_ip dst_ip
    → IsBuilt c
        (new_client_list c.max_packet_size c.interval src_ip dst_ip src_mac c.dst_port ports
          (new_mac_list c.dst_mac)
          now
          r).0
unfolding new_client_list
built c src_ip dst_ip src_mac ports now r v h addressed =
    let macs = new_mac_list c.dst_mac in
    let count = length-new_sessions ports macs now r in
    record {
      ports_valid = subst IsPortList (sym (session_ports-new_sessions ports macs now r)) h;
      interval_kept = refl;
      level =
          new_client_list-IsLevel c.max_packet_size c.interval src_ip dst_ip src_mac c.dst_port
            ports macs now r;
      ready = λ some_session.
          (new_client_list-IsReady c.max_packet_size c.interval src_ip dst_ip src_mac c.dst_port
            ports c.dst_mac now r v.size_pos v.size_le (omega (arith, count, some_session))
            v.macs_valid addressed).0;
    }

-- What the system promises: addresses of 32 bits, and at least the six bytes of a MAC address.
pub record IsSystem (h : Host) : Type 0 where
  pub address_fits : (name : List ℕ) (a : ℕ) → h.resolve name ≡ some a → a < 2 ^ 32
  pub mac_long : (name sa_data : List ℕ) → h.net.hw_addr name ≡ some sa_data → 6 ≤ length sa_data

get_sock_addr-fits :
    (h : Host) (name : List ℕ) (port a : ℕ)
    → IsSystem h
    → get_sock_addr h name port ≡ returns a
    → a < 2 ^ 32
unfolding get_sock_addr
get_sock_addr-fits h name port a v e = elim (Option-cases (h.resolve name)) [
  | inl bad ↦ let stop : exits 1 ≡ returns a = rw (get_sock_addr, bad) at e in absurd (cc)
  | inr (b, good) ↦
      let run : returns b ≡ returns a = rw (get_sock_addr, good) at e in
      let same : b ≡ a = cc in v.address_fits name a (good ∙ ap some same)
]

found_interface-some :
    (info : Option (ℕ × List ℕ)) (found : ℕ × List ℕ)
    → IsInfo info
    → found_interface info ≡ returns found
    → length found.1 ≡ 6
found_interface-some none found v e = absurd (cc)
found_interface-some (some info) found v e =
    let same : info ≡ found = cc in subst (λ f. length f.1 ≡ 6) same v.1

pub client_session_list-IsBuilt :
    (h : Host) (c : Config) (now : ℕ → ℕ) (r : Random)
    → IsSystem h
    → IsConfig c
    → Ensures (λ b. IsBuilt c b.0) (client_session_list h c now r)
unfolding client_session_list
client_session_list-IsBuilt h c now r system v = Ensures-bind _ _ (λ src_ip e_src.
    Ensures-bind _ _ (λ dst_ip e_dst. Ensures-bind _ _ (λ info e_info.
      Ensures-bind _ _ (λ found e_found. Ensures-bind _ _ (λ u _. Ensures-bind _ _ (λ ports e_ports.
        Ensures-returns _ (
          built c src_ip dst_ip found.1 ports now r v
            (read_ports-IsPortList c.src_ports ports e_ports)
            (record {
              six_bytes =
                  found_interface-some info found
                    ((get_if_info-IsInfo h.net c.src_ip system.mac_long).at info e_info) e_found;
              src_fits = get_sock_addr-fits h c.src_ip c.dst_port src_ip system e_src;
              dst_fits = get_sock_addr-fits h c.dst_host c.dst_port dst_ip system e_dst;
            }))))))))
