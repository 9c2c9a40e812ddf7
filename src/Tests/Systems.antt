-- ===== src/Tests/Systems.antt =====
-- A system and a command line for the tests of the two programs.
use udping.Base.{ℕ, List, [], ◌∷◌, some, none, Bool, true}
use udping.Text.{codes}
use udping.Options.{Parsed}
use udping.IfInfo.{IfAddr, Net}
use udping.Host.{Host}

abbrev pub given : ℕ → List ℕ → Parsed
given opt s = record { opt = opt; optarg = some s }

abbrev pub lo_addr : IfAddr
lo_addr = record { ifa_name = codes "lo"; ifa_addr = some (2 ∷ 0 ∷ 0 ∷ 0 ∷ 127 ∷ 0 ∷ 0 ∷ 1 ∷ []) }

abbrev pub eth_addr : IfAddr
eth_addr = record { ifa_name = codes "eth0"; ifa_addr = some (2 ∷ 0 ∷ 0 ∷ 0 ∷ 10 ∷ 0 ∷ 0 ∷ 1 ∷ []) }

abbrev pub tun_addr : IfAddr
tun_addr = record { ifa_name = codes "tun0"; ifa_addr = none }

abbrev pub net_with : List IfAddr → Net
net_with addrs = record {
  inet_pton = λ ip. some 0x0100000a;
  if_addrs = some addrs;
  packet_socket = true;
  hw_addr = λ name. some (2 ∷ 3 ∷ 4 ∷ 5 ∷ 6 ∷ 7 ∷ 0 ∷ 0 ∷ []);
  if_nametoindex = λ name. 2;
}

abbrev pub host_with : (ℕ → Bool) → Host
host_with setuid = record {
  uid = 0;
  nobody = some (record { pw_uid = 65534; pw_gid = 65534 });
  setgid = λ g. true;
  setuid = setuid;
  resolve = λ name. some 0x0100000a;
  resolve_any = λ name port. some 0x0100000a;
  host_by_addr = λ name. none;
  udp_socket = true;
  bind = λ a p. true;
  packet_socket = true;
  setitimer = λ seconds. true;
  net = net_with (lo_addr ∷ eth_addr ∷ []);
}
