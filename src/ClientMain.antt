-- ===== src/ClientMain.antt =====
-- The start of the client: `main` of src/client.cc up to its loop, with the constructor of
-- `ClientSessionList` of src/clientsession.cc.
pub mod PortCount
pub mod Ready
pub mod Start
pub mod Loop
pub mod Frames
use udping.Base.{
  ℕ, ◌+◌, ◌-◌, List, [], ◌∷◌, ◌++◌, Option, none, some, Bool, true, false, not, ◌&&◌, ◌||◌, ltb,
  ◌==◌, if◌then◌else◌,
}
use udping.Constants.{min_port, max_port, max_sockets, max_buf}
use udping.Program.{Run, returns, exits, crashes, ◌>>=◌, ◌>>◌, require}
use udping.Text.{ℤ, pos, negsuc, atoi, is_digit, decimal}
use udping.Options.{
  Options, Parsed, new_options, parse_int_option, get_string_option, get_flag_option, to_string,
}
use udping.IfInfo.{get_if_info}
use udping.Host.{Host, get_sock_addr, become_nobody}
use udping.Mac.{new_mac_list, make_mac_list}
use udping.Client.{ClientList, Random}
use udping.Ports.{source_ports, new_client_list}
use udping.Ports as Ports

-- What the command line says.
pub record Config : Type 0 where
  pub dst_host : List ℕ
  pub dst_port : ℕ
  pub src_ip : List ℕ
  pub src_ports : List ℕ
  pub delay : ℕ
  pub interval : ℕ
  pub max_packet_size : ℕ
  pub dst_mac : List ℕ

-- No character but digits, as `find_first_not_of` tests it.
unfoldable pub is_number : List ℕ → Bool
is_number [] = true
is_number (c ∷ cs) = is_digit c && is_number cs

unfoldable pub span_text : ℕ → ℕ → Run (List ℕ)
unfolding decimal
span_text starting_port num_ports =
    if ltb max_port starting_port || ltb starting_port min_port
    then exits 255
    else returns (decimal starting_port ++ (b'-' ∷ decimal (starting_port + num_ports - 1)))

-- A single port with a number of ports is turned into a range.
unfoldable pub expand_ports : List ℕ → ℕ → Run (List ℕ)
unfolding is_number atoi decimal span_text
expand_ports src_ports num_ports = elim (atoi src_ports) [
  | negsuc n ↦ returns src_ports
  | pos p ↦
      if ltb 0 p && (ltb 0 num_ports && is_number src_ports)
      then span_text p num_ports
      else returns src_ports
]

unfoldable pub required_text : Options → ℕ → Run (List ℕ)
unfolding get_string_option
required_text o index = do s ← get_string_option o index true; to_string s

unfoldable pub unless_help : Options → Run (Unit {0})
unfolding get_flag_option
unless_help o = if get_flag_option o b'h' then exits 0 else returns tt

unfoldable pub client_config : Options → Run Config
unfolding unless_help required_text parse_int_option expand_ports make_mac_list
client_config o = do
  unless_help o
  dst_host ← required_text o b'r'
  dst_port ← parse_int_option o b'p' true 1024 65536
  src_ip ← required_text o b'l'
  src_ports ← required_text o b's'
  num_ports ← parse_int_option o b'n' false 1 max_sockets
  descriptor ← expand_ports src_ports num_ports
  delay ← parse_int_option o b'd' true 0 1000
  interval ← parse_int_option o b'i' true 1 900
  max_packet_size ← parse_int_option o b'm' true 1 max_buf
  dst_mac ← required_text o b'a'
  dstml ← make_mac_list dst_mac
  require (not (dstml.num_macs == 0))
  returns (record {
    dst_host = dst_host;
    dst_port = dst_port;
    src_ip = src_ip;
    src_ports = descriptor;
    delay = delay;
    interval = interval;
    max_packet_size = max_packet_size;
    dst_mac = dst_mac;
  })

abbrev pub found_interface : Option (ℕ × List ℕ) → Run (ℕ × List ℕ)
found_interface none = exits 255
found_interface (some info) = returns info

abbrev pub read_ports : Ports.Parsed → Run (List ℕ)
read_ports (Ports.accepted ports) = returns ports
read_ports Ports.refused = exits 255
read_ports Ports.overrun = crashes

-- The constructor; `now` is the clock at the making of each session.
unfoldable pub client_session_list : Host → Config → (ℕ → ℕ) → Random → Run (ClientList × Random)
unfolding get_sock_addr get_if_info source_ports new_client_list new_mac_list
client_session_list h c now r = do
  src_ip ← get_sock_addr h c.src_ip c.dst_port
  dst_ip ← get_sock_addr h c.dst_host c.dst_port
  info ← get_if_info h.net c.src_ip
  (if_index, src_mac) ← found_interface info
  require h.packet_socket
  ports ← read_ports (source_ports c.src_ports)
  returns (
      new_client_list c.max_packet_size c.interval src_ip dst_ip src_mac c.dst_port ports
        (new_mac_list c.dst_mac) now r)

-- The client in front of its loop.
pub record Started : Type 0 where
  pub sessions : ClientList
  pub random : Random
  pub uid : ℕ
  pub delay : ℕ

unfoldable pub client_start : Host → List Parsed → (ℕ → ℕ) → Random → Run Started
unfolding new_options client_config client_session_list become_nobody
client_start h args now r = do
  require (h.uid == 0)
  o ← new_options args
  c ← client_config o
  (l, r1) ← client_session_list h c now r
  uid ← become_nobody h
  returns (record { sessions = l; random = r1; uid = uid; delay = c.delay })
