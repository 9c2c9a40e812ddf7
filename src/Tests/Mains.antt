-- ===== src/Tests/Mains.antt =====
-- The two programs from their command lines.
use udping.Base.{ℕ, ◌+◌, ◌*◌, ◌≤◌, ◌≡◌, refl, List, [], ◌∷◌, some, true, arith, length, All, subst}
use udping.Text.{codes, decimal}
use udping.Program.{Run, returns, exits, crashes, ◌>>=◌, require}
use udping.Options.{Options, Parsed, unset, parse_loop}
use udping.Options.Laws.{last_value, parse_loop-last}
use udping.IfInfo.{Net, get_if_info, interface_info}
use udping.IfInfo.Search.{get_if_info-first, get_if_info-null, IsOther}
use udping.Host.{Host}
use udping.Tests.Systems.{given, lo_addr, eth_addr, tun_addr, net_with, host_with}
use udping.Client.{ClientList, Random}
use udping.Client.Sequence.{numbered}
use udping.Mac.{parse_macs, count_macs, count_commas}
use udping.Mac.Scan.{
  scan_mac, scan_fields, scan_number, scan_prefixed, scan_digits, hex_value, with_rest, hex_digits,
}
use udping.Ports.{accepted, source_ports, ports_from}
use udping.Ports.Ranges.{Range, descriptor_text, source_ports-descriptor_text}
use udping.ClientMain.{Started, client_start, expand_ports}
use udping.ClientMain.Ready.{IsSystem}
use udping.ClientMain.Start.{IsStarted, client_start-IsStarted}
use udping.ClientMain.Loop.{Turn, Turned, client_loop}
use udping.ClientMain.Frames.{ticks, numbers, IsTurn, IsGood, client_start-client_loop}
use udping.Tests.Pauses.{pause_ops, IsAny, pause_ops-IsTruncating, one_signal, one_signal-IsSleeper}
use udping.ClientMain.PortCount.{expand_ports-ports_from}

abbrev host : Host
host = host_with (λ u. true)

abbrev client_args : List Parsed
client_args =
    given b'r' (codes "10.0.0.2")
    ∷ given b'p' (codes "6000")
    ∷ given b'l' (codes "10.0.0.1")
    ∷ given b's' (codes "5000")
    ∷ given b'n' (codes "2")
    ∷ given b'd' (codes "10")
    ∷ given b'i' (codes "60")
    ∷ given b'm' (codes "1000")
    ∷ given b'a' (codes "2:3:4:5:6:7")
    ∷ []

abbrev random : Random
random = record { draw = λ n. 1103515245 * n + 12345; drawn = 0 }

abbrev result_of : Run Started → Started → Started
result_of (returns st) other = st
result_of (exits n) other = other
result_of crashes other = other

abbrev no_start : Started
no_start = record {
  sessions = record {
    max_packet_size = 0;
    interval = 0;
    src_ip = 0;
    dst_ip = 0;
    src_mac = [];
    dst_port = 0;
    sessions = [];
    cur_session = 0;
  };
  random = random;
  uid = 0;
  delay = 0;
}

started : Started
started = result_of (client_start host client_args (λ p. 1700000000) random) no_start

started-eq : client_start host client_args (λ p. 1700000000) random ≡ returns started
unfolding client_start started ◌>>=◌ require parse_macs count_macs count_commas scan_mac scan_fields
    scan_number scan_prefixed scan_digits hex_value with_rest hex_digits
started-eq = refl

host-IsSystem : IsSystem host
host-IsSystem = record {
  address_fits = λ name a e. let same : 0x0100000a ≡ a = cc in omega arith;
  mac_long = λ name sa e.
      let same : 2 ∷ 3 ∷ 4 ∷ 5 ∷ 6 ∷ 7 ∷ 0 ∷ 0 ∷ [] ≡ sa = cc in
      subst (λ s. 6 ≤ length s) same (omega arith);
}

client_start-IsStarted_example : IsStarted started
client_start-IsStarted_example =
    client_start-IsStarted host client_args (λ p. 1700000000) random started host-IsSystem
      started-eq

abbrev turn_at : ℕ → Turn
turn_at now = record {
  timer = record { tv_sec = now; tv_nsec = 0 };
  tick = record { now = now; sec = now; nsec = 5 };
  time2 = record { tv_sec = now; tv_nsec = 9 };
  nanosleep = one_signal;
}

abbrev turns : List Turn
turns = turn_at 1700000000 ∷ turn_at 1700000001 ∷ turn_at 1700000002 ∷ []

turns-IsTurn : All (IsTurn 1) turns
turns-IsTurn =
    let one : IsTurn 1 (turn_at 1700000000) = (omega arith, one_signal-IsSleeper) in
    let two : IsTurn 1 (turn_at 1700000001) = (omega arith, one_signal-IsSleeper) in
    let three : IsTurn 1 (turn_at 1700000002) = (omega arith, one_signal-IsSleeper) in
    (one, (two, (three, tt)))

two_sessions : length started.sessions.sessions ≡ 2
unfolding client_start started ◌>>=◌ require parse_macs count_macs count_commas scan_mac scan_fields
    scan_number scan_prefixed scan_digits hex_value with_rest hex_digits
two_sessions = refl

client_start-client_loop_example :
    (outs : List Turned) × (l' : ClientList) × (r' : Random) × (client_loop pause_ops 2
        started.delay turns started.sessions started.random
      ≡ returns (some (outs, (l', r'))))
    × (numbers outs ≡ numbered (length started.sessions.sessions) 0 (ticks turns))
    × All (IsGood started.delay) outs
client_start-client_loop_example =
    client_start-client_loop pause_ops IsAny host client_args (λ p. 1700000000) random started 1
      turns host-IsSystem started-eq (omega (arith, two_sessions)) turns-IsTurn
      pause_ops-IsTruncating (λ timer time2 drawn. tt)

expand_ports-ports_from_example :
    (t : List ℕ) × (expand_ports (decimal 5000) 2 ≡ returns t)
    × (source_ports t ≡ accepted (ports_from 5000 2))
expand_ports-ports_from_example =
    expand_ports-ports_from 5000 2 (omega arith) (omega arith) (omega arith) (omega arith)

abbrev ranges : List Range
ranges = Range.span 5000 5001 ∷ Range.port 5005 ∷ []

source_ports-descriptor_text_example :
    source_ports (descriptor_text ranges) ≡ accepted (5000 ∷ 5001 ∷ 5005 ∷ [])
unfolding ports_from decimal
source_ports-descriptor_text_example =
    source_ports-descriptor_text ranges
      (
        ((omega arith, omega arith), (omega arith, omega arith), omega arith),
        ((omega arith, omega arith), tt),
      )
      (omega arith) (omega arith)

abbrev net : Net
net = net_with (lo_addr ∷ eth_addr ∷ tun_addr ∷ [])

lo-IsOther : All (IsOther 0x0100000a) (lo_addr ∷ [])
lo-IsOther = ((2 ∷ 0 ∷ 0 ∷ 0 ∷ 127 ∷ 0 ∷ 0 ∷ 1 ∷ [], refl, omega arith), tt)

get_if_info-first_example :
    get_if_info net (codes "10.0.0.1") ≡ returns (interface_info net (codes "eth0"))
get_if_info-first_example =
    get_if_info-first net (codes "10.0.0.1") 0x0100000a (lo_addr ∷ []) (tun_addr ∷ []) eth_addr
      (2 ∷ 0 ∷ 0 ∷ 0 ∷ 10 ∷ 0 ∷ 0 ∷ 1 ∷ []) refl refl lo-IsOther refl refl

abbrev net_tun : Net
net_tun = net_with (lo_addr ∷ tun_addr ∷ eth_addr ∷ [])

get_if_info-null_example : get_if_info net_tun (codes "10.0.0.1") ≡ crashes
get_if_info-null_example =
    get_if_info-null net_tun (codes "10.0.0.1") 0x0100000a (lo_addr ∷ []) (eth_addr ∷ []) tun_addr
      refl refl lo-IsOther refl

parse_loop-last_example :
    (o' : Options) × (parse_loop client_args (λ c. unset) ≡ returns o')
    × ((c : ℕ) → o' c ≡ last_value client_args c unset)
parse_loop-last_example = parse_loop-last client_args (λ c. unset) (omega arith)
