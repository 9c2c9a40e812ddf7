-- ===== src/Tests/Servers.antt =====
-- The server from its command line, and its reports.
use udping.Base.{length, inl, inr, ℕ, ◌≡◌, refl, List, [], ◌∷◌, ◌++◌, some, none, false, arith}
use udping.Text.{codes, decimal}
use udping.Program.{returns, crashes, ◌>>=◌}
use udping.Options.{Parsed}
use udping.Options.Laws.{IsBetween}
use udping.Host.{Host}
use udping.Stats.{init}
use udping.Manager.{Manager, handle_alarm, sweep_server_sessions}
use udping.Manager as Manager
use udping.Manager.WellFormed.{IsWellFormed}
use udping.Manager.Reachable.{Step, Reach}
use udping.StatsWriter.{
  StatsWriter, OldMemory, null, to, wild, new_stats_writer, receive_name, underscored,
}
use udping.StatsWriter.Report.{DoubleFormat, Output, statsd_line, statsd_text, write_stats}
use udping.StatsWriter.Fields.{fields, statsd_line-fields}
use udping.StatsWriter.Wild.{write_stats_wild}
use udping.Session.{new_session}
use udping.ServerMain.{Started, server_start, write_reports}
use udping.ServerMain.Reports.{IsHostOf, AreWritten, write_reports-given}
use udping.ServerMain.Start.{server_start-IsWellFormed, server_start-root}
use udping.Manager.{source_key}
use udping.Manager.Serving.{loop_events}
use udping.Manager.Ledger.{Ledger, empty, account}
use udping.ServerMain.Loop.{IsEnded, server_start-server_loop}
use udping.Manager.Socket.{Datagram, read_next_packet}
use udping.Manager.Socket.EndToEnd.{carrying}
use udping.Tests.Measures.{served, served_session}
use udping.Tests.Data.{
  clock, nat_ops, packet_at, guid_text, names, server_input, server_input-HasGuid,
}
use udping.Tests.Systems.{given, host_with}

-- A system on which no user can be changed to.
abbrev host : Host
host = host_with (λ u. false)

abbrev server_args : List Parsed
server_args =
    given b'l' (codes "10.0.0.1") ∷ given b'p' (codes "6000") ∷ given b'k' (codes "30") ∷ []

abbrev memory : OldMemory
memory = record { old_statsd = wild; old_tags = null }

abbrev writer : StatsWriter
writer = record {
  receive_hostname = codes "10_0_0_1";
  listen_port = 6000;
  statsd_sa = wild;
  tags_sa = null;
  tags_metric = codes "udping";
  quiet = false;
}

abbrev started : Started ℕ
started = record { manager = Manager.init 30; writer = writer; uid = 0 }

started-eq : server_start host server_args memory ≡ returns started
unfolding server_start ◌>>=◌
started-eq = refl

abbrev good : Datagram
good = carrying (packet_at 8) [] 77 5000

abbrev short : Datagram
short = record { count = some 20; buf = []; address = 1; port = 2 }

-- After the good datagram.
abbrev arrived : Manager ℕ
arrived = record served { keepalive = 30; interval_packets_received = 1 }

-- After an alarm, which takes the count back.
abbrev waiting : Manager ℕ
waiting = record arrived { interval_packets_received = 0 }

-- After an alarm when the session is silent for longer than the keepalive time.
abbrev swept : Manager ℕ
swept = record waiting {
  session_map = [];
  heap = [];
  reports =
      record {
        session = record served_session {
          stats = record served_session.stats { target_count = 1 };
        };
        time = 1050;
      }
      ∷ [];
}

packet_run : read_next_packet nat_ops names clock good (Manager.init 30) ≡ Manager.ok arrived
unfolding read_next_packet Manager.init udping.Packet.decode udping.Packet.encode
    udping.Manager.Socket.guid_of udping.Packet.guid_string Manager.receive_ping
    Manager.get_server_session udping.Map.find Manager.link_predecessor Manager.store
    udping.Map.insert Manager.record_packet new_session Manager.deref sweep_server_sessions
packet_run = refl

short_run : read_next_packet nat_ops names clock short arrived ≡ Manager.ok arrived
unfolding read_next_packet
short_run = refl

alarm_run : handle_alarm 1002 arrived ≡ Manager.ok waiting
unfolding handle_alarm
alarm_run = refl

sweep_run : handle_alarm 1050 waiting ≡ Manager.ok swept
unfolding handle_alarm sweep_server_sessions udping.Map.find udping.Map.erase
sweep_run = refl

reached : Reach nat_ops (Manager.init 30) swept
reached =
    let after_good : Reach nat_ops (Manager.init 30) arrived =
      Reach.next Reach.here (Step.packet names clock good packet_run) in
    let after_short : Reach nat_ops (Manager.init 30) arrived =
      Reach.next after_good (Step.packet names clock short short_run) in
    let after_alarm : Reach nat_ops (Manager.init 30) waiting =
      Reach.next after_short (Step.alarm 1002 alarm_run) in
    Reach.next after_alarm (Step.alarm 1050 sweep_run)

server_start-IsWellFormed_example : IsBetween 1 60 30 × IsWellFormed swept
unfolding Manager.init
server_start-IsWellFormed_example =
    server_start-IsWellFormed nat_ops host server_args memory started swept started-eq reached

other_user :
    server_start (record host { uid = 1000 }) server_args memory
    ≡ returns (record started { uid = 1000 })
unfolding server_start ◌>>=◌
other_user = refl

server_start-root_example : server_start host server_args memory ≡ returns started
server_start-root_example =
    server_start-root host server_args memory (record { pw_uid = 65534; pw_gid = 65534 }) 1000
      (record started { uid = 1000 }) refl refl (omega arith) refl other_user

made :
    new_stats_writer host (codes "10.0.0.1") (codes "10.0.0.1") 6000 none none none false memory
    ≡ returns writer
unfolding new_stats_writer ◌>>=◌
made = refl

statsd_line-fields_example :
    fields (
      statsd_line writer
        (underscored (codes "10.0.0.2"))
        5000
        (codes "count")
        (codes "3")
        (codes "c"))
    ≡ underscored (codes "10.0.0.2")
      ∷ decimal 5000
      ∷ underscored (receive_name host (codes "10.0.0.1"))
      ∷ decimal 6000
      ∷ codes "count"
      ∷ []
statsd_line-fields_example =
    statsd_line-fields host (codes "10.0.0.1") (codes "10.0.0.1") 6000 none none none false memory
      writer (codes "10.0.0.2") 5000 (codes "count") (codes "3") (codes "c") made (omega arith)
      (omega arith) (omega arith)

abbrev nat_format : DoubleFormat ℕ
nat_format = record { printf_lf = decimal; stream = decimal }

write_stats_wild_example :
    write_stats nat_format writer (codes "1") (codes "10.0.0.2") 5000 (init nat_ops) 1700000000
    ≡ crashes
write_stats_wild_example =
    write_stats_wild nat_format host (codes "10.0.0.1") (codes "10.0.0.1") 6000 none none false
      memory writer (codes "1") (codes "10.0.0.2") 5000 (init nat_ops) 1700000000 made refl

reported :
    statsd_text nat_format writer
      (codes "10_0_0_2")
      5000
      (record { count = 3; target_count = 4; sum = 5; sum_of_squares = 9; max = 2 })
    ≡ codes "10_0_0_2.5000.10_0_0_1.6000.count:3|c"
      ++ (10 ∷ codes "10_0_0_2.5000.10_0_0_1.6000.targetCount:4|c")
      ++ (10 ∷ codes "10_0_0_2.5000.10_0_0_1.6000.sum:5|c")
      ++ (10 ∷ codes "10_0_0_2.5000.10_0_0_1.6000.sos:9|c")
      ++ (10 ∷ codes "10_0_0_2.5000.10_0_0_1.6000.max:2|g")
      ++ (10 ∷ [])
unfolding statsd_text decimal
reported = refl

-- A system that tells hosts apart by the lengths of their names.
abbrev two_hosts : Host
two_hosts = record host { resolve = λ name. some (length name) }

abbrev given_writer : StatsWriter
given_writer = record writer { statsd_sa = to 2; tags_sa = to 3 }

made_given :
    new_stats_writer two_hosts
      (codes "10.0.0.1")
      (codes "10.0.0.1")
      6000
      (some (codes "h1:8126:1"))
      (some (codes "tag"))
      none
      false
      memory
    ≡ returns given_writer
unfolding new_stats_writer ◌>>=◌
made_given = refl

statsd_host : IsHostOf (codes "h1:8126:1") (codes "h1")
statsd_host = ((omega arith, (omega arith, tt)), inr (codes "8126:1", refl))

tag_host : IsHostOf (codes "tag") (codes "tag")
tag_host = ((omega arith, (omega arith, (omega arith, tt))), inl refl)

abbrev reports : List (Manager.Report ℕ)
reports =
    record {
      session = new_session nat_ops (codes "1") (codes "10.0.0.2") 5000 (packet_at 8);
      time = 1700000000;
    }
    ∷ []

write_reports-given_example :
    (statsd tags : ℕ) × (outs : List Output) × (some 2 ≡ some statsd)
    × (some 3 ≡ some tags)
    × (write_reports nat_format given_writer reports ≡ returns outs)
    × AreWritten statsd tags none false reports outs
write_reports-given_example =
    write_reports-given nat_format two_hosts (codes "10.0.0.1") (codes "10.0.0.1") 6000
      (codes "h1:8126:1") (codes "h1") (codes "tag") (codes "tag") none false memory given_writer
      reports statsd_host tag_host made_given

abbrev last_ledger : Ledger
last_ledger = record {
  guids = (guid_text, some 1001) ∷ [];
  sources = (source_key (49 ∷ 46 ∷ 50 ∷ []) 5000, guid_text) ∷ [];
}

accounted :
    account 30 (loop_events nat_ops names server_input (Manager.init 30)) empty ≡ some last_ledger
unfolding account loop_events udping.Packet.decode udping.Packet.encode
    udping.Manager.Socket.guid_of udping.Packet.guid_string Manager.receive_ping
    Manager.get_server_session udping.Map.find Manager.init Manager.link_predecessor Manager.store
    udping.Map.insert Manager.record_packet
accounted = refl

server_start-server_loop_example :
    IsEnded nat_ops names 30 server_input (Manager.init 30) last_ledger
unfolding Manager.init
server_start-server_loop_example =
    server_start-server_loop nat_ops names host server_args memory started server_input last_ledger
      started-eq server_input-HasGuid accounted
