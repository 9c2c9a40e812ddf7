-- ===== src/ServerMain.antt =====
-- The start of the server: `main` of src/server.cc up to its loop, and the reports of a run as
-- the writer prints them.
pub mod Start
pub mod Loop
pub mod Reports
use udping.Base.{ℕ, List, [], ◌∷◌, Option, none, some, Bool, true, false}
use udping.Program.{Run, returns, exits, crashes, ◌>>=◌, ◌>>◌}
use udping.Options.{
  Options, Parsed, new_options, parse_int_option, get_string_option, get_flag_option, get_quiet,
  to_string,
}
use udping.Host.{Host, set_interval_timer, make_socket, try_nobody}
use udping.StatsWriter.{StatsWriter, OldMemory, new_stats_writer}
use udping.StatsWriter.Report.{DoubleFormat, Output, write_stats}
use udping.Manager.{Manager, Report, init}

-- The options, with the listening host in the place of a receiving host that is not given.
pub record Config : Type 0 where
  pub listen_host : List ℕ
  pub listen_port : ℕ
  pub keepalive : ℕ
  pub receive_host : List ℕ
  pub statsd_info : Option (List ℕ)
  pub statsd_tag_info : Option (List ℕ)
  pub statsd_tag_metric : Option (List ℕ)
  pub quiet : Bool

abbrev pub or_listen : Option (List ℕ) → List ℕ → List ℕ
or_listen none listen_host = listen_host
or_listen (some rh) listen_host = rh

unfoldable pub server_config : Options → Run Config
unfolding get_string_option parse_int_option get_quiet
server_config o = do
  l ← get_string_option o b'l' true
  listen_host ← to_string l
  listen_port ← parse_int_option o b'p' true 1024 65536
  keepalive ← parse_int_option o b'k' true 1 60
  rh ← get_string_option o b'r' false
  statsd_info ← get_string_option o b's' false
  statsd_tag_info ← get_string_option o b't' false
  statsd_tag_metric ← get_string_option o b'm' false
  returns (record {
    listen_host = listen_host;
    listen_port = listen_port;
    keepalive = keepalive;
    receive_host = or_listen rh listen_host;
    statsd_info = statsd_info;
    statsd_tag_info = statsd_tag_info;
    statsd_tag_metric = statsd_tag_metric;
    quiet = get_quiet o;
  })

-- The server in front of its loop.
pub record Started (D : Type 0) : Type 0 where
  pub manager : Manager D
  pub writer : StatsWriter
  pub uid : ℕ

module _ {D : Type 0} where
  unfoldable pub server_start : Host → List Parsed → OldMemory → Run (Started D)
  unfolding try_nobody new_options server_config new_stats_writer set_interval_timer make_socket
      init
  server_start h args old = do
    uid ← try_nobody h
    o ← new_options args
    c ← server_config o
    w ←
        new_stats_writer h c.listen_host c.receive_host c.listen_port c.statsd_info
          c.statsd_tag_info c.statsd_tag_metric c.quiet old
    set_interval_timer h c.keepalive
    make_socket h c.listen_host c.listen_port
    returns (record { manager = init c.keepalive; writer = w; uid = uid })

  -- `StatsWriterSet::writeStats`: the session's guid, peer and port, and its statistics.
  unfoldable pub write_report : DoubleFormat D → StatsWriter → Report D → Run Output
  unfolding write_stats
  write_report fmt w r =
      write_stats fmt w r.session.guid r.session.peer r.session.port r.session.stats r.time

  -- The calls of the writer, in order.
  unfoldable pub write_reports : DoubleFormat D → StatsWriter → List (Report D) → Run (List Output)
  unfolding write_report
  write_reports fmt w [] = returns []
  write_reports fmt w (r ∷ rs) = do
    out ← write_report fmt w r
    outs ← write_reports fmt w rs
    returns (out ∷ outs)
