-- ===== src/ServerMain/Start.antt =====
-- What holds when the server enters its loop.
use udping.Base.{ℕ, ◌≡◌, ◌≢◌, refl, subst, List, false, some, ◌==◌, arith}
use udping.Program.{returns, ◌>>=◌}
use udping.Program.Ensures.{Ensures, Ensures-bind, Ensures-returns}
use udping.Options.{Options, Parsed, new_options}
use udping.Options.Laws.{IsBetween, required-IsBetween}
use udping.Host.{
  Host, Passwd, try_nobody, nobody_entry, user_after, set_interval_timer, make_socket,
  get_sock_addr,
}
use udping.StatsWriter.{OldMemory, new_stats_writer, set_address, statsd_address}
use udping.Stats.{DoubleOps}
use udping.Manager.{Manager, init}
use udping.Manager.WellFormed.{IsWellFormed}
use udping.Manager.Reachable.{Reach, Reach-IsWellFormed}
use udping.ServerMain.{server_config, Started, server_start}

server_config-keepalive :
    (o : Options) → Ensures (λ c. IsBetween 1 60 c.keepalive) (server_config o)
unfolding server_config
server_config-keepalive o = Ensures-bind _ _ (λ _ _. Ensures-bind _ _ (λ _ _.
    Ensures-bind _ _ (λ _ _. Ensures-bind _ _ (λ keepalive e. Ensures-bind _ _ (λ _ _.
      Ensures-bind _ _ (λ _ _. Ensures-bind _ _ (λ _ _.
        Ensures-bind _ _
          (λ _ _. Ensures-returns _ (required-IsBetween o b'k' 1 60 keepalive e)))))))))

try_nobody-root :
    (h : Host) (p : Passwd)
    → h.uid ≡ 0
    → h.nobody ≡ some p
    → p.pw_uid ≢ 0
    → h.setuid p.pw_uid ≡ false
    → try_nobody h ≡ returns 0
unfolding try_nobody nobody_entry user_after ◌>>=◌
try_nobody-root h p root entry ordinary fails =
    let other : (p.pw_uid == 0) ≡ false = ground (arith, ordinary) in
    rw (try_nobody, nobody_entry, root, entry, other, fails) refl

module _ {D : Type 0} where
  -- A fresh manager with its keepalive time in range.
  pub record IsStarted (st : Started D) : Type 0 where
    pub fresh : st.manager ≡ init st.manager.keepalive
    pub keepalive_in_range : IsBetween 1 60 st.manager.keepalive

  server_start-ensured :
      (h : Host) (args : List Parsed) (old : OldMemory)
      → Ensures IsStarted (server_start {D = D} h args old)
  unfolding server_start init
  server_start-ensured h args old = Ensures-bind _ _ (λ _ _. Ensures-bind _ _ (λ o _.
      Ensures-bind _ _ (λ c e. Ensures-bind _ _ (λ w _. Ensures-bind _ _ (λ _ _.
        Ensures-bind _ _ (λ _ _.
          Ensures-returns _
            (record { fresh = refl; keepalive_in_range = (server_config-keepalive o).at c e })))))))

  pub server_start-fresh :
      (h : Host) (args : List Parsed) (old : OldMemory) (st : Started D)
      → server_start h args old ≡ returns st
      → st.manager ≡ init st.manager.keepalive
  server_start-fresh h args old st e = ((server_start-ensured h args old).at st e).fresh

  -- Whatever the system answers and the command line says, a server that reaches its loop has a
  -- keepalive time from 1 to 60 seconds, and behind any datagrams and alarms, in any order, each of
  -- which it handles without a fault, the manager is well-formed.
  pub server_start-IsWellFormed :
      (ops : DoubleOps D) (h : Host) (args : List Parsed) (old : OldMemory) (st : Started D)
      (m : Manager D)
      → server_start h args old ≡ returns st
      → Reach ops st.manager m
      → IsBetween 1 60 st.manager.keepalive × IsWellFormed m
  server_start-IsWellFormed ops h args old st m e reach =
      let started = (server_start-ensured h args old).at st e in
      (
        started.keepalive_in_range,
        Reach-IsWellFormed ops st.manager.keepalive
            (subst (λ s. Reach ops s m) started.fresh reach),
      )

  -- A server that is started as root, where "nobody" has a user other than root and setuid fails,
  -- starts wherever it would start for another user, with the same manager and writer,
  -- and goes on as root, though its message says that it terminates.
  pub server_start-root :
      (h : Host) (args : List Parsed) (old : OldMemory) (p : Passwd) (user : ℕ) (st : Started D)
      → h.uid ≡ 0
      → h.nobody ≡ some p
      → p.pw_uid ≢ 0
      → h.setuid p.pw_uid ≡ false
      → server_start (record h { uid = user }) args old ≡ returns st
      → server_start h args old ≡ returns (record st { uid = 0 })
  unfolding server_start new_stats_writer set_interval_timer make_socket set_address statsd_address
      get_sock_addr ◌>>=◌
  server_start-root h args old p user st root entry ordinary fails e = ensured.at st e
    where
      root_user : try_nobody h ≡ returns 0
      root_user = try_nobody-root h p root entry ordinary fails

      ensured :
          Ensures
            (λ (s : Started D). server_start h args old ≡ returns (record s { uid = 0 }))
            (server_start (record h { uid = user }) args old)
      ensured = Ensures-bind (try_nobody (record h { uid = user })) _ (λ uid _.
          Ensures-bind (new_options args) _ (λ o e_o. Ensures-bind (server_config o) _ (λ c e_c.
            Ensures-bind
              (new_stats_writer h c.listen_host c.receive_host c.listen_port c.statsd_info
                c.statsd_tag_info c.statsd_tag_metric c.quiet old)
              _
              (λ w e_w. Ensures-bind (set_interval_timer h c.keepalive) _ (λ _ e_t.
                Ensures-bind (make_socket h c.listen_host c.listen_port) _ (λ _ e_s.
                  Ensures-returns
                    (record { manager = init {D = D} c.keepalive; writer = w; uid = uid })
                    (rw (server_start, root_user, e_o, e_c, e_w, e_t, e_s) refl)))))))
