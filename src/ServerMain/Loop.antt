-- ===== src/ServerMain/Loop.antt =====
-- The server from its command line through its loop.
use udping.Base.{ℕ, ◌≡◌, sym, ◌∙◌, subst, List, some, All}
use udping.Program.{returns}
use udping.Options.{Parsed}
use udping.Host.{Host}
use udping.StatsWriter.{OldMemory}
use udping.Stats.{DoubleOps}
use udping.Manager.{Manager, ok, init}
use udping.Manager.WellFormed.{IsWellFormed}
use udping.Manager.Socket.{NameService}
use udping.Manager.Serving.{Input, server_loop, loop_events}
use udping.Manager.Serving.Faults.{HasGuid, server_loop-eq}
use udping.Manager.Ledger.{Ledger, empty, account}
use udping.Manager.Ledger.Agreement.{Agrees}
use udping.Manager.Faultless.{run_events-IsServed}
use udping.ServerMain.{Started, server_start}
use udping.ServerMain.Start.{server_start-fresh}

module _ {D : Type 0} (ops : DoubleOps D) (names : NameService) where
  -- The end of the loop over some inputs.
  pub record IsEnded (keepalive : ℕ) (is : List Input) (m : Manager D) (last : Ledger)
      : Type 0 where
    pub after : Manager D
    pub run : server_loop ops names is m ≡ ok after
    pub well_formed : IsWellFormed after
    pub agrees : Agrees keepalive last after

  init-IsEnded :
      (keepalive : ℕ) (is : List Input) (last : Ledger)
      → All HasGuid is
      → account keepalive (loop_events ops names is (init keepalive)) empty ≡ some last
      → IsEnded keepalive is (init keepalive) last
  init-IsEnded keepalive is last ends e =
      let v =
        run_events-IsServed ops keepalive (loop_events ops names is (init keepalive)) last e in
      record {
        after = v.after;
        run = server_loop-eq ops names is (init keepalive) ends ∙ v.run;
        well_formed = v.well_formed;
        agrees = v.agrees;
      }

  -- When the server has started, whatever datagrams and signals its loop meets: if the guids of the
  -- accepted datagrams end within what was read, and the ledger accounts for the events, that is,
  -- if no guid comes again after it was silent for longer than the keepalive time, a new guid comes
  -- from a source only while the last guid that was new there is not silent for longer, and no
  -- packet's sweep is later than the keepalive time after its arrival, then the loop never faults,
  -- and each guid that is not silent at its end leads to its session.
  pub server_start-server_loop :
      (h : Host) (args : List Parsed) (old : OldMemory) (st : Started D) (is : List Input)
      (last : Ledger)
      → server_start h args old ≡ returns st
      → All HasGuid is
      → account st.manager.keepalive (loop_events ops names is st.manager) empty ≡ some last
      → IsEnded st.manager.keepalive is st.manager last
  server_start-server_loop h args old st is last e ends accounted =
      let fresh = server_start-fresh h args old st e in
      let k = st.manager.keepalive in
      subst (λ m. IsEnded k is m last) (sym fresh)
        (init-IsEnded k is last ends
          (subst (λ m. account k (loop_events ops names is m) empty ≡ some last) fresh accounted))
