-- ===== src/Manager/Measure.antt =====
-- A whole measurement: from a session's first packet, over any events, to its report.
use udping.Base.{
  ℕ, ◌+◌, ◌-◌, ◌^◌, ◌<◌, ◌≤◌, ◌≡◌, sym, ◌∙◌, subst, List, ◌∷◌, ◌++◌, none, some, true, arith, map,
  u32, ◌==◌,
}
use udping.Map.{find}
use udping.Map.Keys.{string_key, nat_key}
use udping.Session.{ServerSession, record_all, with_target}
use udping.Session.Coverage.{IsSteady, hull_all, single}
use udping.Stats.{DoubleOps, IsOrdered}
use udping.Manager.{Manager, Report, ok, handle_alarm, is_expired}
use udping.Manager.Expiry.{sweep_server_sessions-IsSwept}
use udping.Manager.WellFormed.{IsWellFormed}
use udping.Manager.Dangling.{ok-injective}
use udping.Manager.Reachable.{alarm-ok}
use udping.Manager.Events.{Received, Event, ping, run_events, packets_of, record_packets}
use udping.Manager.Stream.{IsAwake}
use udping.Manager.Closing.{IsClosed}
use udping.Manager.Reporting.{IsReported, sweep_server_sessions-IsReported}
use udping.Manager.Counters.{seqs}
use udping.Manager.Beginning.{begun, stream-IsTracked}
use udping.Manager.Measured.{IsEnd, end-IsClosed, IsMeasured, closed-IsMeasured}

module _ {D : Type 0} (ops : DoubleOps D) where
  alarm-IsReported :
      (now : ℕ) (guid : List ℕ) (a : ℕ) (s closed : ServerSession D) (m m' : Manager D)
      → IsWellFormed m
      → m.interval_packets_received ≡ 0
      → find guid m.session_map ≡ some a
      → find a m.heap ≡ some s
      → is_expired now m.keepalive s ≡ true
      → IsClosed now s m closed
      → handle_alarm now m ≡ ok m'
      → IsReported (record { session = with_target closed; time = now }) m.reports m'.reports
  unfolding handle_alarm
  alarm-IsReported now guid a s closed m m' w idle entry held old closes run =
      let (n, swept, _) = sweep_server_sessions-IsSwept now m w in
      let quiet : (m.interval_packets_received == 0) ≡ true = ground arith in
      let ended : ok (record n { interval_packets_received = 0 }) ≡ ok m' =
        rw (handle_alarm, quiet, swept) at run in
      subst
        (λ (x : Manager D).
          IsReported (record { session = with_target closed; time = now }) m.reports x.reports)
        (ok-injective ended)
        (sweep_server_sessions-IsReported now guid a s closed m n w entry held old closes swept)

  -- In a well-formed manager, from a packet `r` with a new guid on, through any packets and alarms,
  -- as long as the server does not fault and the stream is never silent for longer than the
  -- keepalive time: once it is silent for longer and an alarm comes with no packet since the alarm
  -- before, the alarm does not fault, and the server reports the stream. The report has the sender,
  -- the number of the packets of this guid in 32 bits, the sum and the sum of squares of their
  -- delays, added up in their order, and a maximum that no delay is above and that is one of them,
  -- or the lowest `double`; `<` of `double` is irreflexive and transitive. If the numbers of the
  -- packets, in their order of arrival and with the last number before the session that follows if
  -- one does and is not silent itself, are never more than 9 apart from the range of those before
  -- them and span less than 2^32 - 20, the target count is the width of their range: all numbers
  -- from the first to the last, the lost ones included.
  pub run_events-IsMeasured :
      IsOrdered ops
      → (r : Received) (es : List Event) (now n : ℕ) (ns ks : List ℕ) (m m1 : Manager D)
        (s : ServerSession D)
      → IsWellFormed m
      → find r.guid m.session_map ≡ none
      → r.now ≤ r.arrival + m.keepalive
      → IsAwake m.keepalive r.guid r.arrival es
      → run_events ops (ping r ∷ es) m ≡ ok m1
      → find m.next_address m1.heap ≡ some s
      → s.last_arrival + m.keepalive < now
      → m1.interval_packets_received ≡ 0
      → IsEnd now s m1 ks
      → r.ph.seq_num ≡ u32 n
      → seqs (packets_of r.guid es) ≡ map (λ k. u32 k) ns
      → IsSteady (single n) (ns ++ ks)
      → (hull_all (single n) (ns ++ ks)).high + 20 ≤ (hull_all (single n) (ns ++ ks)).low + 2 ^ 32
      → (m2 : Manager D) × (handle_alarm now m1 ≡ ok m2)
        × (report : Report D) × IsReported report m1.reports m2.reports
        × IsMeasured ops r
            (packets_of r.guid es)
            ((hull_all (single n) (ns ++ ks)).high - (hull_all (single n) (ns ++ ks)).low + 1)
            now
            report
  run_events-IsMeasured ord r es now n ns ks m m1 s w new recent awake run held silent idle ended
        first numbers steady narrow =
      let rs = packets_of r.guid es in
      let t = stream-IsTracked ops r es m m1 w new recent awake run in
      let one : some t.held.now ≡ some s = sym t.held.held ∙ held in
      let same : t.held.now ≡ s = cc in
      let old : is_expired now m1.keepalive s ≡ true = ground (arith, t.same_keepalive) in
      let recorded = record_packets ops (begun ops r) rs in
      let (m2, alarmed, _) = alarm-ok now m1 t.well_formed in
      (
        m2,
        alarmed,
        record { session = with_target (record_all s (map (λ k. u32 k) ks)); time = now },
        alarm-IsReported now r.guid m.next_address s (record_all s (map (λ k. u32 k) ks)) m1 m2
            t.well_formed idle t.held.entry held old (end-IsClosed now s m1 ks ended) alarmed,
        closed-IsMeasured ops ord r rs s now n ns ks
            (subst (λ (x : ServerSession D). x ≡ record recorded { successor = x.successor }) same
              t.held.same)
            first numbers steady narrow,
      )
