-- ===== src/Manager/Beginning.antt =====
-- The stream of a session from its first packet on.
use udping.Base.{u32, ◌+◌, ◌≤◌, ◌≡◌, refl, sym, ◌∙◌, subst, List, ◌∷◌, none, inl, inr}
use udping.Map.{find}
use udping.Map.Keys.{string_key, nat_key}
use udping.Map.Laws.{find-insert_self}
use udping.Session.{ServerSession, new_session}
use udping.Stats.{DoubleOps}
use udping.Manager.{Manager, ok, store, source_key, record_packet, sweep_server_sessions}
use udping.Manager.WellFormed.{IsWellFormed, hosts-IsWellFormed}
use udping.Manager.Steps.{store-IsWellFormed}
use udping.Manager.Linking.{IsSourceLive, get_server_session-new}
use udping.Manager.Receive.{receive_ping-run, record_packet-facts, counted-IsWellFormed}
use udping.Manager.Dangling.{receive_ping-dangling}
use udping.Manager.Reachable.{source_cases}
use udping.Manager.Recording.{counted}
use udping.Manager.Awake.{hosts-IsTracked, IsTracked, sweep-IsTracked}
use udping.Manager.Events.{
  Received, Event, ping, handle, receive, run_events, run_events-cons, packets_of, record_packets,
}
use udping.Manager.Stream.{IsAwake, run_events-IsTracked}

module _ {D : Type 0} (ops : DoubleOps D) where
  -- The session of a stream right after its first packet.
  abbrev pub begun : Received → ServerSession D
  begun r =
      record_packet ops r.sec r.nsec r.arrival r.ph (new_session ops r.guid r.peer r.port r.ph)

  receive_first :
      (r : Received) (m m' : Manager D)
      → IsWellFormed m
      → find r.guid m.session_map ≡ none
      → IsSourceLive m (source_key r.peer r.port)
      → r.now ≤ r.arrival + m.keepalive
      → receive ops r m ≡ ok m'
      → IsTracked r.guid m.next_address (begun r) m m'
  unfolding store
  receive_first r m m' w new live recent run =
      let w' = counted-IsWellFormed m (u32 (m.interval_packets_received + 1)) w in
      let ds = new_session ops r.guid r.peer r.port r.ph in
      let (found, e, wf, held, here, keeps) =
        get_server_session-new ops r.peer r.port r.guid r.ph (counted ops r m) w' new live in
      let facts =
        record_packet-facts ops r.ph r.sec r.nsec r.peer r.port r.guid r.arrival r.now m ds in
      let stored = store m.next_address (begun r) found in
      let swept : sweep_server_sessions r.now stored ≡ ok m' =
        sym (
          receive_ping-run ops r.ph r.sec r.nsec r.peer r.port r.guid r.arrival r.now m found
            m.next_address ds e held)
        ∙ run in
      let t =
        sweep-IsTracked r.guid m.next_address r.now (begun r) stored m'
          (store-IsWellFormed found m.next_address ds (begun r) wf held facts.0)
          (record {
            entry = here;
            now = begun r;
            held = find-insert_self m.next_address (begun r) found.heap;
            same = refl;
          })
          (rw (facts.1, keeps) recent) swept in
      record {
        well_formed = t.well_formed;
        held = t.held;
        same_keepalive = t.same_keepalive ∙ keeps;
      }

  pub receive_first-IsTracked :
      (r : Received) (m m' : Manager D)
      → IsWellFormed m
      → find r.guid m.session_map ≡ none
      → r.now ≤ r.arrival + m.keepalive
      → receive ops r m ≡ ok m'
      → IsTracked r.guid m.next_address (begun r) m m'
  receive_first-IsTracked r m m' w new recent run =
      elim (source_cases ops r.ph r.sec r.nsec r.peer r.port r.guid r.arrival r.now m) [
        | inl live ↦ receive_first r m m' w new live recent run
        | inr (b, source, gone) ↦
            let stuck =
              receive_ping-dangling ops r.ph r.sec r.nsec r.peer r.port r.guid r.arrival r.now m b w
                new source gone in
            absurd (cc)
      ]

  -- The session after its first packet and any events.
  pub stream-IsTracked :
      (r : Received) (es : List Event) (m m' : Manager D)
      → IsWellFormed m
      → find r.guid m.session_map ≡ none
      → r.now ≤ r.arrival + m.keepalive
      → IsAwake m.keepalive r.guid r.arrival es
      → run_events ops (ping r ∷ es) m ≡ ok m'
      → IsTracked r.guid m.next_address (record_packets ops (begun r) (packets_of r.guid es)) m m'
  unfolding handle record_packet
  stream-IsTracked r es m m' w new recent awake run =
      let (n, first, rest) = run_events-cons ops (ping r) es m m' run in
      let t = hosts-IsTracked r.hosts r.guid m.next_address (begun r) m n (
        receive_first-IsTracked r (record m { host_map = r.hosts }) n
          (hosts-IsWellFormed r.hosts m w) new recent first) in
      let u =
        run_events-IsTracked ops r.guid m.next_address (begun r) es n m' t.well_formed t.held
          (subst (λ k. IsAwake k r.guid r.arrival es) (sym t.same_keepalive) awake) rest in
      record {
        well_formed = u.well_formed;
        held = u.held;
        same_keepalive = u.same_keepalive ∙ t.same_keepalive;
      }
