-- ===== src/Manager/Recording.antt =====
-- A session over a packet, of its own guid or of another.
use udping.Base.{
  u32, ℕ, ◌+◌, ◌≤◌, ◌≡◌, ◌≢◌, refl, sym, ap, ◌∙◌, List, arith, Option-cases, inl, inr,
}
use udping.Map.{find}
use udping.Map.Keys.{string_key, nat_key}
use udping.Map.Laws.{find-insert_ne, find-insert_self}
use udping.Session.{ServerSession, record_seq}
use udping.Stats.{DoubleOps}
use udping.Manager.{Manager, ok, store, get_server_session, record_packet, sweep_server_sessions}
use udping.Manager.WellFormed.{IsWellFormed}
use udping.Manager.Steps.{store-IsWellFormed}
use udping.Manager.Linking.{get_server_session-new}
use udping.Manager.Receive.{receive_ping-run, record_packet-facts, counted-IsWellFormed}
use udping.Manager.Dangling.{receive_ping-dangling}
use udping.Manager.Reachable.{source_cases}
use udping.Manager.Tracking.{IsHeld, IsApart, new-IsApart, known-IsApart}
use udping.Manager.Events.{Received, receive}
use udping.Manager.Awake.{IsTracked, sweep-IsTracked, counted-IsHeld}

module _ {D : Type 0} where
  module _ (ops : DoubleOps D) (r : Received) where
    abbrev pub counted : Manager D → Manager D
    counted m = record m { interval_packets_received = u32 (m.interval_packets_received + 1) }

    found_other :
        (guid : List ℕ) (a b : ℕ) (s : ServerSession D) (m found m' : Manager D)
        → IsApart guid a s b (counted m) found
        → get_server_session ops r.peer r.port r.guid r.ph (counted m) ≡ ok (b, found)
        → r.now ≤ s.last_arrival + m.keepalive
        → receive ops r m ≡ ok m'
        → IsTracked guid a s m m'
    unfolding store
    found_other guid a b s m found m' v e recent run =
        let recorded = record_packet ops r.sec r.nsec r.arrival r.ph v.other in
        let facts =
          record_packet-facts ops r.ph r.sec r.nsec r.peer r.port r.guid r.arrival r.now m
            v.other in
        let stored = store b recorded found in
        let swept : sweep_server_sessions r.now stored ≡ ok m' =
          sym (
            receive_ping-run ops r.ph r.sec r.nsec r.peer r.port r.guid r.arrival r.now m found b
              v.other e v.other_held)
          ∙ run in
        let t =
          sweep-IsTracked guid a r.now s stored m'
            (store-IsWellFormed found b v.other recorded v.well_formed v.other_held facts.0)
            (record {
              entry = v.kept.entry;
              now = v.kept.now;
              held = find-insert_ne b a recorded found.heap (λ q. v.apart (sym q)) ∙ v.kept.held;
              same = v.kept.same;
            })
            (omega (arith, recent, v.same_keepalive)) swept in
        record {
          well_formed = t.well_formed;
          held = t.held;
          same_keepalive = t.same_keepalive ∙ v.same_keepalive;
        }

    pub receive_other :
        (guid : List ℕ) (a : ℕ) (s : ServerSession D) (m m' : Manager D)
        → IsWellFormed m
        → r.guid ≢ guid
        → IsHeld guid a s m
        → r.now ≤ s.last_arrival + m.keepalive
        → receive ops r m ≡ ok m'
        → IsTracked guid a s m m'
    unfolding get_server_session
    receive_other guid a s m m' w ne h recent run =
        let w' = counted-IsWellFormed m (u32 (m.interval_packets_received + 1)) w in
        let h' = counted-IsHeld guid a (u32 (m.interval_packets_received + 1)) s m h in
        elim (Option-cases (find r.guid m.session_map)) [
          | inr (c, known) ↦
              let e : get_server_session ops r.peer r.port r.guid r.ph (counted m)
                  ≡ ok (c, counted m) =
                rw (known, get_server_session) refl in
              found_other guid a c s m (counted m) m'
                (known-IsApart ops guid r.guid r.peer r.port a c c r.ph s (counted m) (counted m) w'
                  ne known h' e)
                e recent run
          | inl new ↦
              elim (source_cases ops r.ph r.sec r.nsec r.peer r.port r.guid r.arrival r.now m) [
                | inl live ↦
                    let (found, e, _, _, _, _) =
                      get_server_session-new ops r.peer r.port r.guid r.ph (counted m) w' new
                        live in
                    found_other guid a m.next_address s m found m'
                      (new-IsApart ops guid r.guid r.peer r.port a m.next_address r.ph s (counted m)
                        found w' ne new live h' e)
                      e recent run
                | inr (b, source, gone) ↦
                    let stuck =
                      receive_ping-dangling ops r.ph r.sec r.nsec r.peer r.port r.guid r.arrival
                        r.now m b w new source gone in
                    absurd (cc)
              ]
        ]

    record_packet-same :
        (s t : ServerSession D) (g : List ℕ)
        → t ≡ record s { successor = g }
        → record_packet ops r.sec r.nsec r.arrival r.ph t
          ≡ record (record_packet ops r.sec r.nsec r.arrival r.ph s) { successor = g }
    unfolding record_packet
    record_packet-same s t g e = ap (record_packet ops r.sec r.nsec r.arrival r.ph) e

    record_packet-successor :
        (s : ServerSession D)
        → (record_packet ops r.sec r.nsec r.arrival r.ph s).successor ≡ s.successor
    unfolding record_packet record_seq
    record_packet-successor s = refl

    -- A packet of the session itself.
    pub receive_own :
        (a : ℕ) (s : ServerSession D) (m m' : Manager D)
        → IsWellFormed m
        → IsHeld r.guid a s m
        → r.now ≤ r.arrival + m.keepalive
        → receive ops r m ≡ ok m'
        → IsTracked r.guid a (record_packet ops r.sec r.nsec r.arrival r.ph s) m m'
    unfolding get_server_session store
    receive_own a s m m' w h recent run =
        let w' = counted-IsWellFormed m (u32 (m.interval_packets_received + 1)) w in
        let recorded = record_packet ops r.sec r.nsec r.arrival r.ph h.now in
        let facts =
          record_packet-facts ops r.ph r.sec r.nsec r.peer r.port r.guid r.arrival r.now m h.now in
        let last =
          record_packet-facts ops r.ph r.sec r.nsec r.peer r.port r.guid r.arrival r.now m s in
        let e : get_server_session ops r.peer r.port r.guid r.ph (counted m) ≡ ok (a, counted m) =
          rw (h.entry, get_server_session) refl in
        let stored = store a recorded (counted m) in
        let swept : sweep_server_sessions r.now stored ≡ ok m' =
          sym (
            receive_ping-run ops r.ph r.sec r.nsec r.peer r.port r.guid r.arrival r.now m
              (counted m) a h.now e h.held)
          ∙ run in
        let t =
          sweep-IsTracked r.guid a r.now (record_packet ops r.sec r.nsec r.arrival r.ph s) stored m'
            (store-IsWellFormed (counted m) a h.now recorded w' h.held facts.0)
            (record {
              entry = h.entry;
              now = recorded;
              held = find-insert_self a recorded m.heap;
              same =
                  record_packet-same s h.now h.now.successor h.same
                  ∙ ap
                      (λ (g : List ℕ). record (record_packet ops r.sec r.nsec r.arrival r.ph s) {
                        successor = g;
                      })
                      (sym (record_packet-successor h.now));
            })
            (rw last.1 recent) swept in
        record { well_formed = t.well_formed; held = t.held; same_keepalive = t.same_keepalive }
