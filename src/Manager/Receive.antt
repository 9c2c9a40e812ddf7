-- ===== src/Manager/Receive.antt =====
-- `receivePing`: when its pointers are live it succeeds and keeps the invariant.
use udping.Base.{u32, ℕ, ◌+◌, ◌≤◌, ◌≡◌, refl, ap, ◌∙◌, false, List, none, some, arith}
use udping.Map.{find}
use udping.Map.Keys.{string_key, nat_key}
use udping.Map.Laws.{find-insert_self, All-find}
use udping.Packet.{Packet}
use udping.Session.{ServerSession, new_session}
use udping.Stats.{DoubleOps}
use udping.Manager.{
  Manager, ok, store, source_key, get_server_session, record_packet, receive_ping,
  sweep_server_sessions,
}
use udping.Manager.WellFormed.{IsWellFormed, deref-ok}
use udping.Manager.Swept.{is_stale}
use udping.Manager.Expiry.{sweep_server_sessions-IsSwept}
use udping.Manager.Steps.{store-IsWellFormed}
use udping.Manager.Linking.{IsSourceLive, get_server_session-new}

module _ {D : Type 0} where
  -- After the packet the guid leads to the same session, with the packet recorded.
  pub record IsReceived (guid : List ℕ) (address : ℕ) (s : ServerSession D) (m' : Manager D)
      : Type 0 where
    pub well_formed : IsWellFormed m'
    pub entry : find guid m'.session_map ≡ some address
    pub recorded : find address m'.heap ≡ some s

  store-IsReceived :
      (guid : List ℕ) (a now : ℕ) (s s' : ServerSession D) (m : Manager D)
      → IsWellFormed m
      → find guid m.session_map ≡ some a
      → find a m.heap ≡ some s
      → s'.guid ≡ s.guid
      → now ≤ s'.last_arrival + m.keepalive
      → (m' : Manager D) × (sweep_server_sessions now (store a s' m) ≡ ok m')
        × IsReceived guid a s' m'
  unfolding store
  store-IsReceived guid a now s s' m w here held same recent =
      let stored = store a s' m in
      let (m', run, swept) =
        sweep_server_sessions-IsSwept now stored (store-IsWellFormed m a s s' w held same) in
      let found = find-insert_self a s' m.heap in
      let young : is_stale now m.keepalive (find a stored.heap) ≡ false =
        ap (is_stale now m.keepalive) found ∙ ground arith in
      let (entry, kept) = All-find _ guid a stored.session_map swept.kept here young in
      (m', run, record { well_formed = swept.well_formed; entry = entry; recorded = kept ∙ found })

  pub counted-IsWellFormed :
      (m : Manager D) (n : ℕ)
      → IsWellFormed m
      → IsWellFormed (record m { interval_packets_received = n })
  counted-IsWellFormed m n w = record {
    sorted = w.sorted;
    live = w.live;
    allocated = w.allocated;
    positive = w.positive;
    sources = w.sources;
  }

  module _ (ops : DoubleOps D) (ph : Packet) (sec nsec : ℕ) (peer : List ℕ) (port : ℕ)
      (guid : List ℕ) (arrival now : ℕ) (m : Manager D) where
    pub receive_ping-run :
        (found : Manager D) (address : ℕ) (s : ServerSession D)
        → get_server_session ops peer port guid ph
            (record m { interval_packets_received = u32 (m.interval_packets_received + 1) })
          ≡ ok (address, found)
        → find address found.heap ≡ some s
        → receive_ping ops ph sec nsec peer port guid arrival now m
          ≡ sweep_server_sessions now
              (store address (record_packet ops sec nsec arrival ph s) found)
    unfolding receive_ping
    receive_ping-run found address s e held =
        rw (e, receive_ping, deref-ok found address s held) refl

    pub record_packet-facts :
        (s : ServerSession D)
        → ((record_packet ops sec nsec arrival ph s).guid ≡ s.guid)
          × ((record_packet ops sec nsec arrival ph s).last_arrival ≡ arrival)
    unfolding record_packet
    record_packet-facts s = (refl, refl)

    -- In a well-formed manager, a packet of a known session that arrives within the keepalive time
    -- is recorded in that session, and the session stays.
    pub receive_ping-known :
        (a : ℕ) (s : ServerSession D)
        → IsWellFormed m
        → now ≤ arrival + m.keepalive
        → find guid m.session_map ≡ some a
        → find a m.heap ≡ some s
        → (m' : Manager D) × (receive_ping ops ph sec nsec peer port guid arrival now m ≡ ok m')
          × IsReceived guid a (record_packet ops sec nsec arrival ph s) m'
    unfolding get_server_session
    receive_ping-known a s w recent here held =
        let counted = record m {
          interval_packets_received = u32 (m.interval_packets_received + 1);
        } in
        let facts = record_packet-facts s in
        let (m', run, r) =
          store-IsReceived guid a now s (record_packet ops sec nsec arrival ph s) counted
            (counted-IsWellFormed m _ w) here held facts.0 (rw facts.1 recent) in
        (m', receive_ping-run counted a s (rw (here, get_server_session) refl) held ∙ run, r)

    -- In a well-formed manager, a packet with a new guid that arrives within the keepalive time
    -- makes a session and is recorded in it, if the last session of its source is live or there is
    -- none.
    pub receive_ping-new :
        IsWellFormed m
        → now ≤ arrival + m.keepalive
        → find guid m.session_map ≡ none
        → IsSourceLive m (source_key peer port)
        → (m' : Manager D) × (receive_ping ops ph sec nsec peer port guid arrival now m ≡ ok m')
          × IsReceived guid m.next_address
              (record_packet ops sec nsec arrival ph (new_session ops guid peer port ph))
              m'
    receive_ping-new w recent new live =
        let counted = record m {
          interval_packets_received = u32 (m.interval_packets_received + 1);
        } in
        let ds = new_session ops guid peer port ph in
        let facts = record_packet-facts ds in
        let (found, e, w', held, here, keeps) =
          get_server_session-new ops peer port guid ph counted (counted-IsWellFormed m _ w) new
            live in
        let (m', run, r) =
          store-IsReceived guid m.next_address now ds (record_packet ops sec nsec arrival ph ds)
            found w' here held facts.0 (rw (facts.1, keeps) recent) in
        (m', receive_ping-run found m.next_address ds e held ∙ run, r)
