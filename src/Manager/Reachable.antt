-- ===== src/Manager/Reachable.antt =====
-- The manager over time: packets and alarms in any order.
use udping.Base.{
  u32, ℕ, ◌+◌, ◌≡◌, ◌≢◌, refl, sym, ◌∙◌, subst, List, none, some, arith, ◌==◌, Option-cases,
  Bool-cases, inl, inr, ◌⊎◌,
}
use udping.Map.{find}
use udping.Map.Keys.{string_key, nat_key}
use udping.Packet.{Packet}
use udping.Session.{ServerSession}
use udping.Stats.{DoubleOps}
use udping.Manager.{
  Manager, ok, fault, store, source_key, record_packet, get_server_session, receive_ping,
  sweep_server_sessions, handle_alarm, init,
}
use udping.Packet.{decode, guid_string}
use udping.Manager.Socket.{
  Datagram, NameService, Clock, is_accepted, host_name, guid_of, read_next_packet,
}
use udping.Manager.Socket.Names.{host_name-state}
use udping.Manager.WellFormed.{IsWellFormed, init-IsWellFormed, hosts-IsWellFormed}
use udping.Manager.Swept.{IsSwept}
use udping.Manager.Expiry.{sweep_server_sessions-IsSwept}
use udping.Manager.Steps.{store-IsWellFormed}
use udping.Manager.Linking.{IsSourceLive, get_server_session-new}
use udping.Manager.Receive.{receive_ping-run, record_packet-facts, counted-IsWellFormed}
use udping.Manager.Dangling.{receive_ping-dangling, ok-injective}

module _ {D : Type 0} where
  pub sweep-IsWellFormed :
      (now : ℕ) (m m' : Manager D)
      → IsWellFormed m
      → sweep_server_sessions now m ≡ ok m'
      → IsWellFormed m'
  sweep-IsWellFormed now m m' w e =
      let (n, run, swept) = sweep_server_sessions-IsSwept now m w in
      subst IsWellFormed (ok-injective (sym run ∙ e)) swept.well_formed

  -- In a well-formed manager, with no packet since the last alarm the handler sweeps; otherwise it
  -- changes nothing but the counter. Either way it succeeds and leaves the counter at zero.
  pub handle_alarm_lem :
      (now : ℕ) (m : Manager D)
      → IsWellFormed m
      → ((m.interval_packets_received ≡ 0)
          × ((m' : Manager D) × (handle_alarm now m
                ≡ ok (record m' { interval_packets_received = 0 }))
              × IsSwept now m.session_map m m'))
        ⊎ ((m.interval_packets_received ≢ 0)
            × (handle_alarm now m ≡ ok (record m { interval_packets_received = 0 })))
  unfolding handle_alarm
  handle_alarm_lem now m w = elim (Bool-cases (m.interval_packets_received == 0)) [
    | inl idle ↦
        let (m', run, swept) = sweep_server_sessions-IsSwept now m w in
        inl (ground arith, (m', rw (idle, run) refl, swept))
    | inr busy ↦ inr (ground arith, rw busy refl)
  ]

  module _ (ops : DoubleOps D) (ph : Packet) (sec nsec : ℕ) (peer : List ℕ) (port : ℕ)
      (guid : List ℕ) (arrival now : ℕ) where
    recorded-IsWellFormed :
        (m found m' : Manager D) (a : ℕ) (s : ServerSession D)
        → IsWellFormed found
        → get_server_session ops peer port guid ph
            (record m { interval_packets_received = u32 (m.interval_packets_received + 1) })
          ≡ ok (a, found)
        → find a found.heap ≡ some s
        → receive_ping ops ph sec nsec peer port guid arrival now m ≡ ok m'
        → IsWellFormed m'
    recorded-IsWellFormed m found m' a s w e held run =
        let s' = record_packet ops sec nsec arrival ph s in
        let facts = record_packet-facts ops ph sec nsec peer port guid arrival now m s in
        sweep-IsWellFormed now (store a s' found) m'
          (store-IsWellFormed found a s s' w held facts.0)
          (sym (receive_ping-run ops ph sec nsec peer port guid arrival now m found a s e held)
            ∙ run)

    pub source_cases :
        (m : Manager D)
        → IsSourceLive m (source_key peer port)
          ⊎ ((a : ℕ) × (find (source_key peer port) m.source_map ≡ some a) × (find a m.heap ≡ none))
    source_cases m = elim (Option-cases (find (source_key peer port) m.source_map)) [
      | inl none_yet ↦ inl (λ a e. cc)
      | inr (a, e) ↦ elim (Option-cases (find a m.heap)) [
        | inl gone ↦ inr (a, e, gone)
        | inr (s, held) ↦ inl (λ b f. (s, cc))
      ]
    ]

    -- A packet that is received without a fault keeps the invariant.
    pub receive_ping-IsWellFormed :
        (m m' : Manager D)
        → IsWellFormed m
        → receive_ping ops ph sec nsec peer port guid arrival now m ≡ ok m'
        → IsWellFormed m'
    unfolding get_server_session
    receive_ping-IsWellFormed m m' w run =
        let counted = record m {
          interval_packets_received = u32 (m.interval_packets_received + 1);
        } in
        let w' = counted-IsWellFormed m (u32 (m.interval_packets_received + 1)) w in
        elim (Option-cases (find guid m.session_map)) [
          | inr (a, here) ↦
              let (_, (s, held, _)) = w.live guid a here in
              recorded-IsWellFormed m counted m' a s w' (rw (here, get_server_session) refl) held
                run
          | inl new ↦ elim (source_cases m) [
            | inl live ↦
                let (found, e, wf, held, _, _) =
                  get_server_session-new ops peer port guid ph counted w' new live in
                recorded-IsWellFormed m found m' m.next_address _ wf e held run
            | inr (a, source, gone) ↦
                let stuck =
                  receive_ping-dangling ops ph sec nsec peer port guid arrival now m a w new source
                    gone in
                cc
          ]
        ]

  -- One turn of the server's loop without a fault, or one alarm.
  pub data Step (ops : DoubleOps D) : Manager D → Manager D → Type 0 where
    packet :
        {m m' : Manager D} (names : NameService) (t : Clock) (d : Datagram)
        → read_next_packet ops names t d m ≡ ok m'
        → Step ops m m'
    alarm : {m m' : Manager D} (now : ℕ) → handle_alarm now m ≡ ok m' → Step ops m m'

  pub data Reach (ops : DoubleOps D) (m : Manager D) : Manager D → Type 0 where
    here : Reach ops m m
    next : {t u : Manager D} → Reach ops m t → Step ops t u → Reach ops m u

  -- In a well-formed manager an alarm does not fault.
  pub alarm-ok :
      (now : ℕ) (m : Manager D)
      → IsWellFormed m
      → (m' : Manager D) × (handle_alarm now m ≡ ok m') × (m'.keepalive ≡ m.keepalive)
  alarm-ok now m w = elim (handle_alarm_lem now m w) [
    | inl (idle, (n, run, swept)) ↦
        (record n { interval_packets_received = 0 }, run, swept.keepalive_kept)
    | inr (busy, run) ↦ (record m { interval_packets_received = 0 }, run, refl)
  ]

  pub alarm-IsWellFormed :
      (now : ℕ) (m m' : Manager D) → IsWellFormed m → handle_alarm now m ≡ ok m' → IsWellFormed m'
  alarm-IsWellFormed now m m' w e = elim (handle_alarm_lem now m w) [
    | inl (_, (n, run, swept)) ↦
        subst IsWellFormed (ok-injective (sym run ∙ e)) (counted-IsWellFormed n 0 swept.well_formed)
    | inr (_, run) ↦ subst IsWellFormed (ok-injective (sym run ∙ e)) (counted-IsWellFormed m 0 w)
  ]

  -- A datagram that is read without a fault keeps the invariant.
  pub read_next_packet-IsWellFormed :
      (ops : DoubleOps D) (names : NameService) (t : Clock) (d : Datagram) (m m' : Manager D)
      → IsWellFormed m
      → read_next_packet ops names t d m ≡ ok m'
      → IsWellFormed m'
  unfolding read_next_packet guid_of
  read_next_packet-IsWellFormed ops names t d m m' w run = elim (Bool-cases (is_accepted d)) [
    | inr bad ↦ let same : ok m ≡ ok m' = rw bad at run in subst IsWellFormed (ok-injective same) w
    | inl good ↦
        let (name, named) = host_name names d.address m in
        let named-IsWellFormed : IsWellFormed named =
          subst IsWellFormed (sym (host_name-state names d.address m))
            (hosts-IsWellFormed named.host_map m w) in
        elim (Option-cases (guid_string d.buf)) [
          | inl endless ↦
              let stuck : fault ≡ ok m' = rw (good, guid_of, endless) at run in absurd (cc)
          | inr (guid, e) ↦
              receive_ping-IsWellFormed ops (decode d.buf) t.sec t.nsec name d.port guid t.arrival
                t.now named m' named-IsWellFormed (rw (good, guid_of, e) at run)
        ]
  ]

  Step-IsWellFormed :
      (ops : DoubleOps D) {m m' : Manager D} → Step ops m m' → IsWellFormed m → IsWellFormed m'
  Step-IsWellFormed ops (packet {m} {m'} names t d e) w =
      read_next_packet-IsWellFormed ops names t d m m' w e
  Step-IsWellFormed ops (alarm {m} {m'} now e) w = alarm-IsWellFormed now m m' w e

  -- Whatever datagrams and alarms came since the server started, in any order, the invariant holds.
  pub Reach-IsWellFormed :
      (ops : DoubleOps D) (keepalive : ℕ) {m : Manager D}
      → Reach ops (init keepalive) m
      → IsWellFormed m
  Reach-IsWellFormed ops keepalive here = init-IsWellFormed keepalive
  Reach-IsWellFormed ops keepalive (next r s) =
      Step-IsWellFormed ops s (Reach-IsWellFormed ops keepalive r)
