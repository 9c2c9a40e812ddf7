-- ===== src/Manager/Serving/Faults.antt =====
-- The server's loop as the run of its events, faults included.
use udping.Base.{
  All, ℕ, ◌≡◌, ◌≢◌, refl, sym, ap, ◌∙◌, List, [], ◌∷◌, Option, none, some, true, Bool-cases, inl,
  inr, if◌then◌else◌,
}
use udping.Map.Keys.{nat_key}
use udping.Packet.{decode, guid_string}
use udping.Stats.{DoubleOps}
use udping.Manager.{Manager, Outcome, ok, fault, ◌>>=◌, receive_ping}
use udping.Manager.Socket.{
  Datagram, NameService, Clock, is_accepted, host_name, guid_of, read_next_packet,
}
use udping.Manager.Socket.Names.{host_name-state}
use udping.Manager.Events.{Event, ping, alarm, handle, run_events}
use udping.Manager.Serving.{
  Input, datagram, signal, serve, server_loop, received_of, ping_of, events_of, loop_events,
  run_events-append,
}

-- The guid of an accepted datagram ends within what was read.
abbrev pub HasGuid : Input → Type 0
HasGuid (signal now) = Unit
HasGuid (datagram t d) = is_accepted d ≡ true → guid_string d.buf ≢ none

module _ {D : Type 0} (ops : DoubleOps D) (names : NameService) where
  one_event-eq : (e : Event) (m : Manager D) → run_events ops (e ∷ []) m ≡ handle ops e m
  unfolding run_events
  one_event-eq e m = by_outcome (handle ops e m)
    where
      by_outcome : (o : Outcome (Manager D)) → (do next ← o; run_events ops [] next) ≡ o
      by_outcome (ok n) = refl
      by_outcome fault = refl

  ping-eq :
      (t : Clock) (d : Datagram) (m : Manager D) (o : Option (List ℕ))
      → guid_string d.buf ≡ o
      → o ≢ none
      → is_accepted d ≡ true
      → read_next_packet ops names t d m ≡ run_events ops (ping_of ops names t d m o) m
  unfolding read_next_packet guid_of handle
  ping-eq t d m none e ends good = absurd (ends refl)
  ping-eq t d m (some guid) e ends good =
      let receive : Manager D → Outcome (Manager D) = λ x.
        receive_ping ops (decode d.buf) t.sec t.nsec (host_name names d.address m).0 d.port guid
          t.arrival t.now x in
      let read : read_next_packet ops names t d m ≡ receive (host_name names d.address m).1 =
        rw (read_next_packet, good, guid_of, e) refl in
      read
      ∙ ap receive (host_name-state names d.address m)
      ∙ sym (one_event-eq (ping (received_of ops names t d guid m)) m)

  serve-eq :
      (i : Input) (m : Manager D)
      → HasGuid i
      → serve ops names i m ≡ run_events ops (events_of ops names i m) m
  unfolding serve events_of run_events handle
  serve-eq (signal now) m h = sym (one_event-eq (alarm now) m)
  serve-eq (datagram t d) m h = elim (Bool-cases (is_accepted d)) [
    | inl good ↦
        ping-eq t d m (guid_string d.buf) refl (h good) good
        ∙ ap (λ b. run_events ops (if b then ping_of ops names t d m (guid_string d.buf) else []) m)
            (sym good)
    | inr bad ↦ rw (read_next_packet, bad) refl
  ]

  -- If the guid of each accepted datagram ends within what was read, the server's loop is the run of
  -- its events, in its faults as well.
  pub server_loop-eq :
      (is : List Input) (m : Manager D)
      → All HasGuid is
      → server_loop ops names is m ≡ run_events ops (loop_events ops names is m) m
  unfolding server_loop loop_events run_events
  server_loop-eq [] m h = refl
  server_loop-eq (i ∷ is) m (here, later) =
      by_outcome (serve ops names i m) refl (server_loop-eq is)
    where
      by_outcome :
          (o : Outcome (Manager D))
          → serve ops names i m ≡ o
          → ((n : Manager D)
              → All HasGuid is
              → server_loop ops names is n ≡ run_events ops (loop_events ops names is n) n)
          → server_loop ops names (i ∷ is) m ≡ run_events ops (loop_events ops names (i ∷ is) m) m
      by_outcome (ok n) e rest =
          rw (server_loop, loop_events, e)
            (rest n later
              ∙ sym (
                  run_events-append ops names (events_of ops names i m) (loop_events ops names is n)
                    m n (sym (serve-eq i m here) ∙ e)))
      by_outcome fault e rest = rw (server_loop, loop_events, e) (sym e ∙ serve-eq i m here)
