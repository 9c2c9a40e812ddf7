-- ===== src/Manager/Serving.antt =====
-- The server's loop over `readNextPacket`, with alarms between its turns, as a run of events.
pub mod Faults
use udping.Base.{
  All, ℕ, ◌≡◌, ◌≢◌, refl, sym, ap, ◌∙◌, List, [], ◌∷◌, ◌++◌, Option, none, some, true, Bool-cases,
  inl, inr, if◌then◌else◌,
}
use udping.Map.Keys.{nat_key}
use udping.Packet.{decode, guid_string}
use udping.Stats.{DoubleOps}
use udping.Manager.{Manager, Outcome, ok, fault, ◌>>=◌, receive_ping, handle_alarm}
use udping.Manager.Socket.{
  Datagram, NameService, Clock, is_accepted, host_name, guid_of, read_next_packet,
}
use udping.Manager.Socket.Names.{host_name-state}
use udping.Manager.Events.{Received, Event, ping, alarm, handle, run_events, run_events-cons}

-- What the server's loop meets: what recvfrom leaves, with the clocks, or a signal.
pub data Input : Type 0 where
  datagram : Clock → Datagram → Input
  signal : ℕ → Input

module _ {D : Type 0} (ops : DoubleOps D) (names : NameService) where
  unfoldable pub serve : Input → Manager D → Outcome (Manager D)
  unfolding read_next_packet handle_alarm
  serve (datagram t d) m = read_next_packet ops names t d m
  serve (signal now) m = handle_alarm now m

  -- `while (1)` of the server, for some inputs.
  unfoldable pub server_loop : List Input → Manager D → Outcome (Manager D)
  unfolding serve
  server_loop [] m = ok m
  server_loop (i ∷ is) m = do next ← serve i m; server_loop is next

  -- An accepted datagram, as the session manager receives it.
  abbrev pub received_of : Clock → Datagram → List ℕ → Manager D → Received
  received_of t d guid m =
      let (name, named) = host_name names d.address m in
      record {
        ph = decode d.buf;
        sec = t.sec;
        nsec = t.nsec;
        peer = name;
        port = d.port;
        guid = guid;
        arrival = t.arrival;
        now = t.now;
        hosts = named.host_map;
      }

  abbrev ping_of : Clock → Datagram → Manager D → Option (List ℕ) → List Event
  ping_of t d m none = []
  ping_of t d m (some guid) = ping (received_of t d guid m) ∷ []

  -- The events of one input; a rejected datagram is none.
  unfoldable pub events_of : Input → Manager D → List Event
  events_of (signal now) m = alarm now ∷ []
  events_of (datagram t d) m = if is_accepted d then ping_of t d m (guid_string d.buf) else []

  -- The events of a run.
  unfoldable pub loop_events : List Input → Manager D → List Event
  unfolding events_of serve
  loop_events [] m = []
  loop_events (i ∷ is) m = elim (serve i m) [
    | fault ↦ events_of i m
    | ok next ↦ events_of i m ++ loop_events is next
  ]

  run_events-append :
      (es fs : List Event) (m n : Manager D)
      → run_events ops es m ≡ ok n
      → run_events ops (es ++ fs) m ≡ run_events ops fs n
  unfolding run_events
  run_events-append [] fs m n run = ap (λ (o : Outcome (Manager D)). o >>= run_events ops fs) run
  run_events-append (e ∷ es) fs m n run =
      let (k, first, rest) = run_events-cons ops e es m n run in
      rw (run_events, first) (run_events-append es fs k n rest)

  pub server_loop-cons :
      (i : Input) (is : List Input) (m m' : Manager D)
      → server_loop (i ∷ is) m ≡ ok m'
      → (n : Manager D) × (serve i m ≡ ok n) × (server_loop is n ≡ ok m')
  unfolding server_loop
  server_loop-cons i is m m' run = by_outcome (serve i m) refl
    where
      by_outcome :
          (o : Outcome (Manager D))
          → serve i m ≡ o
          → (n : Manager D) × (serve i m ≡ ok n) × (server_loop is n ≡ ok m')
      by_outcome (ok n) h = (n, h, rw h at run)
      by_outcome fault h = let stuck : fault ≡ ok m' = rw h at run in absurd (cc)
