-- ===== src/Manager/Events.antt =====
-- The server's loop over its events: a packet that `readNextPacket` accepts, or an alarm.
use udping.Base.{◌≡◌, refl, ℕ, List, [], ◌∷◌, if◌then◌else◌}
use udping.Map.{Map}
use udping.Map.Keys.{string_key}
use udping.Packet.{Packet}
use udping.Session.{ServerSession}
use udping.Stats.{DoubleOps}
use udping.Manager.{Manager, Outcome, ok, fault, ◌>>=◌, receive_ping, handle_alarm, record_packet}

-- A packet with its time of receipt, its sender, its guid, the two readings of `time(0)`, and the
-- names of hosts that are known when it is recorded.
pub record Received : Type 0 where
  pub ph : Packet
  pub sec : ℕ
  pub nsec : ℕ
  pub peer : List ℕ
  pub port : ℕ
  pub guid : List ℕ
  pub arrival : ℕ
  pub now : ℕ
  pub hosts : Map ℕ (List ℕ)

pub data Event : Type 0 where
  ping : Received → Event
  alarm : ℕ → Event

module _ {D : Type 0} (ops : DoubleOps D) where
  abbrev pub receive : Received → Manager D → Outcome (Manager D)
  receive r = receive_ping ops r.ph r.sec r.nsec r.peer r.port r.guid r.arrival r.now

  unfoldable pub handle : Event → Manager D → Outcome (Manager D)
  handle (ping r) m = receive r (record m { host_map = r.hosts })
  handle (alarm now) m = handle_alarm now m

  unfoldable pub run_events : List Event → Manager D → Outcome (Manager D)
  unfolding handle
  run_events [] m = ok m
  run_events (e ∷ es) m = do next ← handle e m; run_events es next

  -- A run that succeeds, by its first event.
  pub run_events-cons :
      (e : Event) (es : List Event) (m m' : Manager D)
      → run_events (e ∷ es) m ≡ ok m'
      → (n : Manager D) × (handle e m ≡ ok n) × (run_events es n ≡ ok m')
  unfolding run_events
  run_events-cons e es m m' run = by_outcome (handle e m) refl
    where
      by_outcome :
          (o : Outcome (Manager D))
          → handle e m ≡ o
          → (n : Manager D) × (handle e m ≡ ok n) × (run_events es n ≡ ok m')
      by_outcome (ok n) h = (n, h, rw h at run)
      by_outcome fault h = let stuck : fault ≡ ok m' = rw h at run in absurd (cc)

  -- A session with some packets recorded, one after the other.
  unfoldable pub record_packets : ServerSession D → List Received → ServerSession D
  unfolding record_packet
  record_packets s [] = s
  record_packets s (r ∷ rs) = record_packets (record_packet ops r.sec r.nsec r.arrival r.ph s) rs

-- The packets of one guid.
unfoldable pub packets_of : List ℕ → List Event → List Received
packets_of guid [] = []
packets_of guid (alarm now ∷ es) = packets_of guid es
packets_of guid (ping r ∷ es) =
    let rest = packets_of guid es in if string_key.same r.guid guid then r ∷ rest else rest
