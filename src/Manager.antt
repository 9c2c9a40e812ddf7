-- ===== src/Manager.antt =====
-- `ServerSessionManager` of src/serversession.cc. Sessions are objects on a heap, named by their
-- addresses, so that a pointer to a deleted session can be told from a live one.
pub mod Socket
pub mod WellFormed
pub mod Sweep
pub mod Swept
pub mod Expiry
pub mod Steps
pub mod Linking
pub mod Receive
pub mod Dangling
pub mod Reachable
pub mod Events
pub mod Serving
pub mod Tracking
pub mod Awake
pub mod Recording
pub mod Stream
pub mod Closing
pub mod Reporting
pub mod Counters
pub mod Beginning
pub mod Sources
pub mod Ledger
pub mod Faultless
pub mod Measured
pub mod Measure
pub mod Interrupt
use udping.Base.{
  u32, ℕ, ◌+◌, ◌-◌, ◌≡◌, Bool, true, false, List, [], ◌∷◌, ◌++◌, Option, none, some, ltb, ◌==◌,
  if◌then◌else◌, sub32,
}
use udping.Map.{Map, find, insert, erase}
use udping.Map.Keys.{string_key, nat_key}
use udping.Packet.{Packet}
use udping.Session.{ServerSession, new_session, record_seq, with_target}
use udping.Stats.{DoubleOps, add_data_point}
use udping.Text.{decimal}

-- `fault` is undefined behaviour: a read through a pointer to a deleted object, or past a buffer.
pub data Outcome (A : Type 0) : Type 0 where
  ok : A → Outcome A
  fault : Outcome A

infixl 5 ◌>>=◌
abbrev pub ◌>>=◌ : {A B : Type 0} → Outcome A → (A → Outcome B) → Outcome B
ok a >>= f = f a
fault >>= f = fault

-- A call of the writer: the session with its target count set, and the time of the call.
pub record Report (D : Type 0) : Type 0 where
  pub session : ServerSession D
  pub time : ℕ

-- The fields of the class, the heap with the next free address, and the calls of the writer so
-- far. Address 0 is the null pointer.
pub record Manager (D : Type 0) : Type 0 where
  pub session_map : Map (List ℕ) ℕ
  pub source_map : Map (List ℕ) ℕ
  pub host_map : Map ℕ (List ℕ)
  pub interval_packets_received : ℕ
  pub keepalive : ℕ
  pub heap : Map ℕ (ServerSession D)
  pub next_address : ℕ
  pub reports : List (Report D)

-- `source << peer << ":" << port`.
unfoldable pub source_key : List ℕ → ℕ → List ℕ
unfolding decimal
source_key peer port = peer ++ (58 ∷ decimal port)

module _ {D : Type 0} where
  unfoldable pub init : ℕ → Manager D
  init keepalive = record {
    session_map = [];
    source_map = [];
    host_map = [];
    interval_packets_received = 0;
    keepalive = keepalive;
    heap = [];
    next_address = 1;
    reports = [];
  }

  -- A read through a pointer.
  unfoldable pub deref : Manager D → ℕ → Outcome (ServerSession D)
  deref m address = elim (find address m.heap) [ none ↦ fault | some s ↦ ok s ]

  unfoldable pub store : ℕ → ServerSession D → Manager D → Manager D
  store address s m = record m { heap = insert address s m.heap }

  -- Only a session of the same run of the client gets a successor.
  unfoldable pub set_successor :
      ℕ → ServerSession D → List ℕ → ServerSession D → Manager D → Manager D
  unfolding store
  set_successor address predecessor guid ds m =
      if predecessor.client_start_time == ds.client_start_time
      then store address (record predecessor { successor = guid }) m
      else m

  -- The link from the source's last session to the new one; a missing entry is a null pointer.
  unfoldable pub link_predecessor :
      Option ℕ → List ℕ → ServerSession D → Manager D → Outcome (Manager D)
  link_predecessor none guid ds m = ok m
  link_predecessor (some address) guid ds m =
      if address == 0
      then ok m
      else (do predecessor ← deref m address; ok (set_successor address predecessor guid ds m))

  -- The address of the packet's session, which is made if its guid is new.
  unfoldable pub get_server_session :
      DoubleOps D → List ℕ → ℕ → List ℕ → Packet → Manager D → Outcome (ℕ × Manager D)
  get_server_session ops peer port guid p m = elim (find guid m.session_map) [
    | some address ↦ ok (address, m)
    | none ↦ (do
      let source = source_key peer port
      let ds = new_session ops guid peer port p
      let address = m.next_address
      let allocated = record (store address ds m) { next_address = address + 1 }
      linked ← link_predecessor (find source m.source_map) guid ds allocated
      ok (
        address,
        record linked {
          session_map = insert guid address linked.session_map;
          source_map = insert source address linked.source_map;
        },
      ))
  ]

  -- The session as the sweep reports it: where its successor is known, up to the number before
  -- the successor's first.
  unfoldable pub close_gap : ServerSession D → Manager D → Outcome (ServerSession D)
  unfolding deref record_seq
  close_gap ds m = elim (find ds.successor m.session_map) [
    | none ↦ ok ds
    | some address ↦
        if address == 0
        then ok ds
        else (do successor ← deref m address; ok (record_seq ds (sub32 successor.min_seq 1)))
  ]

  -- One expired session: its statistics are written, and it is deleted and taken off the map.
  unfoldable pub expire : ℕ → List ℕ → ℕ → ServerSession D → Manager D → Outcome (Manager D)
  unfolding close_gap with_target
  expire now guid address ds m = do
    closed ← close_gap ds m
    ok (record m {
      reports = m.reports ++ (record { session = with_target closed; time = now } ∷ []);
      heap = erase address m.heap;
      session_map = erase guid m.session_map;
    })

  abbrev pub is_expired : ℕ → ℕ → ServerSession D → Bool
  is_expired now keepalive ds = ltb (ds.last_arrival + keepalive) now

  -- The loop over the map's entries; only the entry at hand is ever erased.
  unfoldable pub sweep_entries : ℕ → Map (List ℕ) ℕ → Manager D → Outcome (Manager D)
  unfolding deref expire
  sweep_entries now [] m = ok m
  sweep_entries now ((guid, address) ∷ rest) m = if address == 0 then ok m else (do
    ds ← deref m address
    next ← (if is_expired now m.keepalive ds then expire now guid address ds m else ok m)
    sweep_entries now rest next)

  unfoldable pub sweep_server_sessions : ℕ → Manager D → Outcome (Manager D)
  unfolding sweep_entries
  sweep_server_sessions now m = sweep_entries now m.session_map m

  -- The difference in milliseconds between the times of receipt and sending.
  unfoldable pub elapsed_ms : DoubleOps D → ℕ → ℕ → Packet → D
  elapsed_ms ops sec nsec ph =
      let e1 = ops.sub (ops.of_int nsec) (ops.of_int ph.sent_nsec) in
      let e2 = ops.div e1 (ops.of_int 1000000000) in
      let e3 = ops.sub (ops.add e2 (ops.of_int sec)) (ops.of_int ph.sent_sec) in
      ops.mul e3 (ops.of_int 1000)

  -- The session's update for one packet.
  unfoldable pub record_packet :
      DoubleOps D → ℕ → ℕ → ℕ → Packet → ServerSession D → ServerSession D
  unfolding record_seq add_data_point elapsed_ms
  record_packet ops sec nsec arrival ph ds =
      let seen = record_seq (record ds { last_arrival = arrival }) ph.seq_num in
      record seen { stats = (add_data_point ops seen.stats (elapsed_ms ops sec nsec ph)).0 }

  -- `sec` and `nsec` are the time of receipt, `arrival` and `now` the two readings of `time(0)`.
  unfoldable pub receive_ping :
      DoubleOps D → Packet → ℕ → ℕ → List ℕ → ℕ → List ℕ → ℕ → ℕ → Manager D → Outcome (Manager D)
  receive_ping ops ph sec nsec peer port guid arrival now m = do
    let counted = record m { interval_packets_received = u32 (m.interval_packets_received + 1) }
    (address, found) ← get_server_session ops peer port guid ph counted
    ds ← deref found address
    sweep_server_sessions now (store address (record_packet ops sec nsec arrival ph ds) found)

  -- The alarm handler sweeps only if no packet came since the last alarm.
  unfoldable pub handle_alarm : ℕ → Manager D → Outcome (Manager D)
  unfolding sweep_server_sessions
  handle_alarm now m = do
    swept ← (if m.interval_packets_received == 0 then sweep_server_sessions now m else ok m)
    ok (record swept { interval_packets_received = 0 })
