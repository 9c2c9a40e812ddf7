-- ===== src/Manager/Sources.antt =====
-- What a packet and an alarm do to the two maps of the manager.
use udping.Base.{
  u32, ℕ, ◌+◌, ◌≡◌, ◌≢◌, refl, sym, ap, ◌∙◌, subst, List, [], ◌∷◌, none, some, All, Bool-cases, inl,
  inr,
}
use udping.Map.{Map, find, insert}
use udping.Map.Keys.{string_key, nat_key}
use udping.Map.Laws.{find-insert_ne}
use udping.Session.{ServerSession, new_session}
use udping.Stats.{DoubleOps}
use udping.Manager.{
  Manager, ok, store, source_key, get_server_session, record_packet, sweep_server_sessions,
  handle_alarm,
}
use udping.Manager.WellFormed.{IsWellFormed}
use udping.Manager.Swept.{IsSwept}
use udping.Manager.Expiry.{sweep_server_sessions-IsSwept}
use udping.Manager.Steps.{
  store-IsWellFormed, allocated_state, allocated_state-IsWellFormed, registered_state,
}
use udping.Manager.Linking.{
  IsSourceLive, link_predecessor-ok, source_apart, get_server_session-new, get_server_session-run,
}
use udping.Manager.Receive.{receive_ping-run, record_packet-facts, counted-IsWellFormed}
use udping.Manager.Reachable.{handle_alarm_lem}
use udping.Manager.Dangling.{ok-injective}
use udping.Manager.Events.{Received, receive}
use udping.Manager.Recording.{counted}

-- A key that is not found is that of no entry.
find-none-All :
    {V : Type 0} (g : List ℕ) (m : Map (List ℕ) V) → find g m ≡ none → All (λ e. e.0 ≢ g) m
unfolding find
find-none-All g [] h = tt
find-none-All g ((i, v) ∷ m) h = elim (Bool-cases (string_key.same i g)) [
  | inl hit ↦ let stuck : some v ≡ none = rw hit at h in absurd (cc)
  | inr miss ↦
      let rest : find g m ≡ none = rw miss at h in
      (λ q. let hit = (string_key.same_iff i g).1 q in cc, find-none-All g m rest)
]

module _ {D : Type 0} where
  -- A step after which no guid is known that was not, and the sources lead where they led.
  pub record IsKept (m m' : Manager D) : Type 0 where
    pub unknown : (g : List ℕ) → find g m.session_map ≡ none → find g m'.session_map ≡ none
    pub sources : m'.source_map ≡ m.source_map

  swept-IsKept : (now : ℕ) (m m' : Manager D) → IsSwept now m.session_map m m' → IsKept m m'
  swept-IsKept now m m' swept = record {
    unknown = λ g e. swept.others g (find-none-All g m.session_map e) ∙ e;
    sources = swept.sources_kept;
  }

  sweep-IsKept :
      (now : ℕ) (m m' : Manager D)
      → IsWellFormed m
      → sweep_server_sessions now m ≡ ok m'
      → IsKept m m'
  sweep-IsKept now m m' w e =
      let (n, run, swept) = sweep_server_sessions-IsSwept now m w in
      subst (IsKept m) (ok-injective (sym run ∙ e)) (swept-IsKept now m n swept)

  pub alarm-IsKept :
      (now : ℕ) (m m' : Manager D) → IsWellFormed m → handle_alarm now m ≡ ok m' → IsKept m m'
  alarm-IsKept now m m' w e = elim (handle_alarm_lem now m w) [
    | inl (idle, (n, run, swept)) ↦
        let v = swept-IsKept now m n swept in
        subst (IsKept m) (ok-injective (sym run ∙ e))
          (record { unknown = v.unknown; sources = v.sources })
    | inr (busy, run) ↦
        subst (IsKept m) (ok-injective (sym run ∙ e))
          (record { unknown = λ g q. q; sources = refl })
  ]

module _ {D : Type 0} (ops : DoubleOps D) (r : Received) where
  received-IsKept :
      (a : ℕ) (s : ServerSession D) (m found m' : Manager D)
      → IsWellFormed found
      → get_server_session ops r.peer r.port r.guid r.ph (counted ops r m) ≡ ok (a, found)
      → find a found.heap ≡ some s
      → receive ops r m ≡ ok m'
      → IsKept found m'
  unfolding store
  received-IsKept a s m found m' w e held run =
      let recorded = record_packet ops r.sec r.nsec r.arrival r.ph s in
      let facts =
        record_packet-facts ops r.ph r.sec r.nsec r.peer r.port r.guid r.arrival r.now m s in
      let swept : sweep_server_sessions r.now (store a recorded found) ≡ ok m' =
        sym (
          receive_ping-run ops r.ph r.sec r.nsec r.peer r.port r.guid r.arrival r.now m found a s e
            held)
        ∙ run in
      let v =
        sweep-IsKept r.now (store a recorded found) m'
          (store-IsWellFormed found a s recorded w held facts.0) swept in
      record { unknown = v.unknown; sources = v.sources }

  -- A packet of a known session.
  pub known-IsKept :
      (a : ℕ) (s : ServerSession D) (m m' : Manager D)
      → IsWellFormed m
      → find r.guid m.session_map ≡ some a
      → find a m.heap ≡ some s
      → receive ops r m ≡ ok m'
      → IsKept m m'
  unfolding get_server_session
  known-IsKept a s m m' w known held run =
      let v =
        received-IsKept a s m (counted ops r m) m'
          (counted-IsWellFormed m (u32 (m.interval_packets_received + 1)) w)
          (rw (known, get_server_session) refl) held run in
      record { unknown = v.unknown; sources = v.sources }

  -- A packet with a new guid: its source leads to its session, and nothing else is new.
  pub record IsAdded (m m' : Manager D) : Type 0 where
    pub unknown :
        (g : List ℕ) → r.guid ≢ g → find g m.session_map ≡ none → find g m'.session_map ≡ none
    pub sources : m'.source_map ≡ insert (source_key r.peer r.port) m.next_address m.source_map

  pub new-IsAdded :
      (m m' : Manager D)
      → IsWellFormed m
      → find r.guid m.session_map ≡ none
      → IsSourceLive m (source_key r.peer r.port)
      → receive ops r m ≡ ok m'
      → IsAdded m m'
  unfolding allocated_state store
  new-IsAdded m m' w new live run =
      let m0 = counted ops r m in
      let w' = counted-IsWellFormed m (u32 (m.interval_packets_received + 1)) w in
      let ds = new_session ops r.guid r.peer r.port r.ph in
      let source = source_key r.peer r.port in
      let fresh = allocated_state ds m0 in
      let (linked, run', l) =
        link_predecessor-ok m.next_address (find source m.source_map) r.guid ds fresh
          (allocated_state-IsWellFormed ds m0 w') (λ c q. source_apart m0 source ds c w' live q) in
      let e0 = get_server_session-run ops r.peer r.port r.guid r.ph m0 linked new run' in
      let (found, e, wf, held, here, _) =
        get_server_session-new ops r.peer r.port r.guid r.ph m0 w' new live in
      let same : found ≡ registered_state r.guid source m.next_address linked =
        ap (λ (x : ℕ × Manager D). x.1) (ok-injective (sym e ∙ e0)) in
      let v = received-IsKept m.next_address ds m found m' wf e held run in
      record {
        unknown = λ g ne q. v.unknown g (
            ap (λ (x : Manager D). find g x.session_map) same
            ∙ find-insert_ne r.guid g m.next_address linked.session_map ne
            ∙ ap (find g) l.same_sessions
            ∙ q);
        sources =
            v.sources
            ∙ ap (λ (x : Manager D). x.source_map) same
            ∙ ap (insert source m.next_address) l.same_sources;
      }
