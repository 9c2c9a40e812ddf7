-- ===== src/Manager/Stream.antt =====
-- The stream of one session among all events of the server.
use mathlib.Core.Path.{subst₂}
use udping.Manager.Dangling.{ok-injective}
use udping.Base.{
  ℕ, ◌+◌, ◌≤◌, ◌≡◌, ◌≢◌, refl, sym, ◌∙◌, subst, List, [], ◌∷◌, Bool-cases, inl, inr, if◌then◌else◌,
}
use udping.Map.Keys.{string_key}
use udping.Session.{ServerSession}
use udping.Stats.{DoubleOps}
use udping.Manager.{Manager, ok, record_packet}
use udping.Manager.WellFormed.{IsWellFormed, hosts-IsWellFormed}
use udping.Manager.Tracking.{IsHeld}
use udping.Manager.Awake.{IsTracked, alarm-IsTracked, hosts-IsHeld, hosts-IsTracked}
use udping.Manager.Recording.{receive_own, receive_other}
use udping.Manager.Events.{
  Received, Event, ping, alarm, handle, run_events, run_events-cons, packets_of, record_packets,
}

-- The time of the last packet of a guid, if it was at `last` before.
abbrev pub seen : List ℕ → ℕ → Received → ℕ
seen guid last r = if string_key.same r.guid guid then r.arrival else last

-- At no event is the last packet of the guid more than the keepalive time ago.
abbrev pub IsAwake : ℕ → List ℕ → ℕ → List Event → Type 0
IsAwake keepalive guid last [] = Unit
IsAwake keepalive guid last (alarm now ∷ es) =
    (now ≤ last + keepalive) × IsAwake keepalive guid last es
IsAwake keepalive guid last (ping r ∷ es) =
    (r.now ≤ seen guid last r + keepalive) × IsAwake keepalive guid (seen guid last r) es

module _ {D : Type 0} (ops : DoubleOps D) where
  -- What an event does to the session.
  abbrev after : List ℕ → ServerSession D → Event → ServerSession D
  after guid s (alarm now) = s
  after guid s (ping r) =
      if string_key.same r.guid guid then record_packet ops r.sec r.nsec r.arrival r.ph s else s

  abbrev IsTimely : ℕ → List ℕ → ℕ → Event → Type 0
  IsTimely keepalive guid last (alarm now) = now ≤ last + keepalive
  IsTimely keepalive guid last (ping r) = r.now ≤ seen guid last r + keepalive

  handle-IsTracked :
      (guid : List ℕ) (a : ℕ) (s : ServerSession D) (e : Event) (m m' : Manager D)
      → IsWellFormed m
      → IsHeld guid a s m
      → IsTimely m.keepalive guid s.last_arrival e
      → handle ops e m ≡ ok m'
      → IsTracked guid a (after guid s e) m m'
  unfolding handle
  handle-IsTracked guid a s (alarm now) m m' w h recent run =
      alarm-IsTracked guid a now s m m' w h recent run
  handle-IsTracked guid a s (ping r) m m' w h recent run =
      let w' = hosts-IsWellFormed r.hosts m w in
      let h' = hosts-IsHeld r.hosts guid a s m h in
      elim (Bool-cases (string_key.same r.guid guid)) [
        | inl hit ↦
            let own : r.guid ≡ guid = (string_key.same_iff r.guid guid).0 hit in
            let recent' : r.now ≤ r.arrival + m.keepalive = rw hit at recent in
            rw hit (
              subst (λ g. IsTracked g a (record_packet ops r.sec r.nsec r.arrival r.ph s) m m') own
                (hosts-IsTracked r.hosts r.guid a (record_packet ops r.sec r.nsec r.arrival r.ph s)
                  m m'
                  (receive_own ops r a s (record m { host_map = r.hosts }) m' w'
                    (subst (λ g. IsHeld g a s (record m { host_map = r.hosts })) (sym own) h')
                    recent' run)))
        | inr miss ↦
            let other : r.guid ≢ guid =
              λ q. let hit = (string_key.same_iff r.guid guid).1 q in cc in
            let recent' : r.now ≤ s.last_arrival + m.keepalive = rw miss at recent in
            rw miss (
              hosts-IsTracked r.hosts guid a s m m' (
                receive_other ops r guid a s (record m { host_map = r.hosts }) m' w' other h'
                  recent' run))
      ]

  record_packets-after :
      (guid : List ℕ) (s : ServerSession D) (e : Event) (es : List Event)
      → record_packets ops s (packets_of guid (e ∷ es))
        ≡ record_packets ops (after guid s e) (packets_of guid es)
  unfolding record_packets packets_of
  record_packets-after guid s (alarm now) es = refl
  record_packets-after guid s (ping r) es = elim (Bool-cases (string_key.same r.guid guid)) [
    | inl hit ↦ rw hit refl
    | inr miss ↦ rw miss refl
  ]

  -- The time of the last packet after an event.
  abbrev last_after : List ℕ → ℕ → Event → ℕ
  last_after guid last (alarm now) = last
  last_after guid last (ping r) = seen guid last r

  after-last_arrival :
      (guid : List ℕ) (s : ServerSession D) (e : Event)
      → (after guid s e).last_arrival ≡ last_after guid s.last_arrival e
  unfolding record_packet
  after-last_arrival guid s (alarm now) = refl
  after-last_arrival guid s (ping r) = elim (Bool-cases (string_key.same r.guid guid)) [
    | inl hit ↦ rw hit refl
    | inr miss ↦ rw miss refl
  ]

  IsAwake-cons :
      (keepalive last : ℕ) (guid : List ℕ) (e : Event) (es : List Event)
      → IsAwake keepalive guid last (e ∷ es)
      → IsTimely keepalive guid last e × IsAwake keepalive guid (last_after guid last e) es
  IsAwake-cons keepalive last guid (alarm now) es h = h
  IsAwake-cons keepalive last guid (ping r) es h = h

  -- Whatever packets and alarms come, if the server does not fault and the session is never silent
  -- for longer than the keepalive time, it has recorded exactly the packets of its guid, in their
  -- order of arrival, and only its successor can have changed besides.
  pub run_events-IsTracked :
      (guid : List ℕ) (a : ℕ) (s : ServerSession D) (es : List Event) (m m' : Manager D)
      → IsWellFormed m
      → IsHeld guid a s m
      → IsAwake m.keepalive guid s.last_arrival es
      → run_events ops es m ≡ ok m'
      → IsTracked guid a (record_packets ops s (packets_of guid es)) m m'
  unfolding run_events record_packets packets_of
  run_events-IsTracked guid a s [] m m' w h awake run =
      subst (IsTracked guid a s m) (ok-injective run)
        (record { well_formed = w; held = h; same_keepalive = refl })
  run_events-IsTracked guid a s (e ∷ es) m m' w h awake run =
      let (timely, later) = IsAwake-cons m.keepalive s.last_arrival guid e es awake in
      let (n, first, rest) = run_events-cons ops e es m m' run in
      let t = handle-IsTracked guid a s e m n w h timely first in
      let awake' : IsAwake n.keepalive guid (after guid s e).last_arrival es =
        subst₂ (λ k last. IsAwake k guid last es) (sym t.same_keepalive)
          (sym (after-last_arrival guid s e)) later in
      let u =
        run_events-IsTracked guid a (after guid s e) es n m' t.well_formed t.held awake' rest in
      subst (λ x. IsTracked guid a x m m') (sym (record_packets-after guid s e es))
        (record {
          well_formed = u.well_formed;
          held = u.held;
          same_keepalive = u.same_keepalive ∙ t.same_keepalive;
        })
