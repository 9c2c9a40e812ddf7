-- ===== src/Manager/Interrupt/Twice.antt =====
-- Two alarms inside `receivePing`.
use udping.Base.{
  u32, All, All-zip, inl, inr, Bool-cases, ◌⊎◌, ℕ, ◌+◌, ◌<◌, ◌≡◌, ◌≢◌, refl, ap, ◌∙◌, List, [], ◌∷◌,
  none, some, true, arith,
}
use udping.Map.{find}
use udping.Map.Keys.{string_key, nat_key}
use udping.Manager.Reachable.{handle_alarm_lem}
use udping.Map.Laws.{sorted-entries, All-find}
use udping.Session.{ServerSession}
use udping.Stats.{DoubleOps}
use udping.Manager.{
  Manager, Outcome, ok, fault, ◌>>=◌, get_server_session, handle_alarm, is_expired,
}
use udping.Manager.WellFormed.{IsWellFormed, deref-fault}
use udping.Manager.Receive.{counted-IsWellFormed}
use udping.Manager.Swept.{expired_at, is_stale}
use udping.Manager.Expiry.{sweep_server_sessions-IsSwept}
use udping.Manager.Events.{Received}
use udping.Manager.Interrupt.{
  Action, Alarms, with_alarms, run_actions, later_updates, update, receive_ping_alarmed,
}
use udping.Manager.Interrupt.Commute.{set_count}

module _ {D : Type 0} where
  -- No entry leads to an address that is gone.
  entries_elsewhere :
      (a : ℕ) (m : Manager D)
      → IsWellFormed m
      → find a m.heap ≡ none
      → All (λ e. e.1 ≢ a) m.session_map
  entries_elsewhere a m w gone =
      let all = sorted-entries m.session_map w.sorted in
      All-zip
        (λ e found again q.
          let (_, (s, held, _)) = w.live e.0 e.1 found in
          let lost : find e.1 m.heap ≡ none = ap (λ x. find x m.heap) q ∙ gone in absurd (cc))
        m.session_map all all

  -- The session at an address is deleted, or as it was.
  abbrev IsDeletedOrSame : List ℕ → ℕ → ServerSession D → Manager D → Type 0
  IsDeletedOrSame guid a s m =
      (find a m.heap ≡ none) ⊎ ((find guid m.session_map ≡ some a) × (find a m.heap ≡ some s))

  first_alarm :
      (t : ℕ) (guid : List ℕ) (a : ℕ) (s : ServerSession D) (m : Manager D)
      → IsWellFormed m
      → find guid m.session_map ≡ some a
      → find a m.heap ≡ some s
      → (n : Manager D) × (handle_alarm t m ≡ ok (set_count 0 n))
        × IsWellFormed n
        × (n.keepalive ≡ m.keepalive)
        × IsDeletedOrSame guid a s n
  first_alarm t guid a s m w entry held = elim (handle_alarm_lem t m w) [
    | inr (busy, run) ↦ (m, run, w, refl, inr (entry, held))
    | inl (idle, (n, run, swept)) ↦ (
      n,
      run,
      swept.well_formed,
      swept.keepalive_kept,
      elim (Bool-cases (expired_at t m a)) [
        | inl old ↦ inl (All-find _ guid a m.session_map swept.gone entry old).1
        | inr fresh ↦
            let (here, same) = All-find _ guid a m.session_map swept.kept entry fresh in
            inr (here, same ∙ held)
      ],
    )
  ]

  second_alarm :
      (t : ℕ) (guid : List ℕ) (a : ℕ) (s : ServerSession D) (m : Manager D)
      → IsWellFormed m
      → s.last_arrival + m.keepalive < t
      → IsDeletedOrSame guid a s m
      → (n : Manager D) × (handle_alarm t (set_count 0 m) ≡ ok n) × (find a n.heap ≡ none)
  unfolding handle_alarm
  second_alarm t guid a s m w old before =
      let quiet = set_count 0 m in
      let (n, run, swept) = sweep_server_sessions-IsSwept t quiet (counted-IsWellFormed m 0 w) in
      let expired : is_expired t m.keepalive s ≡ true = ground (arith, old) in
      (
        set_count 0 n,
        rw run refl,
        elim before [
          | inl gone ↦ swept.others_heap a (entries_elsewhere a m w gone) ∙ gone
          | inr (entry, held) ↦
              (All-find _ guid a m.session_map swept.gone entry
                (ap (is_stale t m.keepalive) held ∙ expired)).1
        ],
      )

  -- The second alarm sweeps, whatever was counted before the first.
  two_alarms :
      (t1 t2 : ℕ) (guid : List ℕ) (a : ℕ) (s : ServerSession D) (m : Manager D)
      → IsWellFormed m
      → find guid m.session_map ≡ some a
      → find a m.heap ≡ some s
      → s.last_arrival + m.keepalive < t2
      → (n : Manager D) × (with_alarms (t1 ∷ t2 ∷ []) m ≡ ok n) × (find a n.heap ≡ none)
  unfolding with_alarms
  two_alarms t1 t2 guid a s m w entry held old =
      let (k, run, w', same, before) = first_alarm t1 guid a s m w entry held in
      let (n, run', gone) = second_alarm t2 guid a s k w' (rw same old) before in
      (n, rw (run, run') refl, gone)

  run_actions-fault :
      (f : Action D) (fs : List (Action D)) (ts : List ℕ) (als : Alarms) (a : ℕ) (m n : Manager D)
      → with_alarms ts m ≡ ok n
      → f a n ≡ fault
      → run_actions (f ∷ fs) (ts ∷ als) a m ≡ fault
  unfolding run_actions
  run_actions-fault f fs ts als a m n run stuck = rw (run_actions, run, stuck) refl

  update-gone :
      (f : ServerSession D → ServerSession D) (a : ℕ) (m : Manager D)
      → find a m.heap ≡ none
      → update f a m ≡ fault
  update-gone f a m gone = rw (deref-fault m a gone) refl

module _ {D : Type 0} (ops : DoubleOps D) where
  -- In a well-formed manager, when two alarms come between the lookup of a known session and the
  -- first write to it, and at the second the session was silent for longer than the keepalive time,
  -- then the second alarm deletes the session, and the write goes through a dangling pointer.
  pub receive_ping_alarmed-twice :
      (r : Received) (t1 t2 a : ℕ) (s : ServerSession D) (m : Manager D)
      → IsWellFormed m
      → find r.guid m.session_map ≡ some a
      → find a m.heap ≡ some s
      → s.last_arrival + m.keepalive < t2
      → receive_ping_alarmed ops r ([] ∷ [] ∷ (t1 ∷ t2 ∷ []) ∷ []) m ≡ fault
  unfolding receive_ping_alarmed run_actions with_alarms get_server_session
  receive_ping_alarmed-twice r t1 t2 a s m w entry held old =
      let count = u32 (m.interval_packets_received + 1) in
      let (n, run, gone) =
        two_alarms t1 t2 r.guid a s (set_count count m) (counted-IsWellFormed m count w) entry held
          old in
      let f : ServerSession D → ServerSession D = λ ds. record ds { last_arrival = r.arrival } in
      let stuck =
        run_actions-fault (update f) (later_updates ops r) (t1 ∷ t2 ∷ []) [] a (set_count count m) n
          run (update-gone f a n gone) in
      rw (get_server_session, entry)
        (ap (λ (o : Outcome (ℕ × Manager D)). do (b, n) ← o; ok n) stuck)
