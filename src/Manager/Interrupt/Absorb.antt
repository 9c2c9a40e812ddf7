-- ===== src/Manager/Interrupt/Absorb.antt =====
-- One alarm inside `receivePing` against the same alarm behind it.
use udping.Base.{
  u32, ◌<◌, ◌^◌, ℕ, ◌+◌, ◌≤◌, ◌≡◌, refl, sym, ap, ◌∙◌, [], Option-cases, inl, inr, length, arith,
  subst,
}
use udping.Map.{find}
use udping.Map.Keys.{string_key, nat_key}
use udping.Map.Laws.{find-insert_self, insert_twice}
use udping.Session.{record_seq}
use udping.Stats.{DoubleOps}
use udping.Manager.{
  Manager, Outcome, ok, fault, ◌>>=◌, deref, store, get_server_session, record_packet,
  sweep_server_sessions, receive_ping,
}
use udping.Manager.Dangling.{ok-injective}
use udping.Manager.Events.{Received, receive}
use udping.Manager.Interrupt.{
  Alarms, all_of, first, later, with_alarms, run_actions, updates, session_statements,
  receive_ping_alarmed,
}
use udping.Manager.Interrupt.Commute.{
  set_count, counting, counting_at, Commutes, update-Commutes, get_server_session-Commutes,
  sweep_entries-counting,
}
use udping.Manager.Interrupt.Sparse.{
  with_alarms-count, IsSparse, left, length-IsSparse, with_alarms-sparse, AllCommute,
  run_actions-counting, run_actions-sparse,
}

module _ {D : Type 0} (ops : DoubleOps D) where
  sweep-counting :
      (k now : ℕ) (m : Manager D)
      → sweep_server_sessions now (set_count k m) ≡ counting k (sweep_server_sessions now m)
  unfolding sweep_server_sessions
  sweep-counting k now m = sweep_entries-counting k now m.session_map m

  sweep-Commutes :
      (now : ℕ) → Commutes {D = D} (λ a m. do swept ← sweep_server_sessions now m; ok (a, swept))
  sweep-Commutes now k a m =
      ap (λ o. do swept ← o; ok (a, swept)) (sweep-counting k now m)
      ∙ paired (sweep_server_sessions now m)
    where
      paired :
          (o : Outcome (Manager D))
          → (do swept ← counting k o; ok (a, swept)) ≡ counting_at k (do swept ← o; ok (a, swept))
      paired (ok n) = refl
      paired fault = refl

  session_statements-Commute : (r : Received) → AllCommute (session_statements ops r)
  session_statements-Commute r = (
    get_server_session-Commutes ops r.peer r.port r.guid r.ph,
    (update-Commutes _, (update-Commutes _, (update-Commutes _, (sweep-Commutes r.now, tt)))),
  )

  swept_only :
      (a : ℕ) (o : Outcome (Manager D))
      → (do (b, n) ← (do (c, k) ← (do swept ← o; ok (a, swept)); ok (c, k)); ok n) ≡ o
  swept_only a (ok n) = refl
  swept_only a fault = refl

  -- The updates one by one, and at once.
  updates-record_packet :
      (r : Received) (c : ℕ) (m : Manager D)
      → (do (b, n) ← run_actions (updates ops r) [] c m; ok n) ≡ (do
        ds ← deref m c
        sweep_server_sessions r.now (store c (record_packet ops r.sec r.nsec r.arrival r.ph ds) m))
  unfolding run_actions with_alarms record_packet deref store
  updates-record_packet r c m = elim (Option-cases (find c m.heap)) [
    | inl gone ↦ rw (deref, gone) refl
    | inr (s, held) ↦
        let s1 = record s { last_arrival = r.arrival } in
        let s2 = record_seq s1 r.ph.seq_num in
        let s3 = record_packet ops r.sec r.nsec r.arrival r.ph s in
        rw
          (
            deref,
            held,
            find-insert_self c s1 m.heap,
            insert_twice c s2 s1 m.heap,
            find-insert_self c s2 m.heap,
            insert_twice c s3 s2 m.heap,
          )
          (swept_only c (sweep_server_sessions r.now (store c s3 m)))
  ]

  -- Without alarms, the statements behind the count are `receivePing`.
  run_actions-receive :
      (r : Received) (m : Manager D)
      → (do
        (b, n) ←
            run_actions
              (session_statements ops r)
              []
              0
              (set_count (u32 (m.interval_packets_received + 1)) m)
        ok n)
        ≡ receive ops r m
  unfolding run_actions with_alarms receive_ping
  run_actions-receive r m = by_outcome (
      get_server_session ops r.peer r.port r.guid r.ph
        (set_count (u32 (m.interval_packets_received + 1)) m))
    where
      by_outcome :
          (o : Outcome (ℕ × Manager D))
          → (do (b, n) ← (do (c, k) ← o; run_actions (updates ops r) [] c k); ok n) ≡ (do
            (c, k) ← o
            ds ← deref k c
            sweep_server_sessions r.now
                (store c (record_packet ops r.sec r.nsec r.arrival r.ph ds) k))
      by_outcome fault = refl
      by_outcome (ok (c, k)) = updates-record_packet r c k

  -- At most one alarm behind the count.
  counted-absorb :
      (r : Received) (als : Alarms) (m : Manager D)
      → m.interval_packets_received + 1 < 2 ^ 32
      → length (all_of als) ≤ 1
      → (do
        (b, n) ←
            run_actions
              (session_statements ops r)
              als
              0
              (set_count (u32 (m.interval_packets_received + 1)) m)
        ok n)
        ≡ (do n ← receive ops r m; with_alarms (all_of als) n)
  counted-absorb r als m low few =
      let count = u32 (m.interval_packets_received + 1) in
      let ts = all_of als in
      let counted = set_count count m in
      let sparse = length-IsSparse ts count few (omega (arith, low)) in
      let cs = session_statements-Commute r in
      rw
        (
          run_actions-sparse (session_statements ops r) als 0 counted cs sparse,
          sym (run_actions-receive r m),
        )
        (by_outcome sparse (run_actions (session_statements ops r) [] 0 counted)
          (run_actions-counting (session_statements ops r) count 0 counted cs))
    where
      by_outcome :
          IsSparse (all_of als) (u32 (m.interval_packets_received + 1))
          → (o : Outcome (ℕ × Manager D))
          → o ≡ counting_at (u32 (m.interval_packets_received + 1)) o
          → (do
            (b, n) ← counting_at (left (all_of als) (u32 (m.interval_packets_received + 1))) o
            ok n)
            ≡ (do n ← (do (b, n) ← o; ok n); with_alarms (all_of als) n)
      by_outcome sparse fault e = refl
      by_outcome sparse (ok (b, n)) e =
          let same : n.interval_packets_received ≡ u32 (m.interval_packets_received + 1) =
            ap (λ (x : ℕ × Manager D). x.1.interval_packets_received) (ok-injective e) in
          ap (λ k. ok (set_count (left (all_of als) k) n)) (sym same)
          ∙ sym
              (with_alarms-sparse (all_of als) n (subst (IsSparse (all_of als)) (sym same) sparse))

  -- If at most one alarm comes behind the count of `receivePing`, between its statements or at its
  -- end, and the count is not about to wrap, the packet is recorded as if the alarm had come right
  -- after it: the session found, its counters, the sweep, and whether there is a fault are the
  -- same, and of that alarm only the reset of the count of packets is left. The alarms in front of
  -- the count, however many, are as good as alarms before the packet.
  pub receive_ping_alarmed-absorb :
      (r : Received) (als : Alarms) (m : Manager D)
      → m.interval_packets_received + 1 < 2 ^ 32
      → length (all_of (later als)) ≤ 1
      → receive_ping_alarmed ops r als m ≡ (do
        early ← with_alarms (first als) m
        n ← receive ops r early
        with_alarms (all_of (later als)) n)
  unfolding receive_ping_alarmed run_actions
  receive_ping_alarmed-absorb r als m low few = by_outcome (with_alarms (first als) m) refl
    where
      by_outcome :
          (o : Outcome (Manager D))
          → with_alarms (first als) m ≡ o
          → receive_ping_alarmed ops r als m ≡ (do
            early ← with_alarms (first als) m
            n ← receive ops r early
            with_alarms (all_of (later als)) n)
      by_outcome fault e = rw (receive_ping_alarmed, run_actions, e) refl
      by_outcome (ok n) e =
          let below = with_alarms-count (first als) m n e in
          rw (receive_ping_alarmed, run_actions, e)
            (counted-absorb r (later als) n (omega (arith, below, low)) few)
