-- ===== src/Manager/Interrupt/Commute.antt =====
-- No statement of `receivePing` behind its count reads or writes the count of packets.
use udping.Base.{
  ℕ, ◌+◌, ◌≡◌, refl, ap, ◌∙◌, List, [], ◌∷◌, Option, none, some, ◌==◌, Option-cases, Bool-cases,
  inl, inr,
}
use udping.Map.{Map, find, insert}
use udping.Map.Keys.{string_key, nat_key}
use udping.Packet.{Packet}
use udping.Session.{ServerSession, new_session}
use udping.Stats.{DoubleOps}
use udping.Manager.{
  Manager, Outcome, ok, fault, ◌>>=◌, deref, store, set_successor, link_predecessor, source_key,
  get_server_session, close_gap, expire, is_expired, sweep_entries,
}
use udping.Manager.Interrupt.{Action, update}

module _ {D : Type 0} where
  abbrev pub set_count : ℕ → Manager D → Manager D
  set_count k m = record m { interval_packets_received = k }

  -- The count set in what a step gives.
  abbrev pub counting : ℕ → Outcome (Manager D) → Outcome (Manager D)
  counting k (ok n) = ok (set_count k n)
  counting k fault = fault

  abbrev pub counting_at : ℕ → Outcome (ℕ × Manager D) → Outcome (ℕ × Manager D)
  counting_at k (ok (a, n)) = ok (a, set_count k n)
  counting_at k fault = fault

  abbrev pub Commutes : Action D → Type 0
  Commutes f = (k a : ℕ) (m : Manager D) → f a (set_count k m) ≡ counting_at k (f a m)

  pub update-Commutes : (f : ServerSession D → ServerSession D) → Commutes (update f)
  unfolding deref store
  update-Commutes f k a m = elim (Option-cases (find a m.heap)) [
    | inl gone ↦ rw (deref, gone) refl
    | inr (s, held) ↦ rw (deref, held) refl
  ]

  set_successor-counting :
      (k b : ℕ) (p ds : ServerSession D) (g : List ℕ) (m : Manager D)
      → set_successor b p g ds (set_count k m) ≡ set_count k (set_successor b p g ds m)
  unfolding set_successor store
  set_successor-counting k b p ds g m =
      elim (Bool-cases (p.client_start_time == ds.client_start_time)) [
        | inl same ↦ rw same refl
        | inr other ↦ rw other refl
      ]

  link_predecessor-counting :
      (k : ℕ) (o : Option ℕ) (g : List ℕ) (ds : ServerSession D) (m : Manager D)
      → link_predecessor o g ds (set_count k m) ≡ counting k (link_predecessor o g ds m)
  unfolding link_predecessor deref
  link_predecessor-counting k none g ds m = refl
  link_predecessor-counting k (some b) g ds m = elim (Bool-cases (b == 0)) [
    | inl null ↦ rw null refl
    | inr nonnull ↦ elim (Option-cases (find b m.heap)) [
      | inl gone ↦ rw (nonnull, deref, gone) refl
      | inr (p, held) ↦ rw (nonnull, deref, held) (ap ok (set_successor-counting k b p ds g m))
    ]
  ]

  counting-then :
      (k : ℕ) (o : Outcome (Manager D)) (f : Manager D → Outcome (ℕ × Manager D))
      → ((n : Manager D) → f (set_count k n) ≡ counting_at k (f n))
      → counting k o >>= f ≡ counting_at k (o >>= f)
  counting-then k (ok n) f e = e n
  counting-then k fault f e = refl

  pub get_server_session-Commutes :
      (ops : DoubleOps D) (peer : List ℕ) (port : ℕ) (guid : List ℕ) (p : Packet)
      → Commutes (λ a m. get_server_session ops peer port guid p m)
  unfolding get_server_session store
  get_server_session-Commutes ops peer port guid p k a m =
      elim (Option-cases (find guid m.session_map)) [
        | inr (b, known) ↦ rw (get_server_session, known) refl
        | inl new ↦
            let ds = new_session ops guid peer port p in
            let o = find (source_key peer port) m.source_map in
            let allocated = record (store m.next_address ds m) {
              next_address = m.next_address + 1;
            } in
            let mapped : Manager D → Outcome (ℕ × Manager D) = λ linked. ok (
              m.next_address,
              record linked {
                session_map = insert guid m.next_address linked.session_map;
                source_map = insert (source_key peer port) m.next_address linked.source_map;
              },
            ) in
            rw (get_server_session, new)
              (ap (λ x. x >>= mapped) (link_predecessor-counting k o guid ds allocated)
                ∙ counting-then k (link_predecessor o guid ds allocated) mapped (λ n. refl))
      ]

  close_gap-counting :
      (k : ℕ) (ds : ServerSession D) (m : Manager D) → close_gap ds (set_count k m) ≡ close_gap ds m
  unfolding close_gap deref
  close_gap-counting k ds m = refl

  expire-counting :
      (k now : ℕ) (guid : List ℕ) (a : ℕ) (ds : ServerSession D) (m : Manager D)
      → expire now guid a ds (set_count k m) ≡ counting k (expire now guid a ds m)
  unfolding expire
  expire-counting k now guid a ds m = by_outcome (close_gap ds m) refl
    where
      by_outcome :
          (o : Outcome (ServerSession D))
          → close_gap ds m ≡ o
          → expire now guid a ds (set_count k m) ≡ counting k (expire now guid a ds m)
      by_outcome (ok c) e = rw (expire, close_gap-counting k ds m, e) refl
      by_outcome fault e = rw (expire, close_gap-counting k ds m, e) refl

  counting_all :
      (k : ℕ) (o : Outcome (Manager D)) (f : Manager D → Outcome (Manager D))
      → ((n : Manager D) → f (set_count k n) ≡ counting k (f n))
      → counting k o >>= f ≡ counting k (o >>= f)
  counting_all k (ok n) f e = e n
  counting_all k fault f e = refl

  pub sweep_entries-counting :
      (k now : ℕ) (es : Map (List ℕ) ℕ) (m : Manager D)
      → sweep_entries now es (set_count k m) ≡ counting k (sweep_entries now es m)
  unfolding sweep_entries deref
  sweep_entries-counting k now [] m = refl
  sweep_entries-counting k now ((g, a) ∷ es) m = elim (Bool-cases (a == 0)) [
    | inl null ↦ rw null refl
    | inr nonnull ↦ elim (Option-cases (find a m.heap)) [
      | inl gone ↦ rw (nonnull, deref, gone) refl
      | inr (ds, held) ↦ elim (Bool-cases (is_expired now m.keepalive ds)) [
        | inr fresh ↦ rw (nonnull, deref, held, fresh) (sweep_entries-counting k now es m)
        | inl old ↦
            rw (nonnull, deref, held, old)
              (ap (λ x. x >>= sweep_entries now es) (expire-counting k now g a ds m)
                ∙ counting_all k (expire now g a ds m) (sweep_entries now es)
                    (sweep_entries-counting k now es))
      ]
    ]
  ]
