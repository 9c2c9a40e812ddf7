-- ===== src/Manager/Ledger/Acceptance.antt =====
-- A packet that the ledger accepts is recorded without a fault.
use udping.Base.{
  ℕ, ◌+◌, ◌≤◌, ◌≡◌, refl, sym, ap, ◌∙◌, subst, List, Option, none, some, inl, inr, arith,
  Bool-cases, true, ltb,
}
use udping.Map.{find, insert}
use udping.Map.Keys.{string_key, nat_key}
use udping.Session.{new_session}
use udping.Stats.{DoubleOps}
use udping.Manager.{Manager, ok, source_key, record_packet}
use udping.Manager.WellFormed.{IsWellFormed}
use udping.Manager.Linking.{IsSourceLive}
use udping.Manager.Receive.{receive_ping-known, receive_ping-new, record_packet-facts}
use udping.Manager.Recording.{receive_own}
use udping.Manager.Beginning.{begun, receive_first-IsTracked}
use udping.Manager.Sources.{known-IsKept, new-IsAdded}
use udping.Manager.Events.{Received, receive}
use udping.Manager.Ledger.{Ledger, pass, arrive, note, note_new, note_ping, is_awake}
use udping.Manager.Ledger.Agreement.{Agrees, pass-Agrees}
use udping.Manager.Ledger.Arrivals.{known-AgreesAt, new-AgreesAt}

is_awake-some : (o : Option (Option ℕ)) → is_awake o ≡ true → (last : ℕ) × (o ≡ some (some last))
is_awake-some none e = absurd (cc)
is_awake-some (some none) e = absurd (cc)
is_awake-some (some (some last)) e = (last, refl)

module _ {D : Type 0} (ops : DoubleOps D) (r : Received) (m : Manager D) where
  -- The packet is recorded, and the manager agrees with `next`.
  pub record IsTaken (next : Ledger) : Type 0 where
    pub after : Manager D
    pub run : receive ops r m ≡ ok after
    pub well_formed : IsWellFormed after
    pub agrees : Agrees m.keepalive (pass m.keepalive r.now next) after

  module _ (l : Ledger) (w : IsWellFormed m) (v : Agrees m.keepalive l m)
      (recent : r.now ≤ r.arrival + m.keepalive) where
    known-IsTaken : (t : ℕ) → find r.guid l.guids ≡ some (some t) → IsTaken (arrive r l.sources l)
    known-IsTaken t e =
        let p = v.awake r.guid t e in
        let (m', run, got) =
          receive_ping-known ops r.ph r.sec r.nsec r.peer r.port r.guid r.arrival r.now m p.address
            p.held.now w recent p.held.entry p.held.held in
        let mine = receive_own ops r p.address p.session m m' w p.held recent run in
        let facts =
          record_packet-facts ops r.ph r.sec r.nsec r.peer r.port r.guid r.arrival r.now m
            p.session in
        let kept = known-IsKept ops r p.address p.held.now m m' w p.held.entry p.held.held run in
        record {
          after = m';
          run = run;
          well_formed = got.well_formed;
          agrees = pass-Agrees m.keepalive r.now (arrive r l.sources l) m' (
              known-AgreesAt ops r l p.address
                (record_packet ops r.sec r.nsec r.arrival r.ph p.session) m m' w run v mine facts.1
                t e p.held.entry kept.unknown kept.sources);
        }

    new-IsTaken :
        find r.guid l.guids ≡ none
        → IsSourceLive m (source_key r.peer r.port)
        → IsTaken (arrive r (insert (source_key r.peer r.port) r.guid l.sources) l)
    new-IsTaken e live =
        let new = v.unknown r.guid e in
        let (m', run, got) =
          receive_ping-new ops r.ph r.sec r.nsec r.peer r.port r.guid r.arrival r.now m w recent new
            live in
        let mine = receive_first-IsTracked ops r m m' w new recent run in
        let facts =
          record_packet-facts ops r.ph r.sec r.nsec r.peer r.port r.guid r.arrival r.now m
            (new_session ops r.guid r.peer r.port r.ph) in
        let added = new-IsAdded ops r m m' w new live run in
        record {
          after = m';
          run = run;
          well_formed = got.well_formed;
          agrees =
              pass-Agrees m.keepalive r.now
                (arrive r (insert (source_key r.peer r.port) r.guid l.sources) l) m'
                (new-AgreesAt ops r l m.next_address (begun ops r) m m' w run v mine facts.1 refl e
                  added.unknown added.sources);
        }

    note_new-IsTaken :
        (o : Option (List ℕ)) (next : Ledger)
        → find r.guid l.guids ≡ none
        → find (source_key r.peer r.port) l.sources ≡ o
        → note_new r o l ≡ some next
        → IsTaken next
    unfolding note_new
    note_new-IsTaken none next e s run =
        let one : arrive r (insert (source_key r.peer r.port) r.guid l.sources) l ≡ next = cc in
        subst IsTaken one (
          new-IsTaken e (λ a q.
            let p = v.sources (source_key r.peer r.port) a q in
            let stuck : none ≡ some p.guid = sym s ∙ p.last_new in absurd (cc)))
    note_new-IsTaken (some g) next e s run = elim (Bool-cases (is_awake (find g l.guids))) [
      | inl up ↦
          let taken : some (arrive r (insert (source_key r.peer r.port) r.guid l.sources) l)
              ≡ some next =
            rw up at run in
          let one : arrive r (insert (source_key r.peer r.port) r.guid l.sources) l ≡ next = cc in
          subst IsTaken one (
            new-IsTaken e (λ a q.
              let p = v.sources (source_key r.peer r.port) a q in
              let both : some g ≡ some p.guid = sym s ∙ p.last_new in
              let same : g ≡ p.guid = cc in
              let (last, awake) = is_awake-some (find g l.guids) up in
              let here : find p.guid l.guids ≡ some (some last) =
                ap (λ x. find x l.guids) (sym same) ∙ awake in
              let h = v.awake p.guid last here in
              let address : some h.address ≡ some a = sym h.held.entry ∙ p.entry last here in
              let at : h.address ≡ a = cc in
              (h.held.now, ap (λ x. find x m.heap) (sym at) ∙ h.held.held)))
      | inr down ↦ let stuck : none ≡ some next = rw down at run in absurd (cc)
    ]

    note-IsTaken :
        (o : Option (Option ℕ)) (next : Ledger)
        → find r.guid l.guids ≡ o
        → note r o l ≡ some next
        → IsTaken next
    unfolding note
    note-IsTaken none next e run =
        note_new-IsTaken (find (source_key r.peer r.port) l.sources) next e refl run
    note-IsTaken (some none) next e run = absurd (cc)
    note-IsTaken (some (some t)) next e run =
        let one : arrive r l.sources l ≡ next = cc in subst IsTaken one (known-IsTaken t e)

  pub note_ping-IsTaken :
      (l next : Ledger)
      → IsWellFormed m
      → Agrees m.keepalive l m
      → note_ping m.keepalive r l ≡ some next
      → IsTaken next
  unfolding note_ping
  note_ping-IsTaken l next w v run = elim (Bool-cases (ltb (r.arrival + m.keepalive) r.now)) [
    | inl late ↦ let stuck : none ≡ some next = rw late at run in absurd (cc)
    | inr timely ↦
        let noted : note r (find r.guid l.guids) l ≡ some next = rw timely at run in
        note-IsTaken l w v (ground arith) (find r.guid l.guids) next refl noted
  ]
