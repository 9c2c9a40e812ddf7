-- ===== src/Manager/Ledger/Arrivals.antt =====
-- A packet that the ledger accepts: the manager records it without a fault, and they agree again.
use udping.Base.{ℕ, ◌+◌, ◌≤◌, ◌≡◌, ◌≢◌, refl, sym, ap, ◌∙◌, subst, List, none, some, inl, inr}
use udping.Map.{find, insert}
use udping.Map.Keys.{string_key, nat_key}
use udping.Map.Laws.{find-insert_self, find-insert_ne, find-insert-some, find-insert-none}
use udping.Session.{ServerSession}
use udping.Stats.{DoubleOps}
use udping.Manager.{Manager, ok, source_key}
use udping.Manager.WellFormed.{IsWellFormed}
use udping.Manager.Awake.{IsTracked}
use udping.Manager.Recording.{receive_other}
use udping.Manager.Events.{Received, receive}
use udping.Manager.Ledger.{Ledger, arrive}
use udping.Manager.Ledger.Agreement.{Agrees, AgreesAt, IsPresent, tracked-IsPresent}

module _ {D : Type 0} (ops : DoubleOps D) (r : Received) where
  -- What the arrival of the packet makes of the guids, if its session is tracked.
  module _ (l : Ledger) (a : ℕ) (s : ServerSession D) (m m' : Manager D) (w : IsWellFormed m)
      (run : receive ops r m ≡ ok m') (v : Agrees m.keepalive l m)
      (mine : IsTracked r.guid a s m m') (arrival : s.last_arrival ≡ r.arrival) where
    other-IsTracked :
        (g : List ℕ) (last : ℕ)
        → r.guid ≢ g
        → find g l.guids ≡ some (some last)
        → r.now ≤ last + m.keepalive
        → (b : ℕ) × (t : ServerSession D) × (find g m.session_map ≡ some b)
          × (t.last_arrival ≡ last)
          × IsTracked g b t m m'
    other-IsTracked g last ne e timely =
        let p = v.awake g last e in
        (
          p.address,
          p.session,
          p.held.entry,
          p.arrival,
          receive_other ops r g p.address p.session m m' w ne p.held (rw p.arrival timely) run,
        )

    arrived-awake :
        (g : List ℕ) (last : ℕ)
        → find g (insert r.guid (some r.arrival) l.guids) ≡ some (some last)
        → r.now ≤ last + m.keepalive
        → IsPresent g last m'
    arrived-awake g last e timely =
        elim (find-insert-some r.guid g (some r.arrival) (some last) l.guids e) [
          | inl (own, now) ↦
              let same : r.arrival ≡ last = cc in
              subst (λ x. IsPresent x last m') own
                (tracked-IsPresent r.guid a last s m m' (arrival ∙ same) mine)
          | inr (ne, old) ↦
              let (b, t, _, last_same, kept) = other-IsTracked g last ne old timely in
              tracked-IsPresent g b last t m m' last_same kept
        ]

    arrived-listed :
        (g : List ℕ)
        → find g l.guids ≢ none
        → find g (insert r.guid (some r.arrival) l.guids) ≢ none
    arrived-listed g ne e = ne (find-insert-none r.guid g (some r.arrival) l.guids e).1

    -- An entry of another guid that is awake stays.
    arrived-entry :
        (g : List ℕ) (b last : ℕ)
        → r.guid ≢ g
        → ((t : ℕ) → find g l.guids ≡ some (some t) → find g m.session_map ≡ some b)
        → find g (insert r.guid (some r.arrival) l.guids) ≡ some (some last)
        → r.now ≤ last + m.keepalive
        → find g m'.session_map ≡ some b
    arrived-entry g b last ne before e timely =
        let old : find g l.guids ≡ some (some last) =
          sym (find-insert_ne r.guid g (some r.arrival) l.guids ne) ∙ e in
        let (c, t, entry, _, kept) = other-IsTracked g last ne old timely in
        kept.held.entry ∙ sym entry ∙ before last old

    -- A packet of a known session.
    pub known-AgreesAt :
        (t : ℕ)
        → find r.guid l.guids ≡ some (some t)
        → find r.guid m.session_map ≡ some a
        → ((g : List ℕ) → find g m.session_map ≡ none → find g m'.session_map ≡ none)
        → m'.source_map ≡ m.source_map
        → AgreesAt m.keepalive r.now (arrive r l.sources l) m'
    unfolding arrive
    known-AgreesAt t listed here unknown sources = record {
      awake = arrived-awake;
      unknown =
          λ g e. unknown g (v.unknown g (find-insert-none r.guid g (some r.arrival) l.guids e).1);
      sources = λ key b e.
          let p = v.sources key b (ap (find key) (sym sources) ∙ e) in
          (
            p.guid,
            p.last_new,
            arrived-listed p.guid p.listed,
            λ last q timely.
                elim (find-insert-some r.guid p.guid (some r.arrival) (some last) l.guids q) [
                  | inl (own, now) ↦
                      ap (λ g. find g m'.session_map) (sym own)
                      ∙ mine.held.entry
                      ∙ sym here
                      ∙ ap (λ g. find g m.session_map) own
                      ∙ p.entry t (ap (λ g. find g l.guids) (sym own) ∙ listed)
                  | inr (ne, old) ↦ arrived-entry p.guid b last ne p.entry q timely
                ],
          );
      same_keepalive = mine.same_keepalive;
    }

    -- A packet with a new guid, at the next free address.
    pub new-AgreesAt :
        a ≡ m.next_address
        → find r.guid l.guids ≡ none
        → ((g : List ℕ) → r.guid ≢ g → find g m.session_map ≡ none → find g m'.session_map ≡ none)
        → m'.source_map ≡ insert (source_key r.peer r.port) a m.source_map
        → AgreesAt m.keepalive r.now
            (arrive r (insert (source_key r.peer r.port) r.guid l.sources) l)
            m'
    unfolding arrive
    new-AgreesAt free fresh unknown sources =
        let source = source_key r.peer r.port in
        record {
          awake = arrived-awake;
          unknown = λ g e.
              let (ne, none_before) = find-insert-none r.guid g (some r.arrival) l.guids e in
              unknown g ne (v.unknown g none_before);
          sources = λ key b e.
              elim (find-insert-some source key a b m.source_map
                (ap (find key) (sym sources) ∙ e)) [
                  | inl (own, now) ↦ (
                    r.guid,
                    subst (λ x. find x (insert source r.guid l.sources) ≡ some r.guid) own
                        (find-insert_self source r.guid l.sources),
                    λ q. (find-insert-none r.guid r.guid (some r.arrival) l.guids q).0 refl,
                    λ last q timely. mine.held.entry ∙ ap some now,
                  )
                  | inr (ne, old) ↦
                      let p = v.sources key b old in
                      let other : r.guid ≢ p.guid =
                        λ q. p.listed (ap (λ g. find g l.guids) (sym q) ∙ fresh) in
                      (
                        p.guid,
                        find-insert_ne source key r.guid l.sources ne ∙ p.last_new,
                        arrived-listed p.guid p.listed,
                        λ last q timely. arrived-entry p.guid b last other p.entry q timely,
                      )
                ];
          same_keepalive = mine.same_keepalive;
        }
