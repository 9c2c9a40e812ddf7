-- ===== src/Manager/Reporting.antt =====
-- What a sweep reports of an expired session.
use mathlib.Core.Path.{subst₂}
use mathlib.Core.List.{append_assoc, append-nil}
use udping.Base.{ℕ, ◌≡◌, ◌≢◌, sym, ap, ◌∙◌, List, [], ◌∷◌, ◌++◌, some, true, inl, inr, Bool-cases}
use udping.Map.{Map, find}
use udping.Map.Keys.{string_key, nat_key}
use udping.Map.Laws.{IsSorted, All-find, sorted-entries, find-erase_ne}
use udping.Session.{ServerSession, with_target}
use udping.Manager.{Manager, Report, ok, is_expired, sweep_entries, sweep_server_sessions}
use udping.Manager.WellFormed.{IsWellFormed, deref-ok}
use udping.Manager.Sweep.{expired_state, expired_state-IsWellFormed, expire-ok}
use udping.Manager.Swept.{expired_at, is_stale, AreEntries, entries_apart, entries-erase}
use udping.Manager.Expiry.{sweep_entries-fresh, sweep_entries-old}
use udping.Manager.Dangling.{ok-injective}
use udping.Manager.Closing.{IsClosed, close_gap-IsClosed, expired_state-IsClosed}

module _ {D : Type 0} where
  -- A sweep only adds reports.
  sweep_entries-grows :
      (now : ℕ) (es : Map (List ℕ) ℕ) (m m' : Manager D)
      → IsWellFormed m
      → IsSorted es
      → AreEntries m es
      → sweep_entries now es m ≡ ok m'
      → (rest : List (Report D)) × (m'.reports ≡ m.reports ++ rest)
  unfolding sweep_entries
  sweep_entries-grows now [] m m' w sorted here run =
      let same : m ≡ m' = ok-injective run in
      ([], ap (λ (x : Manager D). x.reports) (sym same) ∙ sym (append-nil m.reports))
  sweep_entries-grows now ((g, a) ∷ es) m m' w sorted here run =
      let (pos, (ds, held, _)) = w.live g a here.0 in
      let apart = entries_apart g a es m w here.0 sorted.0 here.1 in
      elim (Bool-cases (is_expired now m.keepalive ds)) [
        | inl old ↦
            let (c, _, _, e) = expire-ok now g a ds m w in
            let m1 = expired_state now g a c m in
            let step = sweep_entries-old now g a es ds m m1 pos (deref-ok m a ds held) old e in
            let (rest, grown) =
              sweep_entries-grows now es m1 m' (expired_state-IsWellFormed now g a c m w here.0)
                sorted.1 (entries-erase now a g c es m apart here.1) (sym step ∙ run) in
            let mine : Report D = record { session = with_target c; time = now } in
            (mine ∷ rest, grown ∙ append_assoc m.reports (mine ∷ []) rest)
        | inr fresh ↦
            sweep_entries-grows now es m m' w sorted.1 here.1
              (sym (sweep_entries-fresh now g a es ds m pos (deref-ok m a ds held) fresh) ∙ run)
      ]

  -- A report among those that were added.
  pub record IsReported (r : Report D) (old new : List (Report D)) : Type 0 where
    pub before : List (Report D)
    pub after : List (Report D)
    pub split : new ≡ old ++ (before ++ (r ∷ after))

  cons-IsReported :
      {r : Report D} {new : List (Report D)} (mine : Report D) (old : List (Report D))
      → IsReported r (old ++ (mine ∷ [])) new
      → IsReported r old new
  cons-IsReported {r} mine old v = record {
    before = mine ∷ v.before;
    after = v.after;
    split = v.split ∙ append_assoc old (mine ∷ []) (v.before ++ (r ∷ v.after));
  }

  -- The session of some guid, expired.
  record IsDue (now : ℕ) (guid : List ℕ) (a : ℕ) (s closed : ServerSession D) (m : Manager D)
      : Type 0 where
    entry : find guid m.session_map ≡ some a
    held : find a m.heap ≡ some s
    old : is_expired now m.keepalive s ≡ true
    closes : IsClosed now s m closed

  expired_state-IsDue :
      (now : ℕ) (guid g : List ℕ) (a b : ℕ) (s closed c : ServerSession D) (m : Manager D)
      → g ≢ guid
      → b ≢ a
      → find g m.session_map ≡ some b
      → expired_at now m b ≡ true
      → IsDue now guid a s closed m
      → IsDue now guid a s closed (expired_state now g b c m)
  expired_state-IsDue now guid g a b s closed c m other apart here old v = record {
    entry = find-erase_ne g guid m.session_map other ∙ v.entry;
    held = find-erase_ne b a m.heap apart ∙ v.held;
    old = v.old;
    closes = expired_state-IsClosed now b g c s closed m here old v.closes;
  }

  -- The report of the first entry, if it is due.
  head-IsReported :
      (now : ℕ) (guid : List ℕ) (a : ℕ) (s closed : ServerSession D) (es : Map (List ℕ) ℕ)
      (m m' : Manager D)
      → IsWellFormed m
      → IsSorted ((guid, a) ∷ es)
      → AreEntries m ((guid, a) ∷ es)
      → IsDue now guid a s closed m
      → sweep_entries now ((guid, a) ∷ es) m ≡ ok m'
      → IsReported (record { session = with_target closed; time = now }) m.reports m'.reports
  head-IsReported now guid a s closed es m m' w sorted here v run =
      let (pos, _) = w.live guid a here.0 in
      let apart = entries_apart guid a es m w here.0 sorted.0 here.1 in
      let (c, gap, _, e) = expire-ok now guid a s m w in
      let m1 = expired_state now guid a c m in
      let step = sweep_entries-old now guid a es s m m1 pos (deref-ok m a s v.held) v.old e in
      let (rest, grown) =
        sweep_entries-grows now es m1 m' (expired_state-IsWellFormed now guid a c m w here.0)
          sorted.1 (entries-erase now a guid c es m apart here.1) (sym step ∙ run) in
      let same : c ≡ closed =
        ok-injective (sym gap ∙ close_gap-IsClosed now s closed m w v.closes) in
      let mine : ServerSession D → Report D = λ x. record { session = with_target x; time = now } in
      record {
        before = [];
        after = rest;
        split =
            grown
            ∙ append_assoc m.reports (mine c ∷ []) rest
            ∙ ap (λ x. m.reports ++ (mine x ∷ rest)) same;
      }

  sweep_entries-IsReported :
      (now : ℕ) (guid : List ℕ) (a : ℕ) (s closed : ServerSession D) (es : Map (List ℕ) ℕ)
      (m m' : Manager D)
      → IsWellFormed m
      → IsSorted es
      → AreEntries m es
      → find guid es ≡ some a
      → IsDue now guid a s closed m
      → sweep_entries now es m ≡ ok m'
      → IsReported (record { session = with_target closed; time = now }) m.reports m'.reports
  unfolding find
  sweep_entries-IsReported now guid a s closed [] m m' w sorted here e v run = absurd (cc)
  sweep_entries-IsReported now guid a s closed ((g, b) ∷ es) m m' w sorted here e v run =
      elim (Bool-cases (string_key.same g guid)) [
        | inl hit ↦
            let own : g ≡ guid = (string_key.same_iff g guid).0 hit in
            let one : some b ≡ some a = rw hit at e in
            let same : b ≡ a = cc in
            head-IsReported now guid a s closed es m m' w
              (subst₂ (λ x y. IsSorted ((x, y) ∷ es)) own same sorted)
              (subst₂ (λ x y. AreEntries m ((x, y) ∷ es)) own same here) v
              (subst₂ (λ x y. sweep_entries now ((x, y) ∷ es) m ≡ ok m') own same run)
        | inr miss ↦
            let other : g ≢ guid = λ q. let hit = (string_key.same_iff g guid).1 q in cc in
            let rest : find guid es ≡ some a = rw miss at e in
            let (pos, (ds, held, _)) = w.live g b here.0 in
            let apart = entries_apart g b es m w here.0 sorted.0 here.1 in
            let later = (All-find _ guid a es apart rest).1 in
            elim (Bool-cases (is_expired now m.keepalive ds)) [
              | inl old ↦
                  let (c, _, _, x) = expire-ok now g b ds m w in
                  let m1 = expired_state now g b c m in
                  let step =
                    sweep_entries-old now g b es ds m m1 pos (deref-ok m b ds held) old x in
                  cons-IsReported (record { session = with_target c; time = now }) m.reports
                    (sweep_entries-IsReported now guid a s closed es m1 m'
                      (expired_state-IsWellFormed now g b c m w here.0) sorted.1
                      (entries-erase now b g c es m apart here.1) rest
                      (expired_state-IsDue now guid g a b s closed c m other (λ q. later (sym q))
                        here.0 (ap (is_stale now m.keepalive) held ∙ old) v)
                      (sym step ∙ run))
              | inr fresh ↦
                  sweep_entries-IsReported now guid a s closed es m m' w sorted.1 here.1 rest v (
                    sym (sweep_entries-fresh now g b es ds m pos (deref-ok m b ds held) fresh)
                    ∙ run)
            ]
      ]

  -- In a well-formed manager, a sweep reports an expired session with its counters as they are and
  -- its target count closed up to its successor.
  pub sweep_server_sessions-IsReported :
      (now : ℕ) (guid : List ℕ) (a : ℕ) (s closed : ServerSession D) (m m' : Manager D)
      → IsWellFormed m
      → find guid m.session_map ≡ some a
      → find a m.heap ≡ some s
      → is_expired now m.keepalive s ≡ true
      → IsClosed now s m closed
      → sweep_server_sessions now m ≡ ok m'
      → IsReported (record { session = with_target closed; time = now }) m.reports m'.reports
  unfolding sweep_server_sessions
  sweep_server_sessions-IsReported now guid a s closed m m' w entry held old closes run =
      sweep_entries-IsReported now guid a s closed m.session_map m m' w w.sorted
        (sorted-entries m.session_map w.sorted) entry
        (record { entry = entry; held = held; old = old; closes = closes }) run
