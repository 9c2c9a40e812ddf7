-- ===== src/Manager/Expiry.antt =====
-- The whole sweep: it never faults, takes exactly the expired sessions off the map, and reports
-- each of them once, in the order of the map.
use mathlib.Core.Path.{ap₂}
use mathlib.Core.List.{append_assoc, append-nil}
use udping.Base.{
  ℕ, ◌<◌, ◌≡◌, ◌≢◌, refl, sym, ap, ◌∙◌, true, false, List, [], ◌∷◌, ◌++◌, some, arith, Bool-cases,
  inl, inr, All, All-zip, All-map,
}
use udping.Map.{Map, find}
use udping.Map.Keys.{string_key, nat_key}
use udping.Map.Laws.{IsSorted, find-erase_ne, find-erase_self, sorted-entries}
use udping.Session.{ServerSession}
use udping.Manager.{Manager, ok, deref, expire, is_expired, sweep_entries, sweep_server_sessions}
use udping.Manager.WellFormed.{IsWellFormed, deref-ok}
use udping.Manager.Sweep.{expire-ok, expired_state, expired_state-IsWellFormed}
use udping.Manager.Swept.{
  is_stale, expired_at, expired_guids, reported_guids, AreEntries, IsSwept, entries_apart,
  expired_at-erase, expired_guids-erase, entries-erase, expired_guids-fresh, expired_guids-old,
  reported_guids-expired,
}

module _ {D : Type 0} where
  -- An entry that stays, and then the rest.
  keep_step :
      (now a : ℕ) (g : List ℕ) (es : Map (List ℕ) ℕ) (m m' : Manager D)
      → find g m.session_map ≡ some a
      → expired_at now m a ≡ false
      → All (λ e. (e.0 ≢ g) × (e.1 ≢ a)) es
      → IsSwept now es m m'
      → IsSwept now ((g, a) ∷ es) m m'
  keep_step now a g es m m' here fresh apart r = record {
    well_formed = r.well_formed;
    reported =
        r.reported ∙ ap (◌++◌ (reported_guids m)) (sym (expired_guids-fresh now a g es m fresh));
    gone = (λ h. cc, r.gone);
    kept = (
      λ h. (
        r.others g (All-map (λ e n. n.0) es apart) ∙ here,
        r.others_heap a (All-map (λ e n. n.1) es apart),
      ),
      r.kept,
    );
    others = λ i n. r.others i n.1;
    others_heap = λ b n. r.others_heap b n.1;
    sources_kept = r.sources_kept;
    received_kept = r.received_kept;
    keepalive_kept = r.keepalive_kept;
  }

  -- An entry that expires, and then the rest.
  expire_step :
      (now a : ℕ) (g : List ℕ) (c : ServerSession D) (es : Map (List ℕ) ℕ) (m m' : Manager D)
      → c.guid ≡ g
      → expired_at now m a ≡ true
      → All (λ e. (e.0 ≢ g) × (e.1 ≢ a)) es
      → IsSwept now es (expired_state now g a c m) m'
      → IsSwept now ((g, a) ∷ es) m m'
  expire_step now a g c es m m' named old apart r = record {
    well_formed = r.well_formed;
    reported =
        r.reported
        ∙ ap₂ ◌++◌
            (reported_guids-expired now a g c m ∙ ap (λ x. reported_guids m ++ (x ∷ [])) named)
            (expired_guids-erase now a g c es m apart)
        ∙ append_assoc (reported_guids m) (g ∷ []) (expired_guids now m es)
        ∙ ap (◌++◌ (reported_guids m)) (sym (expired_guids-old now a g es m old));
    gone = (
      λ h. (
        r.others g (All-map (λ e n. n.0) es apart) ∙ find-erase_self g m.session_map,
        r.others_heap a (All-map (λ e n. n.1) es apart) ∙ find-erase_self a m.heap,
      ),
      All-zip (λ e ne lost old'. lost (expired_at-erase now a e.1 g c m (λ q. ne.1 (sym q)) ∙ old'))
          es apart r.gone,
    );
    kept = (
      λ h. cc,
      All-zip
          (λ e ne stays fresh.
            let k = stays (expired_at-erase now a e.1 g c m (λ q. ne.1 (sym q)) ∙ fresh) in
            (k.0, k.1 ∙ find-erase_ne a e.1 m.heap (λ q. ne.1 (sym q))))
          es apart r.kept,
    );
    others = λ i n. r.others i n.1 ∙ find-erase_ne g i m.session_map n.0;
    others_heap = λ b n. r.others_heap b n.1 ∙ find-erase_ne a b m.heap n.0;
    sources_kept = r.sources_kept;
    received_kept = r.received_kept;
    keepalive_kept = r.keepalive_kept;
  }

  pub sweep_entries-fresh :
      (now : ℕ) (g : List ℕ) (a : ℕ) (es : Map (List ℕ) ℕ) (ds : ServerSession D) (m : Manager D)
      → 0 < a
      → deref m a ≡ ok ds
      → is_expired now m.keepalive ds ≡ false
      → sweep_entries now ((g, a) ∷ es) m ≡ sweep_entries now es m
  unfolding sweep_entries
  sweep_entries-fresh now g a es ds m pos e h = ground arith

  pub sweep_entries-old :
      (now : ℕ) (g : List ℕ) (a : ℕ) (es : Map (List ℕ) ℕ) (ds : ServerSession D) (m m1 : Manager D)
      → 0 < a
      → deref m a ≡ ok ds
      → is_expired now m.keepalive ds ≡ true
      → expire now g a ds m ≡ ok m1
      → sweep_entries now ((g, a) ∷ es) m ≡ sweep_entries now es m1
  unfolding sweep_entries
  sweep_entries-old now g a es ds m m1 pos e h k = ground arith

  pub sweep_entries-IsSwept :
      (now : ℕ) (es : Map (List ℕ) ℕ) (m : Manager D)
      → IsWellFormed m
      → IsSorted es
      → AreEntries m es
      → (m' : Manager D) × (sweep_entries now es m ≡ ok m') × IsSwept now es m m'
  unfolding sweep_entries expired_guids
  sweep_entries-IsSwept now [] m w sorted here = (
    m,
    refl,
    record {
      well_formed = w;
      reported = sym (append-nil (reported_guids m));
      gone = tt;
      kept = tt;
      others = λ g h. refl;
      others_heap = λ b h. refl;
      sources_kept = refl;
      received_kept = refl;
      keepalive_kept = refl;
    },
  )
  sweep_entries-IsSwept now ((g, a) ∷ es) m w sorted here =
      let (pos, (ds, held, named)) = w.live g a here.0 in
      let apart = entries_apart g a es m w here.0 sorted.0 here.1 in
      elim (Bool-cases (is_expired now m.keepalive ds)) [
        | inl old ↦
            let (c, _, same, e) = expire-ok now g a ds m w in
            let m1 = expired_state now g a c m in
            let (m', run, swept) =
              sweep_entries-IsSwept now es m1 (expired_state-IsWellFormed now g a c m w here.0)
                sorted.1 (entries-erase now a g c es m apart here.1) in
            (
              m',
              sweep_entries-old now g a es ds m m1 pos (deref-ok m a ds held) old e ∙ run,
              expire_step now a g c es m m' (same ∙ named)
                  (ap (is_stale now m.keepalive) held ∙ old) apart swept,
            )
        | inr fresh ↦
            let (m', run, swept) = sweep_entries-IsSwept now es m w sorted.1 here.1 in
            (
              m',
              sweep_entries-fresh now g a es ds m pos (deref-ok m a ds held) fresh ∙ run,
              keep_step now a g es m m' here.0 (ap (is_stale now m.keepalive) held ∙ fresh) apart
                  swept,
            )
      ]

  -- Under the invariant a sweep never reads a dangling pointer. It keeps the invariant, takes
  -- exactly the expired sessions off the map and deletes them, leaves every other session as it
  -- was, and reports each expired session once, in the order of the map.
  pub sweep_server_sessions-IsSwept :
      (now : ℕ) (m : Manager D)
      → IsWellFormed m
      → (m' : Manager D) × (sweep_server_sessions now m ≡ ok m') × IsSwept now m.session_map m m'
  unfolding sweep_server_sessions
  sweep_server_sessions-IsSwept now m w =
      sweep_entries-IsSwept now m.session_map m w w.sorted (sorted-entries m.session_map w.sorted)
