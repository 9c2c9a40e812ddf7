-- ===== src/Manager/Swept.antt =====
-- What a sweep does, stated without the code: which sessions go, which stay, what is reported.
use mathlib.Core.Path.{ap₂}
use mathlib.Core.Bool.{false≢true}
use mathlib.Core.List.{map-append}
use udping.Base.{
  ℕ, ◌≡◌, ◌≢◌, refl, sym, ap, ◌∙◌, Bool, true, false, List, [], ◌∷◌, ◌++◌, Option, none, some,
  if◌then◌else◌, map, All, All-zip, subst,
}
use udping.Map.{Map, find}
use udping.Map.Keys.{string_key, nat_key, str_before, str_before_irrefl}
use udping.Map.Laws.{find-erase_ne, IsAfter}
use udping.Session.{ServerSession, with_target}
use udping.Manager.{Manager, is_expired}
use udping.Manager.WellFormed.{IsWellFormed, guid-injective}
use udping.Manager.Sweep.{expired_state}

module _ {D : Type 0} where
  abbrev pub is_stale : ℕ → ℕ → Option (ServerSession D) → Bool
  is_stale now keepalive none = false
  is_stale now keepalive (some s) = is_expired now keepalive s

  -- The session at an address had no packet for longer than the keepalive time.
  abbrev pub expired_at : ℕ → Manager D → ℕ → Bool
  expired_at now m address = is_stale now m.keepalive (find address m.heap)

  -- The guids that a sweep reports.
  unfoldable pub expired_guids : ℕ → Manager D → Map (List ℕ) ℕ → List (List ℕ)
  expired_guids now m [] = []
  expired_guids now m ((g, a) ∷ es) =
      let rest = expired_guids now m es in if expired_at now m a then g ∷ rest else rest

  abbrev pub reported_guids : Manager D → List (List ℕ)
  reported_guids m = map (λ r. r.session.guid) m.reports

  -- The entries are in order, and each is found in the map.
  abbrev pub AreEntries : Manager D → Map (List ℕ) ℕ → Type 0
  AreEntries m = All (λ e. find e.0 m.session_map ≡ some e.1)

  -- What a sweep of some entries does to the rest of the state.
  pub record IsSwept (now : ℕ) (es : Map (List ℕ) ℕ) (m m' : Manager D) : Type 0 where
    pub well_formed : IsWellFormed m'
    pub reported : reported_guids m' ≡ reported_guids m ++ expired_guids now m es
    pub gone :
        All
          (λ e.
            expired_at now m e.1 ≡ true
            → (find e.0 m'.session_map ≡ none) × (find e.1 m'.heap ≡ none))
          es
    pub kept :
        All
          (λ e.
            expired_at now m e.1 ≡ false
            → (find e.0 m'.session_map ≡ some e.1) × (find e.1 m'.heap ≡ find e.1 m.heap))
          es
    pub others : (g : List ℕ) → All (λ e. e.0 ≢ g) es → find g m'.session_map ≡ find g m.session_map
    pub others_heap : (b : ℕ) → All (λ e. e.1 ≢ b) es → find b m'.heap ≡ find b m.heap
    pub sources_kept : m'.source_map ≡ m.source_map
    pub received_kept : m'.interval_packets_received ≡ m.interval_packets_received
    pub keepalive_kept : m'.keepalive ≡ m.keepalive

  -- The entries behind one have other guids and other addresses.
  pub entries_apart :
      (g : List ℕ) (a : ℕ) (es : Map (List ℕ) ℕ) (m : Manager D)
      → IsWellFormed m
      → find g m.session_map ≡ some a
      → IsAfter g es
      → AreEntries m es
      → All (λ e. (e.0 ≢ g) × (e.1 ≢ a)) es
  entries_apart g a es m w here after entries =
      All-zip
        (λ e later found.
          let ne : e.0 ≢ g = λ q.
            false≢true (sym (str_before_irrefl g) ∙ subst (λ x. str_before g x ≡ true) q later) in
          (ne, λ q. ne (guid-injective m e.0 g a w (found ∙ ap some q) here)))
        es after entries

  pub expired_at-erase :
      (now a b : ℕ) (g : List ℕ) (c : ServerSession D) (m : Manager D)
      → a ≢ b
      → expired_at now (expired_state now g a c m) b ≡ expired_at now m b
  expired_at-erase now a b g c m h = ap (is_stale now m.keepalive) (find-erase_ne a b m.heap h)

  pub expired_guids-erase :
      (now a : ℕ) (g : List ℕ) (c : ServerSession D) (es : Map (List ℕ) ℕ) (m : Manager D)
      → All (λ e. (e.0 ≢ g) × (e.1 ≢ a)) es
      → expired_guids now (expired_state now g a c m) es ≡ expired_guids now m es
  unfolding expired_guids
  expired_guids-erase now a g c [] m h = refl
  expired_guids-erase now a g c ((i, b) ∷ es) m h =
      ap₂ (λ t rest. if t then i ∷ rest else rest)
        (expired_at-erase now a b g c m (λ q. h.0.1 (sym q)))
        (expired_guids-erase now a g c es m h.1)

  -- The map without an entry still has the others.
  pub entries-erase :
      (now a : ℕ) (g : List ℕ) (c : ServerSession D) (es : Map (List ℕ) ℕ) (m : Manager D)
      → All (λ e. (e.0 ≢ g) × (e.1 ≢ a)) es
      → AreEntries m es
      → AreEntries (expired_state now g a c m) es
  entries-erase now a g c es m =
      All-zip (λ e ne found. find-erase_ne g e.0 m.session_map (λ q. ne.0 (sym q)) ∙ found) es

  pub expired_guids-fresh :
      (now a : ℕ) (g : List ℕ) (es : Map (List ℕ) ℕ) (m : Manager D)
      → expired_at now m a ≡ false
      → expired_guids now m ((g, a) ∷ es) ≡ expired_guids now m es
  unfolding expired_guids
  expired_guids-fresh now a g es m h = rw h

  pub expired_guids-old :
      (now a : ℕ) (g : List ℕ) (es : Map (List ℕ) ℕ) (m : Manager D)
      → expired_at now m a ≡ true
      → expired_guids now m ((g, a) ∷ es) ≡ g ∷ expired_guids now m es
  unfolding expired_guids
  expired_guids-old now a g es m h = rw h

  pub reported_guids-expired :
      (now a : ℕ) (g : List ℕ) (c : ServerSession D) (m : Manager D)
      → reported_guids (expired_state now g a c m) ≡ reported_guids m ++ (c.guid ∷ [])
  unfolding with_target
  reported_guids-expired now a g c m = map-append (λ r. r.session.guid) m.reports _
