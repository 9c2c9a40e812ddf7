-- ===== src/Manager/Linking.antt =====
-- `getServerSession` for a new guid: the last session of its source, if it has one, is linked to
-- the new one.
use udping.Base.{
  ℕ, ◌≡◌, ◌≢◌, refl, sym, ◌∙◌, List, Option, none, some, arith, inl, inr, ◌==◌, Bool-cases,
}
use udping.Map.{find}
use udping.Map.Keys.{string_key, nat_key}
use udping.Map.Laws.{find-insert_ne, find-insert_self}
use udping.Packet.{Packet}
use udping.Session.{ServerSession, new_session}
use udping.Stats.{DoubleOps}
use udping.Manager.{
  Manager, ok, store, set_successor, link_predecessor, source_key, get_server_session,
}
use udping.Manager.WellFormed.{IsWellFormed, deref-ok}
use udping.Manager.Steps.{
  store-IsWellFormed, allocated_state, allocated_state-IsWellFormed, registered_state,
  registered_state-IsWellFormed,
}

module _ {D : Type 0} where
  -- The last session of a source, if the source has one, is still on the heap.
  abbrev pub IsSourceLive : Manager D → List ℕ → Type 0
  IsSourceLive m source =
      (a : ℕ) → find source m.source_map ≡ some a → (s : ServerSession D) × (find a m.heap ≡ some s)

  -- A step that changes live sessions of the heap only, under the same guids, and none at `fixed`.
  pub record IsLinked (fixed : ℕ) (m m' : Manager D) : Type 0 where
    pub well_formed : IsWellFormed m'
    pub same_heap : find fixed m'.heap ≡ find fixed m.heap
    pub same_sessions : m'.session_map ≡ m.session_map
    pub same_sources : m'.source_map ≡ m.source_map
    pub same_keepalive : m'.keepalive ≡ m.keepalive

  set_successor-IsLinked :
      (fixed address : ℕ) (p : ServerSession D) (guid : List ℕ) (ds : ServerSession D)
      (m : Manager D)
      → IsWellFormed m
      → find address m.heap ≡ some p
      → address ≢ fixed
      → IsLinked fixed m (set_successor address p guid ds m)
  unfolding set_successor store
  set_successor-IsLinked fixed address p guid ds m w held apart =
      elim (Bool-cases (p.client_start_time == ds.client_start_time)) [
        | inl same ↦ rw same (record {
          well_formed = store-IsWellFormed m address p (record p { successor = guid }) w held refl;
          same_heap = find-insert_ne address fixed _ m.heap apart;
          same_sessions = refl;
          same_sources = refl;
          same_keepalive = refl;
        })
        | inr other ↦ rw other (record {
          well_formed = w;
          same_heap = refl;
          same_sessions = refl;
          same_sources = refl;
          same_keepalive = refl;
        })
      ]

  pub link_predecessor-ok :
      (fixed : ℕ) (o : Option ℕ) (guid : List ℕ) (ds : ServerSession D) (m : Manager D)
      → IsWellFormed m
      → ((a : ℕ) → o ≡ some a → (a ≢ fixed) × ((s : ServerSession D) × (find a m.heap ≡ some s)))
      → (m' : Manager D) × (link_predecessor o guid ds m ≡ ok m') × IsLinked fixed m m'
  unfolding link_predecessor
  link_predecessor-ok fixed none guid ds m w live = (
    m,
    refl,
    record {
      well_formed = w;
      same_heap = refl;
      same_sessions = refl;
      same_sources = refl;
      same_keepalive = refl;
    },
  )
  link_predecessor-ok fixed (some a) guid ds m w live =
      let (apart, (s, held)) = live a refl in
      elim (Bool-cases (a == 0)) [
        | inl null ↦ (
          m,
          rw null refl,
          record {
            well_formed = w;
            same_heap = refl;
            same_sessions = refl;
            same_sources = refl;
            same_keepalive = refl;
          },
        )
        | inr nonnull ↦ (
          set_successor a s guid ds m,
          rw (nonnull, deref-ok m a s held) refl,
          set_successor-IsLinked fixed a s guid ds m w held apart,
        )
      ]

  pub source_apart :
      (m : Manager D) (source : List ℕ) (ds : ServerSession D) (a : ℕ)
      → IsWellFormed m
      → IsSourceLive m source
      → find source m.source_map ≡ some a
      → (a ≢ m.next_address)
        × ((s : ServerSession D) × (find a (allocated_state ds m).heap ≡ some s))
  unfolding allocated_state store
  source_apart m source ds a w live e =
      let (s, held) = live a e in
      let below = w.allocated a s held in
      let apart : a ≢ m.next_address = omega arith in
      (apart, (s, find-insert_ne m.next_address a ds m.heap (λ q. apart (sym q)) ∙ held))

  allocated_state-find :
      (ds : ServerSession D) (m : Manager D)
      → find m.next_address (allocated_state ds m).heap ≡ some ds
  unfolding allocated_state store
  allocated_state-find ds m = find-insert_self m.next_address ds m.heap

  allocated_state-keepalive :
      (ds : ServerSession D) (m : Manager D) → (allocated_state ds m).keepalive ≡ m.keepalive
  unfolding allocated_state store
  allocated_state-keepalive ds m = refl

  new_session-guid :
      (ops : DoubleOps D) (guid peer : List ℕ) (port : ℕ) (p : Packet)
      → (new_session ops guid peer port p).guid ≡ guid
  unfolding new_session
  new_session-guid ops guid peer port p = refl

  pub get_server_session-run :
      (ops : DoubleOps D) (peer : List ℕ) (port : ℕ) (guid : List ℕ) (p : Packet)
      (m linked : Manager D)
      → find guid m.session_map ≡ none
      → link_predecessor
          (find (source_key peer port) m.source_map)
          guid
          (new_session ops guid peer port p)
          (allocated_state (new_session ops guid peer port p) m)
        ≡ ok linked
      → get_server_session ops peer port guid p m
        ≡ ok (m.next_address, registered_state guid (source_key peer port) m.next_address linked)
  unfolding get_server_session allocated_state
  get_server_session-run ops peer port guid p m linked new run =
      rw (new, get_server_session, run) refl

  -- A new guid: the session that is made for it is found under the guid, and nothing faults.
  pub get_server_session-new :
      (ops : DoubleOps D) (peer : List ℕ) (port : ℕ) (guid : List ℕ) (p : Packet) (m : Manager D)
      → IsWellFormed m
      → find guid m.session_map ≡ none
      → IsSourceLive m (source_key peer port)
      → (m' : Manager D) × (get_server_session ops peer port guid p m ≡ ok (m.next_address, m'))
        × IsWellFormed m'
        × (find m.next_address m'.heap ≡ some (new_session ops guid peer port p))
        × (find guid m'.session_map ≡ some m.next_address)
        × (m'.keepalive ≡ m.keepalive)
  unfolding get_server_session
  get_server_session-new ops peer port guid p m w new live =
      let ds = new_session ops guid peer port p in
      let source = source_key peer port in
      let fresh = allocated_state ds m in
      let (linked, run, l) =
        link_predecessor-ok m.next_address (find source m.source_map) guid ds fresh
          (allocated_state-IsWellFormed ds m w) (λ a e. source_apart m source ds a w live e) in
      let held : find m.next_address linked.heap ≡ some ds =
        l.same_heap ∙ allocated_state-find ds m in
      (
        registered_state guid source m.next_address linked,
        get_server_session-run ops peer port guid p m linked new run,
        registered_state-IsWellFormed guid source m.next_address linked l.well_formed
            (w.positive, (ds, held, new_session-guid ops guid peer port p)),
        held,
        find-insert_self guid m.next_address linked.session_map,
        l.same_keepalive ∙ allocated_state-keepalive ds m,
      )
