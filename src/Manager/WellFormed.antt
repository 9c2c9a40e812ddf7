-- ===== src/Manager/WellFormed.antt =====
-- The invariant of the session manager, and what it says of pointers.
use udping.Base.{ℕ, ◌<◌, ◌≡◌, List, none, some, arith}
use udping.Map.{Map, find}
use udping.Map.Keys.{string_key, nat_key}
use udping.Map.Laws.{IsSorted}
use udping.Session.{ServerSession}
use udping.Manager.{Manager, ok, fault, deref, init}

module _ {D : Type 0} where
  -- A guid of the map leads to a live session of that guid.
  abbrev pub IsLive : Manager D → List ℕ → ℕ → Type 0
  IsLive m guid address =
      (0 < address) × ((s : ServerSession D) × (find address m.heap ≡ some s) × (s.guid ≡ guid))

  -- The session map is in order and leads to live sessions of its guids; every address in use was
  -- handed out before `next_address`.
  pub record IsWellFormed (m : Manager D) : Type 0 where
    pub sorted : IsSorted m.session_map
    pub live : (g : List ℕ) (a : ℕ) → find g m.session_map ≡ some a → IsLive m g a
    pub allocated : (a : ℕ) (s : ServerSession D) → find a m.heap ≡ some s → a < m.next_address
    pub positive : 0 < m.next_address
    pub sources :
        (k : List ℕ) (a : ℕ) → find k m.source_map ≡ some a → (0 < a) × (a < m.next_address)

  pub init-IsWellFormed : (keepalive : ℕ) → IsWellFormed (init keepalive)
  unfolding init find
  init-IsWellFormed keepalive = record {
    sorted = tt;
    live = λ g a e. cc;
    allocated = λ a s e. cc;
    positive = omega arith;
    sources = λ k a e. cc;
  }

  pub deref-ok :
      (m : Manager D) (a : ℕ) (s : ServerSession D) → find a m.heap ≡ some s → deref m a ≡ ok s
  unfolding deref
  deref-ok m a s e = rw (e, deref)

  pub deref-fault : (m : Manager D) (a : ℕ) → find a m.heap ≡ none → deref m a ≡ fault
  unfolding deref
  deref-fault m a e = rw (e, deref)

  -- Two guids of the map that lead to one session are the same guid.
  pub guid-injective :
      (m : Manager D) (g h : List ℕ) (a : ℕ)
      → IsWellFormed m
      → find g m.session_map ≡ some a
      → find h m.session_map ≡ some a
      → g ≡ h
  guid-injective m g h a w e f =
      let (_, (s, es, gs)) = w.live g a e in let (_, (t, et, ht)) = w.live h a f in cc

  -- The names of hosts play no part.
  pub hosts-IsWellFormed :
      (hosts : Map ℕ (List ℕ)) (m : Manager D)
      → IsWellFormed m
      → IsWellFormed (record m { host_map = hosts })
  hosts-IsWellFormed hosts m w = record {
    sorted = w.sorted;
    live = w.live;
    allocated = w.allocated;
    positive = w.positive;
    sources = w.sources;
  }
