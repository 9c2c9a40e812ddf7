-- ===== src/Manager/Ledger.antt =====
-- An account of the server's events by guids, sources and times alone: whether a packet can come
-- after the session that it needs is deleted.
pub mod Laws
pub mod Agreement
pub mod Arrivals
pub mod Acceptance
use udping.Base.{ℕ, ◌+◌, Bool, true, false, ltb, List, [], ◌∷◌, Option, none, some, if◌then◌else◌}
use udping.Map.{Map, find, insert}
use udping.Map.Keys.{string_key}
use udping.Manager.{source_key}
use udping.Manager.Events.{Received, Event, ping, alarm}

-- For each guid the arrival of its last packet, or none once it was silent for longer than the
-- keepalive time; for each source the last guid that was new there.
pub record Ledger : Type 0 where
  pub guids : Map (List ℕ) (Option ℕ)
  pub sources : Map (List ℕ) (List ℕ)

abbrev pub empty : Ledger
empty = record { guids = []; sources = [] }

abbrev pub fade : ℕ → ℕ → Option ℕ → Option ℕ
fade keepalive now none = none
fade keepalive now (some last) = if ltb (last + keepalive) now then none else some last

abbrev pub silence : ℕ → ℕ → Map (List ℕ) (Option ℕ) → Map (List ℕ) (Option ℕ)
silence keepalive now [] = []
silence keepalive now ((g, o) ∷ gs) = (g, fade keepalive now o) ∷ silence keepalive now gs

-- The time is `now`.
abbrev pub pass : ℕ → ℕ → Ledger → Ledger
pass keepalive now l = record l { guids = silence keepalive now l.guids }

abbrev pub is_awake : Option (Option ℕ) → Bool
is_awake (some (some last)) = true
is_awake (some none) = false
is_awake none = false

-- The arrival of a packet.
unfoldable pub arrive : Received → Map (List ℕ) (List ℕ) → Ledger → Ledger
arrive r sources l = record { guids = insert r.guid (some r.arrival) l.guids; sources = sources }

-- A new guid needs that the last session of its source, if there is one, is not silent.
unfoldable pub note_new : Received → Option (List ℕ) → Ledger → Option Ledger
unfolding arrive source_key
note_new r none l = some (arrive r (insert (source_key r.peer r.port) r.guid l.sources) l)
note_new r (some g) l =
    if is_awake (find g l.guids)
    then some (arrive r (insert (source_key r.peer r.port) r.guid l.sources) l)
    else none

-- A guid that was silent for longer than the keepalive time does not come again.
unfoldable pub note : Received → Option (Option ℕ) → Ledger → Option Ledger
unfolding arrive note_new
note r (some (some last)) l = some (arrive r l.sources l)
note r (some none) l = none
note r none l = note_new r (find (source_key r.peer r.port) l.sources) l

unfoldable pub note_ping : ℕ → Received → Ledger → Option Ledger
unfolding note
note_ping keepalive r l =
    if ltb (r.arrival + keepalive) r.now then none else note r (find r.guid l.guids) l

-- The ledger after some events, if each packet finds what it needs.
unfoldable pub account : ℕ → List Event → Ledger → Option Ledger
unfolding note_ping
account keepalive [] l = some l
account keepalive (alarm now ∷ es) l = account keepalive es (pass keepalive now l)
account keepalive (ping r ∷ es) l = elim (note_ping keepalive r l) [
  | none ↦ none
  | some next ↦ account keepalive es (pass keepalive r.now next)
]
