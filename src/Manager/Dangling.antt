-- ===== src/Manager/Dangling.antt =====
-- `sourceMap` keeps the address of a session that the sweep has deleted, and the next new guid
-- of that source reads through it.
use udping.Base.{
  u32, ℕ, ◌+◌, ◌<◌, ◌≡◌, ◌≢◌, refl, sym, ap, ◌∙◌, subst, true, List, none, some, arith,
}
use udping.Map.{find}
use udping.Map.Keys.{string_key, nat_key}
use udping.Map.Laws.{find-insert_ne, All-find}
use udping.Packet.{Packet}
use udping.Session.{ServerSession, new_session}
use udping.Stats.{DoubleOps}
use udping.Manager.{
  Manager, ok, fault, store, link_predecessor, source_key, get_server_session, receive_ping,
  sweep_server_sessions,
}
use udping.Manager.WellFormed.{IsWellFormed, deref-fault}
use udping.Manager.Swept.{expired_at}
use udping.Manager.Expiry.{sweep_server_sessions-IsSwept}
use udping.Manager.Steps.{allocated_state}

pub ok-injective : {A : Type 0} {a b : A} → ok a ≡ ok b → a ≡ b
ok-injective e = cc

module _ {D : Type 0} (ops : DoubleOps D) (ph : Packet) (sec nsec : ℕ) (peer : List ℕ) (port : ℕ)
    (guid : List ℕ) (arrival now : ℕ) (m : Manager D) where
  link_dangling :
      (a : ℕ) (ds : ServerSession D) (n : Manager D)
      → 0 < a
      → find a n.heap ≡ none
      → link_predecessor (some a) guid ds n ≡ fault
  unfolding link_predecessor
  link_dangling a ds n pos gone = ground (arith, deref-fault n a gone)

  allocated_state-gone :
      (a : ℕ) (ds : ServerSession D)
      → a < m.next_address
      → find a m.heap ≡ none
      → find a (allocated_state ds m).heap ≡ none
  unfolding allocated_state store
  allocated_state-gone a ds below gone =
      let apart : m.next_address ≢ a = omega arith in
      find-insert_ne m.next_address a ds m.heap apart ∙ gone

  get_server_session-dangling :
      (a : ℕ)
      → 0 < a
      → a < m.next_address
      → find guid m.session_map ≡ none
      → find (source_key peer port) m.source_map ≡ some a
      → find a m.heap ≡ none
      → get_server_session ops peer port guid ph m ≡ fault
  unfolding get_server_session allocated_state
  get_server_session-dangling a pos below new source gone =
      let ds = new_session ops guid peer port ph in
      let stuck =
        link_dangling a ds (allocated_state ds m) pos (allocated_state-gone a ds below gone) in
      rw (new, get_server_session, source, stuck) refl

module _ {D : Type 0} (ops : DoubleOps D) (ph : Packet) (sec nsec : ℕ) (peer : List ℕ) (port : ℕ)
    (guid : List ℕ) (arrival now : ℕ) where
  pub receive_ping-dangling :
      (m : Manager D) (a : ℕ)
      → IsWellFormed m
      → find guid m.session_map ≡ none
      → find (source_key peer port) m.source_map ≡ some a
      → find a m.heap ≡ none
      → receive_ping ops ph sec nsec peer port guid arrival now m ≡ fault
  unfolding receive_ping
  receive_ping-dangling m a w new source gone =
      let counted = record m {
        interval_packets_received = u32 (m.interval_packets_received + 1);
      } in
      let (pos, below) = w.sources (source_key peer port) a source in
      let stuck =
        get_server_session-dangling ops ph sec nsec peer port guid arrival now counted a pos below
          new source gone in
      rw (stuck, receive_ping) refl

  -- From a well-formed manager, when a sweep deletes the session that its source was last seen
  -- with, the next packet of a new session from that source reads through the dangling pointer.
  pub receive_ping-after_sweep :
      (m m' : Manager D) (g : List ℕ) (a time : ℕ)
      → IsWellFormed m
      → find g m.session_map ≡ some a
      → expired_at time m a ≡ true
      → find (source_key peer port) m.source_map ≡ some a
      → sweep_server_sessions time m ≡ ok m'
      → find guid m'.session_map ≡ none
      → receive_ping ops ph sec nsec peer port guid arrival now m' ≡ fault
  receive_ping-after_sweep m m' g a time w here old source run new =
      let (n, run', swept) = sweep_server_sessions-IsSwept time m w in
      let same : n ≡ m' = ok-injective (sym run' ∙ run) in
      let gone = (All-find _ g a m.session_map swept.gone here old).1 in
      receive_ping-dangling m' a (subst IsWellFormed same swept.well_formed) new
        (subst (λ x. find (source_key peer port) x.source_map ≡ some a) same
          (ap (find (source_key peer port)) swept.sources_kept ∙ source))
        (subst (λ x. find a x.heap ≡ none) same gone)
