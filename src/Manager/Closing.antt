-- ===== src/Manager/Closing.antt =====
-- How a session is closed for its report: up to the first number of its successor.
use udping.Base.{ℕ, ◌≡◌, ◌≢◌, sym, ap, ◌∙◌, List, none, some, true, false, arith, ◌==◌, sub32}
use udping.Map.{find}
use udping.Map.Keys.{string_key, nat_key}
use udping.Map.Laws.{find-erase, find-erase_ne}
use udping.Session.{ServerSession, record_seq}
use udping.Manager.{Manager, ok, close_gap, is_expired}
use udping.Manager.WellFormed.{IsWellFormed, deref-ok}
use udping.Manager.Sweep.{expired_state}
use udping.Manager.Swept.{expired_at, is_stale}

module _ {D : Type 0} where
  -- The session of a successor that is not expired itself.
  pub record IsFollowed (now : ℕ) (s : ServerSession D) (m : Manager D) (t : ServerSession D)
      : Type 0 where
    pub address : ℕ
    pub entry : find s.successor m.session_map ≡ some address
    pub held : find address m.heap ≡ some t
    pub alive : is_expired now m.keepalive t ≡ false

  -- The session as it is reported: with the number before the successor's first recorded, if the
  -- successor is known and not expired, and as it is, if the successor is not known.
  pub data IsClosed (now : ℕ) (s : ServerSession D) (m : Manager D) (closed : ServerSession D)
      : Type 0 where
    unknown : find s.successor m.session_map ≡ none → closed ≡ s → IsClosed now s m closed
    followed :
        (t : ServerSession D)
        → IsFollowed now s m t
        → closed ≡ record_seq s (sub32 t.min_seq 1)
        → IsClosed now s m closed

  pub close_gap-IsClosed :
      (now : ℕ) (s closed : ServerSession D) (m : Manager D)
      → IsWellFormed m
      → IsClosed now s m closed
      → close_gap s m ≡ ok closed
  unfolding close_gap
  close_gap-IsClosed now s closed m w (unknown e same) = rw (e, close_gap) (ap ok (sym same))
  close_gap-IsClosed now s closed m w (followed t f same) =
      let (pos, _) = w.live s.successor f.address f.entry in
      let nonnull : (f.address == 0) ≡ false = ground arith in
      rw (f.entry, close_gap, nonnull, deref-ok m f.address t f.held) (ap ok (sym same))

  pub expired_state-IsClosed :
      (now b : ℕ) (g : List ℕ) (c s closed : ServerSession D) (m : Manager D)
      → find g m.session_map ≡ some b
      → expired_at now m b ≡ true
      → IsClosed now s m closed
      → IsClosed now s (expired_state now g b c m) closed
  expired_state-IsClosed now b g c s closed m here old (unknown e same) =
      unknown (ground (arith, find-erase g s.successor m.session_map, e)) same
  expired_state-IsClosed now b g c s closed m here old (followed t f same) =
      let alive : expired_at now m f.address ≡ false =
        ap (is_stale now m.keepalive) f.held ∙ f.alive in
      let apart : b ≢ f.address =
        λ q. let no : true ≡ false = sym old ∙ ap (expired_at now m) q ∙ alive in cc in
      let other : g ≢ s.successor = λ q.
        let one : some b ≡ some f.address = sym here ∙ ap (λ k. find k m.session_map) q ∙ f.entry in
        let same_address : b ≡ f.address = cc in apart same_address in
      followed t
        (record {
          address = f.address;
          entry = find-erase_ne g s.successor m.session_map other ∙ f.entry;
          held = find-erase_ne b f.address m.heap apart ∙ f.held;
          alive = f.alive;
        })
        same
