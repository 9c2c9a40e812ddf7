-- ===== src/Manager/Sweep.antt =====
-- One entry of the sweep, under the invariant: nothing it reads is a dangling pointer, and what
-- it leaves behind is known.
use udping.Base.{
  ℕ, ◌≡◌, ◌≢◌, refl, ap, ◌∙◌, List, [], ◌∷◌, ◌++◌, some, arith, Option-cases, inl, inr, sub32,
}
use udping.Map.{find, erase}
use udping.Map.Keys.{string_key, nat_key}
use udping.Map.Laws.{erase-IsSorted, find-erase-some, find-erase_ne}
use udping.Session.{ServerSession, record_seq, with_target}
use udping.Manager.{Manager, ok, close_gap, expire}
use udping.Manager.WellFormed.{IsWellFormed, IsLive, deref-ok, guid-injective}

module _ {D : Type 0} where
  -- The lookups of the successor succeed, and change the sequence range alone.
  pub close_gap-ok :
      (ds : ServerSession D) (m : Manager D)
      → IsWellFormed m
      → (c : ServerSession D) × (close_gap ds m ≡ ok c) × (c.guid ≡ ds.guid) × (c.stats ≡ ds.stats)
  unfolding close_gap record_seq
  close_gap-ok ds m w = elim (Option-cases (find ds.successor m.session_map)) [
    | inl e ↦ (ds, rw (e, close_gap) refl, refl, refl)
    | inr (a, e) ↦
        let (pos, (s, es, _)) = w.live ds.successor a e in
        (
          record_seq ds (sub32 s.min_seq 1),
          rw (e, close_gap) (ground (arith, pos, deref-ok m a s es)),
          refl,
          refl,
        )
  ]

  -- The state in which an expired session is gone and reported.
  abbrev pub expired_state : ℕ → List ℕ → ℕ → ServerSession D → Manager D → Manager D
  expired_state now guid address closed m = record m {
    reports = m.reports ++ (record { session = with_target closed; time = now } ∷ []);
    heap = erase address m.heap;
    session_map = erase guid m.session_map;
  }

  pub expire-ok :
      (now : ℕ) (guid : List ℕ) (address : ℕ) (ds : ServerSession D) (m : Manager D)
      → IsWellFormed m
      → (c : ServerSession D) × (close_gap ds m ≡ ok c)
        × (c.guid ≡ ds.guid)
        × (expire now guid address ds m ≡ ok (expired_state now guid address c m))
  unfolding expire
  expire-ok now guid address ds m w =
      let (c, e, g, _) = close_gap-ok ds m w in (c, e, g, rw (e, expire) refl)

  expired-IsLive :
      (now : ℕ) (guid : List ℕ) (address : ℕ) (c : ServerSession D) (m : Manager D)
      → IsWellFormed m
      → find guid m.session_map ≡ some address
      → (g : List ℕ) (a : ℕ) → find g (erase guid m.session_map) ≡ some a
      → IsLive (expired_state now guid address c m) g a
  expired-IsLive now guid address c m w here g a e =
      let (ne, before) = find-erase-some guid g a m.session_map e in
      let (pos, (s, held, named)) = w.live g a before in
      let apart : address ≢ a = λ q. ne (guid-injective m guid g a w (here ∙ ap some q) before) in
      (pos, (s, find-erase_ne address a m.heap apart ∙ held, named))

  pub expired_state-IsWellFormed :
      (now : ℕ) (guid : List ℕ) (address : ℕ) (c : ServerSession D) (m : Manager D)
      → IsWellFormed m
      → find guid m.session_map ≡ some address
      → IsWellFormed (expired_state now guid address c m)
  expired_state-IsWellFormed now guid address c m w here = record {
    sorted = erase-IsSorted guid m.session_map w.sorted;
    live = expired-IsLive now guid address c m w here;
    allocated = λ a s e. w.allocated a s (find-erase-some address a s m.heap e).1;
    positive = w.positive;
    sources = w.sources;
  }
