-- ===== src/Manager/Awake.antt =====
-- A session over a sweep or an alarm that comes in time.
use udping.Base.{ℕ, ◌+◌, ◌≤◌, ◌≡◌, refl, sym, ap, ◌∙◌, subst, List, arith, false, inl, inr}
use udping.Map.{Map}
use udping.Map.Keys.{string_key, nat_key}
use udping.Map.Laws.{All-find}
use udping.Session.{ServerSession}
use udping.Manager.{Manager, ok, sweep_server_sessions, handle_alarm}
use udping.Manager.Swept.{IsSwept, is_stale, expired_at}
use udping.Manager.Expiry.{sweep_server_sessions-IsSwept}
use udping.Manager.Receive.{counted-IsWellFormed}
use udping.Manager.Dangling.{ok-injective}
use udping.Manager.Reachable.{handle_alarm_lem}
use udping.Manager.WellFormed.{IsWellFormed}
use udping.Manager.Tracking.{IsHeld}

module _ {D : Type 0} where
  -- The state behind some events.
  pub record IsTracked (guid : List ℕ) (a : ℕ) (s : ServerSession D) (m m' : Manager D)
      : Type 0 where
    pub well_formed : IsWellFormed m'
    pub held : IsHeld guid a s m'
    pub same_keepalive : m'.keepalive ≡ m.keepalive

  pub last_arrival-IsHeld :
      {guid : List ℕ} {a : ℕ} {s : ServerSession D} {m : Manager D} (h : IsHeld guid a s m)
      → h.now.last_arrival ≡ s.last_arrival
  last_arrival-IsHeld h = ap (λ (t : ServerSession D). t.last_arrival) h.same

  swept-IsTracked :
      (guid : List ℕ) (a now : ℕ) (s : ServerSession D) (m m' : Manager D)
      → IsHeld guid a s m
      → now ≤ s.last_arrival + m.keepalive
      → IsSwept now m.session_map m m'
      → IsTracked guid a s m m'
  swept-IsTracked guid a now s m m' h recent swept =
      let last = last_arrival-IsHeld h in
      let young : expired_at now m a ≡ false =
        ap (is_stale now m.keepalive) h.held ∙ ground arith in
      let (entry, kept) = All-find _ guid a m.session_map swept.kept h.entry young in
      record {
        well_formed = swept.well_formed;
        held = record { entry = entry; now = h.now; held = kept ∙ h.held; same = h.same };
        same_keepalive = swept.keepalive_kept;
      }

  -- A sweep in time keeps the session.
  pub sweep-IsTracked :
      (guid : List ℕ) (a now : ℕ) (s : ServerSession D) (m m' : Manager D)
      → IsWellFormed m
      → IsHeld guid a s m
      → now ≤ s.last_arrival + m.keepalive
      → sweep_server_sessions now m ≡ ok m'
      → IsTracked guid a s m m'
  sweep-IsTracked guid a now s m m' w h recent e =
      let (n, run, swept) = sweep_server_sessions-IsSwept now m w in
      subst (IsTracked guid a s m) (ok-injective (sym run ∙ e))
        (swept-IsTracked guid a now s m n h recent swept)

  pub counted-IsHeld :
      (guid : List ℕ) (a n : ℕ) (s : ServerSession D) (m : Manager D)
      → IsHeld guid a s m
      → IsHeld guid a s (record m { interval_packets_received = n })
  counted-IsHeld guid a n s m h = record {
    entry = h.entry;
    now = h.now;
    held = h.held;
    same = h.same;
  }

  counted-IsTracked :
      (guid : List ℕ) (a n : ℕ) (s : ServerSession D) (m m' : Manager D)
      → IsTracked guid a s m m'
      → IsTracked guid a s m (record m' { interval_packets_received = n })
  counted-IsTracked guid a n s m m' t = record {
    well_formed = counted-IsWellFormed m' n t.well_formed;
    held = counted-IsHeld guid a n s m' t.held;
    same_keepalive = t.same_keepalive;
  }

  pub alarm-IsTracked :
      (guid : List ℕ) (a now : ℕ) (s : ServerSession D) (m m' : Manager D)
      → IsWellFormed m
      → IsHeld guid a s m
      → now ≤ s.last_arrival + m.keepalive
      → handle_alarm now m ≡ ok m'
      → IsTracked guid a s m m'
  alarm-IsTracked guid a now s m m' w h recent e = elim (handle_alarm_lem now m w) [
    | inl (idle, (n, run, swept)) ↦
        subst (IsTracked guid a s m) (ok-injective (sym run ∙ e))
          (counted-IsTracked guid a 0 s m n (swept-IsTracked guid a now s m n h recent swept))
    | inr (busy, run) ↦ subst (IsTracked guid a s m) (ok-injective (sym run ∙ e)) (
        counted-IsTracked guid a 0 s m m
          (record { well_formed = w; held = h; same_keepalive = refl }))
  ]

  pub hosts-IsHeld :
      (hosts : Map ℕ (List ℕ)) (guid : List ℕ) (a : ℕ) (s : ServerSession D) (m : Manager D)
      → IsHeld guid a s m
      → IsHeld guid a s (record m { host_map = hosts })
  hosts-IsHeld hosts guid a s m h = record {
    entry = h.entry;
    now = h.now;
    held = h.held;
    same = h.same;
  }

  pub hosts-IsTracked :
      (hosts : Map ℕ (List ℕ)) (guid : List ℕ) (a : ℕ) (s : ServerSession D) (m m' : Manager D)
      → IsTracked guid a s (record m { host_map = hosts }) m'
      → IsTracked guid a s m m'
  hosts-IsTracked hosts guid a s m m' t = record {
    well_formed = t.well_formed;
    held = t.held;
    same_keepalive = t.same_keepalive;
  }
