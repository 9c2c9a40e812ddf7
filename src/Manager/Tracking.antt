-- ===== src/Manager/Tracking.antt =====
-- A session over the packets of other sessions: nothing changes in it but its successor.
use udping.Base.{
  ℕ, ◌≡◌, ◌≢◌, sym, ap, ◌∙◌, subst, List, Option, none, some, arith, ◌==◌, Option-cases, Bool-cases,
  inl, inr, ℕ_discrete,
}
use udping.Map.{find, insert}
use udping.Map.Keys.{string_key, nat_key}
use udping.Map.Laws.{find-insert_ne, find-insert_self}
use udping.Packet.{Packet}
use udping.Session.{ServerSession, new_session}
use udping.Stats.{DoubleOps}
use udping.Manager.{
  Manager, ok, fault, deref, store, set_successor, link_predecessor, source_key, get_server_session,
}
use udping.Manager.WellFormed.{IsWellFormed, deref-ok, deref-fault, guid-injective}
use udping.Manager.Steps.{allocated_state, allocated_state-IsWellFormed, registered_state}
use udping.Manager.Linking.{
  IsSourceLive, link_predecessor-ok, get_server_session-run, source_apart, get_server_session-new,
}
use udping.Manager.Dangling.{ok-injective}

module _ {D : Type 0} where
  -- The guid leads to the session, up to its successor.
  pub record IsHeld (guid : List ℕ) (a : ℕ) (s : ServerSession D) (m : Manager D) : Type 0 where
    pub entry : find guid m.session_map ≡ some a
    pub now : ServerSession D
    pub held : find a m.heap ≡ some now
    pub same : now ≡ record s { successor = now.successor }

  -- Writing a successor keeps every session.
  store-IsHeld :
      (guid g : List ℕ) (a b : ℕ) (s p : ServerSession D) (m : Manager D)
      → find b m.heap ≡ some p
      → IsHeld guid a s m
      → IsHeld guid a s (store b (record p { successor = g }) m)
  unfolding store
  store-IsHeld guid g a b s p m found h = elim (ℕ_discrete b a) [
    | yes q ↦
        let one : some p ≡ some h.now = sym found ∙ ap (λ x. find x m.heap) q ∙ h.held in
        let p_now : p ≡ h.now = cc in
        record {
          entry = h.entry;
          now = record p { successor = g };
          held =
              ap (λ x. find x (insert b (record p { successor = g }) m.heap)) (sym q)
              ∙ find-insert_self b (record p { successor = g }) m.heap;
          same = ap (λ (t : ServerSession D). record t { successor = g }) (p_now ∙ h.same);
        }
    | no n ↦ record {
      entry = h.entry;
      now = h.now;
      held = find-insert_ne b a (record p { successor = g }) m.heap n ∙ h.held;
      same = h.same;
    }
  ]

  set_successor-IsHeld :
      (guid g : List ℕ) (a b : ℕ) (s p ds : ServerSession D) (m : Manager D)
      → find b m.heap ≡ some p
      → IsHeld guid a s m
      → IsHeld guid a s (set_successor b p g ds m)
  unfolding set_successor
  set_successor-IsHeld guid g a b s p ds m found h =
      elim (Bool-cases (p.client_start_time == ds.client_start_time)) [
        | inl same ↦ rw same (store-IsHeld guid g a b s p m found h)
        | inr other ↦ rw other h
      ]

  link_predecessor-IsHeld :
      (guid g : List ℕ) (a : ℕ) (s ds : ServerSession D) (o : Option ℕ) (m m' : Manager D)
      → link_predecessor o g ds m ≡ ok m'
      → IsHeld guid a s m
      → IsHeld guid a s m'
  unfolding link_predecessor
  link_predecessor-IsHeld guid g a s ds none m m' e h = subst (IsHeld guid a s) (ok-injective e) h
  link_predecessor-IsHeld guid g a s ds (some b) m m' e h = elim (Bool-cases (b == 0)) [
    | inl null ↦
        let run : ok m ≡ ok m' = rw null at e in subst (IsHeld guid a s) (ok-injective run) h
    | inr nonnull ↦ elim (Option-cases (find b m.heap)) [
      | inl gone ↦
          let lost : deref m b ≡ fault = deref-fault m b gone in
          let stuck : fault ≡ ok m' = rw (nonnull, lost) at e in absurd (cc)
      | inr (p, found) ↦
          let run : ok (set_successor b p g ds m) ≡ ok m' =
            rw (nonnull, deref-ok m b p found) at e in
          subst (IsHeld guid a s) (ok-injective run)
            (set_successor-IsHeld guid g a b s p ds m found h)
    ]
  ]

  allocated_state-IsHeld :
      (guid : List ℕ) (a : ℕ) (s ds : ServerSession D) (m : Manager D)
      → IsWellFormed m
      → IsHeld guid a s m
      → IsHeld guid a s (allocated_state ds m)
  unfolding allocated_state store
  allocated_state-IsHeld guid a s ds m w h =
      let below = w.allocated a h.now h.held in
      record {
        entry = h.entry;
        now = h.now;
        held = find-insert_ne m.next_address a ds m.heap (omega arith) ∙ h.held;
        same = h.same;
      }

  registered_state-IsHeld :
      (guid g source : List ℕ) (a b : ℕ) (s : ServerSession D) (m : Manager D)
      → g ≢ guid
      → IsHeld guid a s m
      → IsHeld guid a s (registered_state g source b m)
  registered_state-IsHeld guid g source a b s m ne h = record {
    entry = find-insert_ne g guid b m.session_map ne ∙ h.entry;
    now = h.now;
    held = h.held;
    same = h.same;
  }

  -- A call for another guid: another session is found, and this one is kept.
  pub record IsApart (guid : List ℕ) (a : ℕ) (s : ServerSession D) (b : ℕ) (m found : Manager D)
      : Type 0 where
    pub apart : a ≢ b
    pub kept : IsHeld guid a s found
    pub well_formed : IsWellFormed found
    pub other : ServerSession D
    pub other_held : find b found.heap ≡ some other
    pub same_keepalive : found.keepalive ≡ m.keepalive

  pub new-IsApart :
      (ops : DoubleOps D) (guid g peer : List ℕ) (port a b : ℕ) (p : Packet) (s : ServerSession D)
      (m found : Manager D)
      → IsWellFormed m
      → g ≢ guid
      → find g m.session_map ≡ none
      → IsSourceLive m (source_key peer port)
      → IsHeld guid a s m
      → get_server_session ops peer port g p m ≡ ok (b, found)
      → IsApart guid a s b m found
  new-IsApart ops guid g peer port a b p s m found w ne new live h e =
      let ds = new_session ops g peer port p in
      let source = source_key peer port in
      let fresh = allocated_state ds m in
      let (linked, run, l) =
        link_predecessor-ok m.next_address (find source m.source_map) g ds fresh
          (allocated_state-IsWellFormed ds m w) (λ c q. source_apart m source ds c w live q) in
      let kept : IsHeld guid a s (registered_state g source m.next_address linked) =
        registered_state-IsHeld guid g source a m.next_address s linked ne (
          link_predecessor-IsHeld guid g a s ds (find source m.source_map) fresh linked run
            (allocated_state-IsHeld guid a s ds m w h)) in
      let (n, run', wf, held, _, keeps) = get_server_session-new ops peer port g p m w new live in
      let same = ok-injective (sym e ∙ get_server_session-run ops peer port g p m linked new run) in
      let same' = ok-injective (sym e ∙ run') in
      let below = w.allocated a h.now h.held in
      let address : b ≡ m.next_address = ap (λ (r : ℕ × Manager D). r.0) same' in
      let state : n ≡ found = sym (ap (λ (r : ℕ × Manager D). r.1) same') in
      record {
        apart = omega (arith, address);
        kept = subst (IsHeld guid a s) (sym (ap (λ (r : ℕ × Manager D). r.1) same)) kept;
        well_formed = subst IsWellFormed state wf;
        other = ds;
        other_held =
            ap (λ x. find x found.heap) address
            ∙ ap (λ (x : Manager D). find m.next_address x.heap) (sym state)
            ∙ held;
        same_keepalive = ap (λ (x : Manager D). x.keepalive) (sym state) ∙ keeps;
      }

  pub known-IsApart :
      (ops : DoubleOps D) (guid g peer : List ℕ) (port a b c : ℕ) (p : Packet) (s : ServerSession D)
      (m found : Manager D)
      → IsWellFormed m
      → g ≢ guid
      → find g m.session_map ≡ some c
      → IsHeld guid a s m
      → get_server_session ops peer port g p m ≡ ok (b, found)
      → IsApart guid a s b m found
  unfolding get_server_session
  known-IsApart ops guid g peer port a b c p s m found w ne known h e =
      let run : ok (c, m) ≡ ok (b, found) = rw (known, get_server_session) at e in
      let same = ok-injective run in
      let address : c ≡ b = ap (λ (r : ℕ × Manager D). r.0) same in
      let state : m ≡ found = ap (λ (r : ℕ × Manager D). r.1) same in
      let (_, (t, held, _)) = w.live g c known in
      record {
        apart = λ q. ne (guid-injective m g guid a w (known ∙ ap some (address ∙ sym q)) h.entry);
        kept = subst (IsHeld guid a s) state h;
        well_formed = subst IsWellFormed state w;
        other = t;
        other_held =
            ap (λ x. find x found.heap) (sym address)
            ∙ ap (λ (x : Manager D). find c x.heap) (sym state)
            ∙ held;
        same_keepalive = ap (λ (x : Manager D). x.keepalive) (sym state);
      }
