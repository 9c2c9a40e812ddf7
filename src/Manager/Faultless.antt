-- ===== src/Manager/Faultless.antt =====
-- Streams on which the server never faults.
use udping.Base.{ℕ, ◌≡◌, refl, inl, inr, Option-cases, sym, subst, List, [], ◌∷◌, none, some}
use udping.Stats.{DoubleOps}
use udping.Manager.{Manager, ok, init}
use udping.Manager.WellFormed.{IsWellFormed, init-IsWellFormed, hosts-IsWellFormed}
use udping.Manager.Events.{Event, ping, alarm, handle, run_events}
use udping.Manager.Ledger.{Ledger, empty, pass, note_ping, account}
use udping.Manager.Ledger.Agreement.{Agrees, alarm-Agrees, hosts-Agrees, init-Agrees}
use udping.Manager.Ledger.Acceptance.{note_ping-IsTaken}

module _ {D : Type 0} (ops : DoubleOps D) where
  -- A run that ends, and what the ledger says of its end.
  pub record IsServed (keepalive : ℕ) (es : List Event) (m : Manager D) (l : Ledger) : Type 0 where
    pub after : Manager D
    pub run : run_events ops es m ≡ ok after
    pub well_formed : IsWellFormed after
    pub agrees : Agrees keepalive l after

  IsServed-cons :
      (keepalive : ℕ) (e : Event) (es : List Event) (m n : Manager D) (l : Ledger)
      → handle ops e m ≡ ok n
      → IsServed keepalive es n l
      → IsServed keepalive (e ∷ es) m l
  unfolding run_events
  IsServed-cons keepalive e es m n l first v = record {
    after = v.after;
    run = rw (run_events, first) v.run;
    well_formed = v.well_formed;
    agrees = v.agrees;
  }

  account-IsServed :
      (keepalive : ℕ) (es : List Event) (l last : Ledger) (m : Manager D)
      → IsWellFormed m
      → Agrees keepalive l m
      → account keepalive es l ≡ some last
      → IsServed keepalive es m last
  unfolding account run_events handle
  account-IsServed keepalive [] l last m w v e =
      let same : l ≡ last = cc in
      record {
        after = m;
        run = refl;
        well_formed = w;
        agrees = subst (λ x. Agrees keepalive x m) same v;
      }
  account-IsServed keepalive (alarm now ∷ es) l last m w v e =
      let (n, run, w', v') = alarm-Agrees keepalive now l m w v in
      IsServed-cons keepalive (alarm now) es m n last run
        (account-IsServed keepalive es (pass keepalive now l) last n w' v' e)
  account-IsServed keepalive (ping r ∷ es) l last m w v e =
      elim (Option-cases (note_ping keepalive r l)) [
        | inl rejected ↦ let stuck : none ≡ some last = rw (account, rejected) at e in absurd (cc)
        | inr (next, noted) ↦
            let rest : account keepalive es (pass keepalive r.now next) ≡ some last =
              rw (account, noted) at e in
            let same = sym v.same_keepalive in
            let named = record m { host_map = r.hosts } in
            let t =
              note_ping-IsTaken ops r named l next (hosts-IsWellFormed r.hosts m w)
                (subst (λ k. Agrees k l named) same (hosts-Agrees r.hosts keepalive l m v))
                (subst (λ k. note_ping k r l ≡ some next) same noted) in
            IsServed-cons keepalive (ping r) es m t.after last t.run (
              account-IsServed keepalive es (pass keepalive r.now next) last t.after t.well_formed
                (subst (λ k. Agrees k (pass k r.now next) t.after) v.same_keepalive t.agrees) rest)
      ]

  -- From the start of the server: if the ledger accounts for the packets and alarms, that is, if
  -- no guid comes again after it was silent for longer than the keepalive time, a new guid comes
  -- from a source only while the last guid that was new there is not silent for longer, and no
  -- packet's sweep is later than the keepalive time after its arrival, then the server never
  -- faults, and at the end each guid that is not silent leads to its session.
  pub run_events-IsServed :
      (keepalive : ℕ) (es : List Event) (last : Ledger)
      → account keepalive es empty ≡ some last
      → IsServed keepalive es (init keepalive) last
  run_events-IsServed keepalive es last e =
      account-IsServed keepalive es empty last (init keepalive) (init-IsWellFormed keepalive)
        (init-Agrees keepalive) e
