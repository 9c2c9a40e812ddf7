-- ===== src/Manager/Ledger/Agreement.antt =====
-- What the ledger says of the manager, and that time and alarms keep it true.
use udping.Base.{ℕ, ◌+◌, ◌≤◌, ◌≡◌, ◌≢◌, refl, sym, ap, ◌∙◌, List, none, some}
use udping.Map.{find}
use udping.Map.Keys.{string_key, nat_key}
use udping.Session.{ServerSession}
use udping.Manager.{Manager, ok, handle_alarm, init}
use udping.Manager.WellFormed.{IsWellFormed}
use udping.Manager.Reachable.{alarm-ok, alarm-IsWellFormed}
use udping.Manager.Tracking.{IsHeld}
use udping.Manager.Awake.{IsTracked, alarm-IsTracked, hosts-IsHeld}
use udping.Manager.Sources.{alarm-IsKept}
use udping.Manager.Ledger.{Ledger, pass, empty}
use udping.Manager.Ledger.Laws.{silence-awake, silence-none, silence-some}

module _ {D : Type 0} where
  -- The guid leads to a session whose last packet came at `last`.
  pub record IsPresent (g : List ℕ) (last : ℕ) (m : Manager D) : Type 0 where
    pub address : ℕ
    pub session : ServerSession D
    pub held : IsHeld g address session m
    pub arrival : session.last_arrival ≡ last

  -- The source's last session was made for a guid in the ledger, and is found under it while the
  -- guid is awake.
  pub record LeadsTo (key : List ℕ) (a : ℕ) (l : Ledger) (m : Manager D) : Type 0 where
    pub guid : List ℕ
    pub last_new : find key l.sources ≡ some guid
    pub listed : find guid l.guids ≢ none
    pub entry : (last : ℕ) → find guid l.guids ≡ some (some last) → find guid m.session_map ≡ some a

  pub record Agrees (keepalive : ℕ) (l : Ledger) (m : Manager D) : Type 0 where
    pub awake : (g : List ℕ) (last : ℕ) → find g l.guids ≡ some (some last) → IsPresent g last m
    pub unknown : (g : List ℕ) → find g l.guids ≡ none → find g m.session_map ≡ none
    pub sources : (key : List ℕ) (a : ℕ) → find key m.source_map ≡ some a → LeadsTo key a l m
    pub same_keepalive : m.keepalive ≡ keepalive

  -- The same up to sessions that are silent at `now`.
  pub record AgreesAt (keepalive now : ℕ) (l : Ledger) (m : Manager D) : Type 0 where
    pub awake :
        (g : List ℕ) (last : ℕ)
        → find g l.guids ≡ some (some last)
        → now ≤ last + keepalive
        → IsPresent g last m
    pub unknown : (g : List ℕ) → find g l.guids ≡ none → find g m.session_map ≡ none
    pub sources :
        (key : List ℕ) (a : ℕ)
        → find key m.source_map ≡ some a
        → (g : List ℕ) × (find key l.sources ≡ some g)
          × (find g l.guids ≢ none)
          × ((last : ℕ)
              → find g l.guids ≡ some (some last)
              → now ≤ last + keepalive
              → find g m.session_map ≡ some a)
    pub same_keepalive : m.keepalive ≡ keepalive

  pub pass-Agrees :
      (keepalive now : ℕ) (l : Ledger) (m : Manager D)
      → AgreesAt keepalive now l m
      → Agrees keepalive (pass keepalive now l) m
  pass-Agrees keepalive now l m v = record {
    awake = λ g last e.
        let (before, timely) = silence-awake keepalive now g l.guids last e in
        v.awake g last before timely;
    unknown = λ g e. v.unknown g (silence-none keepalive now g l.guids e);
    sources = λ key a e.
        let (g, last_new, listed, entry) = v.sources key a e in
        record {
          guid = g;
          last_new = last_new;
          listed = silence-some keepalive now g l.guids listed;
          entry = λ last q.
              let (before, timely) = silence-awake keepalive now g l.guids last q in
              entry last before timely;
        };
    same_keepalive = v.same_keepalive;
  }

  -- A session that is tracked is present, under the same address.
  pub tracked-IsPresent :
      (g : List ℕ) (a last : ℕ) (s : ServerSession D) (m m' : Manager D)
      → s.last_arrival ≡ last
      → IsTracked g a s m m'
      → IsPresent g last m'
  tracked-IsPresent g a last s m m' arrival t = record {
    address = a;
    session = s;
    held = t.held;
    arrival = arrival;
  }

  pub alarm-Agrees :
      (keepalive now : ℕ) (l : Ledger) (m : Manager D)
      → IsWellFormed m
      → Agrees keepalive l m
      → (m' : Manager D) × (handle_alarm now m ≡ ok m')
        × IsWellFormed m'
        × Agrees keepalive (pass keepalive now l) m'
  alarm-Agrees keepalive now l m w v =
      let (m', run, keeps) = alarm-ok now m w in
      let kept = alarm-IsKept now m m' w run in
      (
        m',
        run,
        alarm-IsWellFormed now m m' w run,
        pass-Agrees keepalive now l m' (record {
          awake = λ g last e timely.
              let p = v.awake g last e in
              tracked-IsPresent g p.address last p.session m m' p.arrival (
                alarm-IsTracked g p.address now p.session m m' w p.held
                  (rw (p.arrival, v.same_keepalive) timely) run);
          unknown = λ g e. kept.unknown g (v.unknown g e);
          sources = λ key a e.
              let p = v.sources key a (ap (find key) (sym kept.sources) ∙ e) in
              (
                p.guid,
                p.last_new,
                p.listed,
                λ last q timely.
                    let h = v.awake p.guid last q in
                    let t =
                      alarm-IsTracked p.guid h.address now h.session m m' w h.held
                        (rw (h.arrival, v.same_keepalive) timely) run in
                    t.held.entry ∙ sym h.held.entry ∙ p.entry last q,
              );
          same_keepalive = keeps ∙ v.same_keepalive;
        }),
      )

  pub hosts-Agrees :
      (hosts : _) (keepalive : ℕ) (l : Ledger) (m : Manager D)
      → Agrees keepalive l m
      → Agrees keepalive l (record m { host_map = hosts })
  hosts-Agrees hosts keepalive l m v = record {
    awake = λ g last e.
        let p = v.awake g last e in
        record {
          address = p.address;
          session = p.session;
          held = hosts-IsHeld hosts g p.address p.session m p.held;
          arrival = p.arrival;
        };
    unknown = v.unknown;
    sources = λ key a e.
        let p = v.sources key a e in
        record { guid = p.guid; last_new = p.last_new; listed = p.listed; entry = p.entry };
    same_keepalive = v.same_keepalive;
  }

  pub init-Agrees : (keepalive : ℕ) → Agrees keepalive empty (init keepalive)
  unfolding find init
  init-Agrees keepalive = record {
    awake = λ g last e. absurd (cc);
    unknown = λ g e. refl;
    sources = λ key a e. absurd (cc);
    same_keepalive = refl;
  }
