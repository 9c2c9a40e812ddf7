-- ===== src/ClientMain/Start.antt =====
-- What holds when the client enters its loop.
use udping.Base.{
  ℕ, ◌<◌, ◌≤◌, ◌≡◌, refl, subst, sym, List, Option, none, some, ◌==◌, if◌then◌else◌, arith, length,
}
use udping.Program.{returns, exits, ◌>>=◌}
use udping.Program.Ensures.{
  Ensures, Ensures-bind, Ensures-returns, Ensures-exits, Ensures-if, require-true,
}
use udping.Options.{Parsed}
use udping.Host.{Host, Passwd, become_nobody, nobody_entry, switch_user, user_after}
use udping.Client.{Random}
use udping.Client.Sending.{IsReady}
use udping.Ports.Bounds.{IsPortList}
use udping.Ports.Start.{session_ports}
use udping.ClientMain.{Started, client_start}
use udping.Client.Sequence.{IsLevel}
use udping.ClientMain.Ready.{IsSystem, client_config-IsConfig, client_session_list-IsBuilt}

abbrev IsUser : ℕ → Type 0
IsUser uid = 0 < uid

nobody_entry-IsUser : (h : Host) → Ensures (λ p. IsUser p.pw_uid) (nobody_entry h)
unfolding nobody_entry
nobody_entry-IsUser h = by_entry h.nobody
  where
    by_entry :
        (o : Option Passwd)
        → Ensures
            (λ p. IsUser p.pw_uid)
            (elim o [ none ↦ exits 255 | some p ↦ if p.pw_uid == 0 then exits 255 else returns p ])
    by_entry none = Ensures-exits 255
    by_entry (some p) =
        Ensures-if (p.pw_uid == 0) (exits 255) (returns p) (λ _. Ensures-exits 255)
          (λ other. Ensures-returns p (ground arith))

switch_user-same : (h : Host) (p : Passwd) → Ensures (λ uid. uid ≡ p.pw_uid) (switch_user h p)
unfolding switch_user user_after
switch_user-same h p = Ensures-bind _ _ (λ _ _. Ensures-bind _ _ (λ u e.
    let succeeded = require-true (h.setuid p.pw_uid) u e in
    Ensures-returns (user_after h p.pw_uid) (rw (user_after, succeeded) refl)))

become_nobody-IsUser : (h : Host) → Ensures IsUser (become_nobody h)
unfolding become_nobody
become_nobody-IsUser h =
    Ensures-if (h.uid == 0) (nobody_entry h >>= switch_user h) (returns h.uid)
      (λ root. Ensures-bind _ _ (λ p e_entry. record {
        at = λ uid e_uid.
            subst IsUser (sym ((switch_user-same h p).at uid e_uid))
              ((nobody_entry-IsUser h).at p e_entry);
      }))
      (λ other. Ensures-returns h.uid (ground arith))

-- The client runs as a user that is not root, with a delay and an interval in range and valid
-- ports, and its list is ready for the rounds if it has a session.
pub record IsStarted (st : Started) : Type 0 where
  pub not_root : 0 < st.uid
  pub delay_le : st.delay ≤ 1000
  pub interval_pos : 0 < st.sessions.interval
  pub interval_le : st.sessions.interval ≤ 900
  pub ports_valid : IsPortList (session_ports st.sessions.sessions)
  pub level : IsLevel 0 st.sessions
  pub ready : 0 < length st.sessions.sessions → IsReady st.sessions

-- On a system whose addresses have 32 bits and whose MAC addresses have six bytes, and whatever else
-- it answers and the command line says, a client that reaches its loop runs as a
-- user that is not root, has a delay, an interval and source ports in range, and is ready for the
-- rounds if it has a session.
pub client_start-IsStarted :
    (h : Host) (args : List Parsed) (now : ℕ → ℕ) (r : Random) (st : Started)
    → IsSystem h
    → client_start h args now r ≡ returns st
    → IsStarted st
unfolding client_start
client_start-IsStarted h args now r st system e = ensured.at st e
  where
    ensured : Ensures IsStarted (client_start h args now r)
    ensured = Ensures-bind _ _ (λ _ _. Ensures-bind _ _ (λ o _. Ensures-bind _ _ (λ c e_config.
        Ensures-bind _ _ (λ b e_list. Ensures-bind _ _ (λ uid e_uid.
          let v = (client_config-IsConfig o).at c e_config in
          let built = (client_session_list-IsBuilt h c now r system v).at b e_list in
          Ensures-returns _ (record {
            not_root = (become_nobody-IsUser h).at uid e_uid;
            delay_le = v.delay_le;
            interval_pos = subst (λ n. 0 < n) (sym built.interval_kept) v.interval_pos;
            interval_le = subst (λ n. n ≤ 900) (sym built.interval_kept) v.interval_le;
            ports_valid = built.ports_valid;
            level = built.level;
            ready = built.ready;
          }))))))
