-- ===== src/Client/Rounds.antt =====
-- The sending loop never stops: what each of its rounds does.
use native.Mathlib.Nat.{mod-lt, mod_self, mod-eq_of_lt}
use udping.Base.{
  ℕ, ◌+◌, ◌%◌, ◌^◌, ◌<◌, ◌≡◌, refl, ap, ◌∙◌, some, arith, length, get_elem?, get_elem?_of_lt,
  All-set, All-get_elem?, set, length-set, u32, if◌then◌else◌, ◌==◌,
}
use udping.Client.{
  advance, ClientSession, ClientList, Random, Sent, Tick, increment, send_ping_packet,
  get_next_session, rolled, send_round,
}
use udping.Client.Invariant.{update-IsSendable}
use udping.Client.Sending.{
  IsSessionReady, IsReady, IsSound, rolled-Keeps, Carries, send_ping_packet_lem,
}

increment-ready : (s : ClientSession) → IsSessionReady s → IsSessionReady (increment s)
unfolding increment
increment-ready s ready =
    let p = s.packet in
    let v = ready.sendable in
    record {
      sendable =
          update-IsSendable p (u32 (p.seq_num + 1)) p.sent_sec p.sent_nsec p.size v (omega arith)
            v.fits.sec_fits v.fits.nsec_fits v.fits.size_fits;
      filled = ready.filled;
    }

-- What a round does, and the state it leaves.
pub record IsServed (l : ClientList) (t : Tick) (r : Random) : Type 0 where
  pub s : ClientSession
  pub turn : get_elem? l.sessions l.cur_session ≡ some s
  pub f : Sent
  pub s' : ClientSession
  pub l' : ClientList
  pub r' : Random
  pub run : send_round t l r ≡ some (f, (l', r'))
  pub sound : IsSound f
  pub carries : Carries f.packet s.packet.seq_num t.sec t.nsec
  pub stored : l'.sessions ≡ set l.sessions l.cur_session s'
  pub next_seq : s'.packet.seq_num ≡ u32 (s.packet.seq_num + 1)
  pub next_turn : l'.cur_session ≡ (l.cur_session + 1) % length l.sessions
  pub ready : IsReady l'

circle : (i n : ℕ) → i < n → (if i + 1 == n then 0 else i + 1) ≡ (i + 1) % n
circle i n h = ground (arith, mod_self n, mod-eq_of_lt {n = i + 1} {m = n})

round_run :
    (t : Tick) (l : ClientList) (r : Random) (s s2 : ClientSession) (f : Sent)
    → get_elem? l.sessions l.cur_session ≡ some s
    → send_ping_packet
        (get_next_session l).1
        t.sec
        t.nsec
        (rolled l.interval t s r).0
        (rolled l.interval t s r).1
      ≡ some ((f, s2), advance (rolled l.interval t s r).1 1)
    → send_round t l r
      ≡ some (
        f,
        (
          record (get_next_session l).1 { sessions = set l.sessions l.cur_session (increment s2) },
          advance (rolled l.interval t s r).1 1,
        ),
      )
unfolding send_round get_next_session
round_run t l r s s2 f turn sent = rw (send_round, turn, sent) refl

-- From a ready list and with the clock's nanoseconds below 2^64, a round of the sending loop never
-- reads past the sessions or from a null address. It sends one sound frame, from the session whose
-- turn it is, with that session's sequence number and the clock's time, raises that session's
-- number by one in 32 bits, moves the turn on in a circle, and leaves the list ready for the next
-- round.
pub send_round-IsServed :
    (t : Tick) (l : ClientList) (r : Random) → IsReady l → t.nsec < 2 ^ 64 → IsServed l t r
unfolding get_next_session increment
send_round-IsServed t l r ready fits =
    let (s, turn) = get_elem?_of_lt l.sessions l.cur_session ready.in_range in
    let session_ready =
      All-get_elem? IsSessionReady l.sessions l.cur_session s ready.sessions_ready turn in
    let kept = rolled-Keeps l.interval t s r session_ready in
    let (s1, r1) = rolled l.interval t s r in
    let moved = (get_next_session l).1 in
    let (f, s2, sent, sound, carries, ready2, seq) =
      send_ping_packet_lem moved t.sec t.nsec s1 r1 ready.max_pos ready.max_le fits ready.addressed
        kept.ready in
    let next = circle l.cur_session (length l.sessions) ready.in_range in
    record {
      s = s;
      turn = turn;
      f = f;
      s' = increment s2;
      l' = record moved { sessions = set l.sessions l.cur_session (increment s2) };
      r' = advance r1 1;
      run = round_run t l r s s2 f turn sent;
      sound = sound;
      carries = record {
        seq = carries.seq ∙ kept.same_seq;
        sec = carries.sec;
        nsec = carries.nsec;
      };
      stored = refl;
      next_seq = ap (λ n. u32 (n + 1)) (seq ∙ kept.same_seq);
      next_turn = next;
      ready = record {
        sessions_ready =
            All-set IsSessionReady l.sessions l.cur_session (increment s2) ready.sessions_ready
              (increment-ready s2 ready2);
        in_range =
            rw (length-set l.sessions l.cur_session (increment s2), next)
              (mod-lt (l.cur_session + 1) (omega (arith, ready.in_range)));
        max_pos = ready.max_pos;
        max_le = ready.max_le;
        addressed = ready.addressed;
      };
    }
