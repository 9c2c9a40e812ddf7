-- ===== src/ServerMain/Reports.antt =====
-- The reports of a run, where both options for statsd are given.
use udping.Base.{
  subst, ℕ, ◌++◌, ◌≡◌, ◌⊎◌, All, true, false, sym, ◌==◌, arith, refl, ap, ◌∙◌, List, [], ◌∷◌,
  Option, none, some, Bool, inl, inr, Option-cases, if◌then◌else◌,
}
use udping.Program.{returns, exits, ◌>>=◌}
use udping.Program.Ensures.{Ensures, Ensures-bind, Ensures-returns}
use mathlib.Core.List.{append_assoc}
use udping.Text.{codes}
use udping.Stats.{Stats}
use udping.StatsWriter.Fields.{IsNoColon}
use udping.Host.{Host, get_sock_addr}
use udping.Manager.{Report}
use udping.StatsWriter.{
  StatsWriter, OldMemory, metric_name, Pointer, to, split_colon, statsd_address, set_address,
  new_stats_writer, underscored, port_number, port_of,
}
use udping.StatsWriter.Report.{
  DoubleFormat, Output, report_lines, statsd_line, tags_line, statsd_text, tags_text, console_text,
  send, write_stats,
}
use udping.ServerMain.{write_report, write_reports}

-- The name of the host in "host" or "host:port": all of the text if it has no colon, and otherwise
-- what is in front of the first one.
abbrev pub IsHostOf : (info name : List ℕ) → Type 0
IsHostOf info name =
    All IsNoColon name × ((info ≡ name) ⊎ ((port : List ℕ) × (info ≡ name ++ (b':' ∷ port))))

split_colon-append :
    (name port : List ℕ)
    → All IsNoColon name
    → split_colon (name ++ (b':' ∷ port)) ≡ (name, some port)
unfolding split_colon
split_colon-append [] port plain = refl
split_colon-append (c ∷ name) port plain =
    let other : (c == b':') ≡ false = ground (arith, plain.0) in
    rw (other, split_colon-append name port plain.1) refl

split_colon_whole : (name : List ℕ) → All IsNoColon name → split_colon name ≡ (name, none)
unfolding split_colon
split_colon_whole [] plain = refl
split_colon_whole (c ∷ name) plain =
    let other : (c == b':') ≡ false = ground (arith, plain.0) in
    rw (other, split_colon_whole name plain.1) refl

split_colon-name : (info name : List ℕ) → IsHostOf info name → (split_colon info).0 ≡ name
split_colon-name info name (plain, form) = elim form [
  | inl all ↦ rw (all, split_colon_whole name plain) refl
  | inr (port, parts) ↦ rw (parts, split_colon-append name port plain) refl
]

-- An address of the host with this name.
record IsAddressOf (h : Host) (name : List ℕ) (p : Pointer) : Type 0 where
  address : ℕ
  set : p ≡ to address
  found : h.resolve name ≡ some address

get_sock_addr-found :
    (h : Host) (name : List ℕ) (port a : ℕ)
    → get_sock_addr h name port ≡ returns a
    → h.resolve name ≡ some a
unfolding get_sock_addr
get_sock_addr-found h name port a e = elim (Option-cases (h.resolve name)) [
  | inl bad ↦ let stop : exits 1 ≡ returns a = rw (get_sock_addr, bad) at e in absurd (cc)
  | inr (b, good) ↦
      let run : returns b ≡ returns a = rw (get_sock_addr, good) at e in
      let same : b ≡ a = cc in good ∙ ap some same
]

set_address-given :
    (h : Host) (info name : List ℕ) (old : Pointer)
    → IsHostOf info name
    → Ensures (IsAddressOf h name) (set_address h (some info) old)
unfolding set_address statsd_address
set_address-given h info name old host = Ensures-bind _ _ (λ a e. Ensures-returns _ (record {
  address = a;
  set = refl;
  found =
      ap h.resolve (sym (split_colon-name info name host))
      ∙ get_sock_addr-found h (split_colon info).0 (port_number (port_of (split_colon info).1)) a e;
}))

-- What the two options, the metric and the flag make of a writer.
record IsGiven (h : Host) (name tag_name : List ℕ) (metric : Option (List ℕ)) (quiet : Bool)
    (w : StatsWriter) : Type 0 where
  statsd : ℕ
  tags : ℕ
  statsd_set : w.statsd_sa ≡ to statsd
  tags_set : w.tags_sa ≡ to tags
  statsd_found : h.resolve name ≡ some statsd
  tags_found : h.resolve tag_name ≡ some tags
  metric_set : w.tags_metric ≡ metric_name metric
  quiet_set : w.quiet ≡ quiet

new_stats_writer-IsGiven :
    (h : Host) (listen receive : List ℕ) (port : ℕ) (info name tag_info tag_name : List ℕ)
    (metric : Option (List ℕ)) (quiet : Bool) (old : OldMemory)
    → IsHostOf info name
    → IsHostOf tag_info tag_name
    → Ensures
        (IsGiven h name tag_name metric quiet)
        (new_stats_writer h listen receive port (some info) (some tag_info) metric quiet old)
unfolding new_stats_writer
new_stats_writer-IsGiven h listen receive port info name tag_info tag_name metric quiet old host
      tag_host =
    Ensures-bind _ _ (λ _ _. Ensures-bind _ _ (λ p e_p. Ensures-bind _ _ (λ q e_q.
      let v = (set_address-given h info name old.old_statsd host).at p e_p in
      let u = (set_address-given h tag_info tag_name old.old_tags tag_host).at q e_q in
      Ensures-returns _ (record {
        statsd = v.address;
        tags = u.address;
        statsd_set = v.set;
        tags_set = u.set;
        statsd_found = v.found;
        tags_found = u.found;
        metric_set = refl;
        quiet_set = refl;
      }))))

-- A datagram for an address, whose text begins with these characters.
abbrev pub IsSentTo : ℕ → List ℕ → Option (ℕ × List ℕ) → Type 0
IsSentTo address start sent = (rest : List ℕ) × (sent ≡ some (address, start ++ rest))

-- A line on the console, or none.
abbrev pub IsShown : Bool → Option (List ℕ) → Type 0
IsShown true line = line ≡ none
IsShown false line = (text : List ℕ) × (line ≡ some text)

module _ {D : Type 0} (statsd tags : ℕ) (metric : Option (List ℕ)) (quiet : Bool) where
  -- What a report becomes: a datagram for each address, where the one for statsd starts with the
  -- client's name, its dots replaced, and the one with tags with the metric and its first name.
  pub record IsWritten (r : Report D) (out : Output) : Type 0 where
    statsd_sent : IsSentTo statsd (underscored r.session.peer ++ codes ".") out.statsd
    tags_sent :
        IsSentTo tags
          (metric_name metric ++ (codes ".count,from_host=" ++ underscored r.session.peer))
          out.tags
    shown : IsShown quiet out.console

  -- One output for each report, in their order.
  abbrev pub AreWritten : List (Report D) → List Output → Type 0
  AreWritten [] [] = Unit
  AreWritten [] (out ∷ outs) = ⊥
  AreWritten (r ∷ rs) [] = ⊥
  AreWritten (r ∷ rs) (out ∷ outs) = IsWritten r out × AreWritten rs outs

statsd_text-start :
    {D : Type 0} (fmt : DoubleFormat D) (w : StatsWriter) (peer : List ℕ) (port : ℕ) (s : Stats D)
    → (rest : List ℕ) × (statsd_text fmt w peer port s ≡ (peer ++ codes ".") ++ rest)
unfolding statsd_text report_lines statsd_line
statsd_text-start fmt w peer port s =
    (_, append_assoc peer _ _ ∙ sym (append_assoc peer (codes ".") _))

append-start : (a b c x y : List ℕ) → (a ++ (b ++ (c ++ x))) ++ y ≡ (a ++ (b ++ c)) ++ (x ++ y)
append-start a b c x y =
    append_assoc a (b ++ (c ++ x)) y
    ∙ ap (λ t. a ++ t)
        (append_assoc b (c ++ x) y
          ∙ ap (λ t. b ++ t) (append_assoc c x y)
          ∙ sym (append_assoc b c (x ++ y)))
    ∙ sym (append_assoc a (b ++ c) (x ++ y))

tags_text-start :
    {D : Type 0} (fmt : DoubleFormat D) (w : StatsWriter) (peer : List ℕ) (port : ℕ) (s : Stats D)
    → (rest : List ℕ) × (tags_text fmt w peer port s
        ≡ (w.tags_metric ++ (codes ".count,from_host=" ++ peer)) ++ rest)
unfolding tags_text report_lines tags_line
tags_text-start fmt w peer port s =
    (_, append-start w.tags_metric (codes ".count,from_host=") peer _ _)

module _ {D : Type 0} (fmt : DoubleFormat D) (h : Host) (name tag_name : List ℕ)
    (metric : Option (List ℕ)) (quiet : Bool) (w : StatsWriter)
    (v : IsGiven h name tag_name metric quiet w) where
  console-IsShown :
      (text : List ℕ) → (q : Bool) → q ≡ quiet → IsShown quiet (if q then none else some text)
  console-IsShown text true same = subst (λ b. IsShown b none) same refl
  console-IsShown text false same = subst (λ b. IsShown b (some text)) same (text, refl)

  write_report-IsWritten :
      (r : Report D)
      → (out : Output) × (write_report fmt w r ≡ returns out)
        × IsWritten v.statsd v.tags metric quiet r out
  unfolding write_report write_stats send ◌>>=◌
  write_report-IsWritten r =
      let s = r.session in
      let peer = underscored s.peer in
      let (rest, begins) = statsd_text-start fmt w peer s.port s.stats in
      let (tag_rest, tag_begins) = tags_text-start fmt w peer s.port s.stats in
      let line = console_text fmt w s.guid peer s.port s.stats r.time in
      (
        record {
          console = if w.quiet then none else some line;
          statsd = some (v.statsd, statsd_text fmt w peer s.port s.stats);
          tags = some (v.tags, tags_text fmt w peer s.port s.stats);
        },
        rw (write_report, write_stats, v.statsd_set, v.tags_set) refl,
        record {
          statsd_sent = (rest, ap (λ t. some (v.statsd, t)) begins);
          tags_sent = (
            tag_rest,
            ap (λ t. some (v.tags, t))
                (tag_begins
                  ∙ ap (λ m. (m ++ (codes ".count,from_host=" ++ peer)) ++ tag_rest) v.metric_set),
          );
          shown = console-IsShown line w.quiet v.quiet_set;
        },
      )

  write_reports-AreWritten :
      (rs : List (Report D))
      → (outs : List Output) × (write_reports fmt w rs ≡ returns outs)
        × AreWritten v.statsd v.tags metric quiet rs outs
  unfolding write_reports ◌>>=◌
  write_reports-AreWritten [] = ([], refl, tt)
  write_reports-AreWritten (r ∷ rs) =
      let (out, run, written) = write_report-IsWritten r in
      let (outs, runs, all) = write_reports-AreWritten rs in
      (out ∷ outs, rw (write_reports, run, runs) refl, (written, all))

-- If the options for statsd are given as "host" or "host:port", where a host has no colon, and a
-- writer is made, then both hosts have an address, and whatever reports come, the writer writes one
-- output for each, in their order: a datagram to the first host's address that starts with the
-- client's name, its dots replaced, one to the second host's address that starts with the metric
-- and the client's name as from_host, and a line on the console exactly where the server is not
-- quiet.
pub write_reports-given :
    {D : Type 0} (fmt : DoubleFormat D) (h : Host) (listen receive : List ℕ) (port : ℕ)
    (info name tag_info tag_name : List ℕ) (metric : Option (List ℕ)) (quiet : Bool)
    (old : OldMemory) (w : StatsWriter) (rs : List (Report D))
    → IsHostOf info name
    → IsHostOf tag_info tag_name
    → new_stats_writer h listen receive port (some info) (some tag_info) metric quiet old
      ≡ returns w
    → (statsd tags : ℕ) × (outs : List Output) × (h.resolve name ≡ some statsd)
      × (h.resolve tag_name ≡ some tags)
      × (write_reports fmt w rs ≡ returns outs)
      × AreWritten statsd tags metric quiet rs outs
write_reports-given fmt h listen receive port info name tag_info tag_name metric quiet old w rs host
      tag_host made =
    let v =
      (new_stats_writer-IsGiven h listen receive port info name tag_info tag_name metric quiet old
          host tag_host).at
        w made in
    let (outs, run, all) = write_reports-AreWritten fmt h name tag_name metric quiet w v rs in
    (v.statsd, v.tags, outs, v.statsd_found, v.tags_found, run, all)
