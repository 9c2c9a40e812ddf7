-- ===== src/StatsWriter/Fields.antt =====
-- The name of a statsd metric, as statsd and its backends take it apart.
use udping.Base.{
  ℕ, ◌≡◌, ◌≢◌, refl, ap, sym, ◌∙◌, subst, List, [], ◌∷◌, ◌++◌, Option, Bool, false, ◌==◌,
  if◌then◌else◌, arith, All, All-map,
}
use udping.Program.{returns}
use udping.Program.Ensures.{Ensures, Ensures-bind, Ensures-returns}
use udping.Text.{decimal}
use udping.Text.Decimal.{decimal-IsDigit}
use udping.Host.{Host}
use udping.StatsWriter.{StatsWriter, OldMemory, underscored, new_stats_writer, receive_name}
use udping.StatsWriter.Report.{statsd_line}

-- The dot-separated parts of the text in front of the first colon: the first, and the others.
split_fields : List ℕ → List ℕ × List (List ℕ)
split_fields [] = ([], [])
split_fields (c ∷ cs) =
    let (cur, rest) = split_fields cs in
    if c == b':' then ([], []) else if c == b'.' then ([], cur ∷ rest) else (c ∷ cur, rest)

pub fields : List ℕ → List (List ℕ)
fields text = let (cur, rest) = split_fields text in cur ∷ rest

-- Neither a dot nor a colon.
abbrev pub IsPlain : ℕ → Type 0
IsPlain c = (c ≢ b'.') × (c ≢ b':')

abbrev pub IsNoColon : ℕ → Type 0
IsNoColon c = c ≢ b':'

split_fields-dot :
    (p rest : List ℕ) → All IsPlain p → split_fields (p ++ (b'.' ∷ rest)) ≡ (p, fields rest)
unfolding split_fields fields
split_fields-dot [] rest h = refl
split_fields-dot (c ∷ p) rest h =
    let no_colon : (c == b':') ≡ false = ground arith in
    let no_dot : (c == b'.') ≡ false = ground arith in
    rw (no_colon, no_dot, split_fields-dot p rest h.1) refl

split_fields-colon : (p rest : List ℕ) → All IsPlain p → split_fields (p ++ (b':' ∷ rest)) ≡ (p, [])
unfolding split_fields
split_fields-colon [] rest h = refl
split_fields-colon (c ∷ p) rest h =
    let no_colon : (c == b':') ≡ false = ground arith in
    let no_dot : (c == b'.') ≡ false = ground arith in
    rw (no_colon, no_dot, split_fields-colon p rest h.1) refl

fields-dot : (p rest : List ℕ) → All IsPlain p → fields (p ++ (b'.' ∷ rest)) ≡ p ∷ fields rest
unfolding fields
fields-dot p rest h = ap (λ f. f.0 ∷ f.1) (split_fields-dot p rest h)

fields-colon : (p rest : List ℕ) → All IsPlain p → fields (p ++ (b':' ∷ rest)) ≡ p ∷ []
unfolding fields
fields-colon p rest h = ap (λ f. f.0 ∷ f.1) (split_fields-colon p rest h)

pub underscored-IsPlain : (t : List ℕ) → All IsNoColon t → All IsPlain (underscored t)
unfolding underscored
underscored-IsPlain [] h = tt
underscored-IsPlain (c ∷ t) h = (ground arith, underscored-IsPlain t h.1)

decimal-IsPlain : (n : ℕ) → All IsPlain (decimal n)
decimal-IsPlain n = All-map (λ c h. (ground arith, ground arith)) (decimal n) (decimal-IsDigit n)

line-fields :
    (w : StatsWriter) (peer : List ℕ) (port : ℕ) (name value kind : List ℕ)
    → All IsPlain peer
    → All IsPlain w.receive_hostname
    → All IsPlain name
    → fields (statsd_line w peer port name value kind)
      ≡ peer ∷ decimal port ∷ w.receive_hostname ∷ decimal w.listen_port ∷ name ∷ []
unfolding statsd_line
line-fields w peer port name value kind hp hw hn =
    fields-dot peer _ hp
    ∙ ap (◌∷◌ peer) (
        fields-dot (decimal port) _ (decimal-IsPlain port)
        ∙ ap (◌∷◌ (decimal port)) (
            fields-dot w.receive_hostname _ hw
            ∙ ap (◌∷◌ w.receive_hostname) (
                fields-dot (decimal w.listen_port) _ (decimal-IsPlain w.listen_port)
                ∙ ap (◌∷◌ (decimal w.listen_port)) (fields-colon name _ hn))))

new_stats_writer-name :
    (h : Host) (listen receive : List ℕ) (port : ℕ) (info tag_info metric : Option (List ℕ))
    (quiet : Bool) (old : OldMemory)
    → Ensures
        (λ w. w.receive_hostname ≡ underscored (receive_name h receive))
        (new_stats_writer h listen receive port info tag_info metric quiet old)
unfolding new_stats_writer
new_stats_writer-name h listen receive port info tag_info metric quiet old =
    Ensures-bind _ _
      (λ _ _. Ensures-bind _ _ (λ statsd _. Ensures-bind _ _ (λ tags _. Ensures-returns _ refl)))

-- Whatever dots are in the names of the two hosts, if neither has a colon, a statsd line of a
-- writer that was made has a metric name of exactly five parts: the sender with its dots replaced,
-- its port, the receiver with its dots replaced, the server's port, and the metric.
pub statsd_line-fields :
    (h : Host) (listen receive : List ℕ) (lport : ℕ) (info tag_info metric : Option (List ℕ))
    (quiet : Bool) (old : OldMemory) (w : StatsWriter) (peer : List ℕ) (port : ℕ)
    (name value kind : List ℕ)
    → new_stats_writer h listen receive lport info tag_info metric quiet old ≡ returns w
    → All IsNoColon (receive_name h receive)
    → All IsNoColon peer
    → All IsPlain name
    → fields (statsd_line w (underscored peer) port name value kind)
      ≡ underscored peer
        ∷ decimal port
        ∷ underscored (receive_name h receive)
        ∷ decimal w.listen_port
        ∷ name
        ∷ []
statsd_line-fields h listen receive lport info tag_info metric quiet old w peer port name value kind
      made host_plain peer_plain name_plain =
    let same =
      (new_stats_writer-name h listen receive lport info tag_info metric quiet old).at w made in
    line-fields w (underscored peer) port name value kind (underscored-IsPlain peer peer_plain)
      (subst (All IsPlain) (sym same) (underscored-IsPlain (receive_name h receive) host_plain))
      name_plain
    ∙ ap (λ host. underscored peer ∷ decimal port ∷ host ∷ decimal w.listen_port ∷ name ∷ []) same
