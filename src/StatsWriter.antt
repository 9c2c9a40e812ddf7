-- ===== src/StatsWriter.antt =====
-- `StatsWriter` of src/statswriter.cc: its fields and its constructor.
pub mod Report
pub mod Fields
pub mod Wild
use udping.Base.{ℕ, List, [], ◌∷◌, Option, none, some, Bool, true, false, ◌||◌, ◌==◌, if◌then◌else◌}
use udping.Program.{Run, returns, ◌>>=◌, ◌>>◌}
use udping.Text.{ℤ, pos, negsuc, codes, atoi}
use udping.Host.{Host, get_sock_addr, make_socket}

-- A pointer to an address; `wild` is neither null nor an address that was resolved.
pub data Pointer : Type 0 where
  null : Pointer
  to : ℕ → Pointer
  wild : Pointer

pub record StatsWriter : Type 0 where
  pub receive_hostname : List ℕ
  pub listen_port : ℕ
  pub statsd_sa : Pointer
  pub tags_sa : Pointer
  pub tags_metric : List ℕ
  pub quiet : Bool

-- The loops that put '_' in the place of '.'.
unfoldable pub underscored : List ℕ → List ℕ
underscored [] = []
underscored (c ∷ cs) = (if c == b'.' then b'_' else c) ∷ underscored cs

-- The text before the first colon, and the text behind it if there is one.
unfoldable pub split_colon : List ℕ → List ℕ × Option (List ℕ)
split_colon [] = ([], none)
split_colon (c ∷ cs) =
    let (before, behind) = split_colon cs in
    if c == b':' then ([], some cs) else (c ∷ before, behind)

unfoldable pub port_of : Option (List ℕ) → ℤ
unfolding atoi
port_of none = pos 8125
port_of (some s) = atoi s

abbrev pub port_number : ℤ → ℕ
port_number (pos n) = n
port_number (negsuc n) = 0

-- A statsd address from "host" or "host:port"; the port has no effect.
unfoldable pub statsd_address : Host → List ℕ → Run Pointer
unfolding split_colon get_sock_addr port_of
statsd_address h info = do
  let (name, behind) = split_colon info
  address ← get_sock_addr h name (port_number (port_of behind))
  returns (to address)

abbrev pub is_given : Option (List ℕ) → Bool
is_given none = false
is_given (some s) = true

-- A field that the constructor sets only where the option is given; `old` is what the memory held.
unfoldable pub set_address : Host → Option (List ℕ) → Pointer → Run Pointer
unfolding statsd_address
set_address h none old = returns old
set_address h (some info) old = statsd_address h info

abbrev pub metric_name : Option (List ℕ) → List ℕ
metric_name none = codes "udping"
metric_name (some s) = s

abbrev pub receive_name : Host → List ℕ → List ℕ
receive_name h name = elim (h.host_by_addr name) [ none ↦ name | some found ↦ found ]

-- What `new` finds in the memory of the two pointers.
pub record OldMemory : Type 0 where
  pub old_statsd : Pointer
  pub old_tags : Pointer

unfoldable pub new_stats_writer :
    Host
    → (listen_hostname receive_hostname : List ℕ) → ℕ
    → (statsd_info statsd_tag_info statsd_tag_metric : Option (List ℕ)) → Bool
    → OldMemory
    → Run StatsWriter
unfolding underscored make_socket set_address
new_stats_writer h listen_hostname receive_hostname listen_port statsd_info statsd_tag_info
      statsd_tag_metric quiet old =
    do
      if is_given statsd_info || is_given statsd_tag_info
          then make_socket h listen_hostname 0
          else returns tt
      statsd_sa ← set_address h statsd_info old.old_statsd
      tags_sa ← set_address h statsd_tag_info old.old_tags
      returns (record {
        receive_hostname = underscored (receive_name h receive_hostname);
        listen_port = listen_port;
        statsd_sa = statsd_sa;
        tags_sa = tags_sa;
        tags_metric = metric_name statsd_tag_metric;
        quiet = quiet;
      })
