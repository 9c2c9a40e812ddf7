-- ===== src/StatsWriter/Report.antt =====
-- `writeStats` of src/statswriter.cc: the texts that report a session. How a `double` is printed is
-- a parameter.
use udping.Base.{ℕ, List, [], ◌∷◌, ◌++◌, Option, none, some, if◌then◌else◌, u32}
use udping.Program.{Run, returns, crashes, ◌>>=◌}
use udping.Text.{codes, decimal, int_of_bits}
use udping.Text.Signed.{print_int}
use udping.Stats.{Stats}
use udping.StatsWriter.{StatsWriter, Pointer, null, to, wild, underscored}

-- "%lf", and `<<` on a stream.
pub record DoubleFormat (D : Type 0) : Type 0 where
  pub printf_lf : D → List ℕ
  pub stream : D → List ℕ

-- Texts written one after the other.
abbrev pub written : List (List ℕ) → List ℕ
written [] = []
written (t ∷ ts) = t ++ written ts

-- One metric of statsd.
unfoldable pub statsd_line : StatsWriter → List ℕ → ℕ → List ℕ → List ℕ → List ℕ → List ℕ
unfolding decimal
statsd_line w peer port name value kind = written (
    peer
    ∷ codes "."
    ∷ decimal port
    ∷ codes "."
    ∷ w.receive_hostname
    ∷ codes "."
    ∷ decimal w.listen_port
    ∷ codes "."
    ∷ name
    ∷ codes ":"
    ∷ value
    ∷ codes "|"
    ∷ kind
    ∷ (10 ∷ [])
    ∷ [])

-- One metric with tags.
unfoldable pub tags_line : StatsWriter → List ℕ → ℕ → List ℕ → List ℕ → List ℕ → List ℕ
unfolding decimal
tags_line w peer port name value kind = written (
    w.tags_metric
    ∷ codes "."
    ∷ name
    ∷ codes ",from_host="
    ∷ peer
    ∷ codes ",from_port="
    ∷ decimal port
    ∷ codes ",to_host="
    ∷ w.receive_hostname
    ∷ codes ",to_port="
    ∷ decimal w.listen_port
    ∷ codes ":"
    ∷ value
    ∷ codes "|"
    ∷ kind
    ∷ (10 ∷ [])
    ∷ [])

-- A member of the JSON object.
abbrev pub json_field : List ℕ → List ℕ → List ℕ
json_field name value =
    written ((b'"' ∷ []) ∷ name ∷ (b'"' ∷ b':' ∷ b'"' ∷ []) ∷ value ∷ (b'"' ∷ []) ∷ [])

-- An unsigned 32-bit number as `%d` prints it.
unfoldable pub as_int : ℕ → List ℕ
unfolding print_int
as_int n = print_int (int_of_bits (u32 n))

module _ {D : Type 0} where
  -- The lines of a report, each with its name, value and kind.
  unfoldable pub report_lines :
      DoubleFormat D → (List ℕ → List ℕ → List ℕ → List ℕ) → Stats D → List ℕ
  unfolding decimal as_int
  report_lines fmt line s = written (
      line (codes "count") (as_int s.count) (codes "c")
      ∷ line (codes "targetCount") (decimal s.target_count) (codes "c")
      ∷ line (codes "sum") (fmt.stream s.sum) (codes "c")
      ∷ line (codes "sos") (fmt.stream s.sum_of_squares) (codes "c")
      ∷ line (codes "max") (fmt.stream s.max) (codes "g")
      ∷ [])

  unfoldable pub statsd_text : DoubleFormat D → StatsWriter → List ℕ → ℕ → Stats D → List ℕ
  unfolding report_lines statsd_line
  statsd_text fmt w peer port s = report_lines fmt (statsd_line w peer port) s

  unfoldable pub tags_text : DoubleFormat D → StatsWriter → List ℕ → ℕ → Stats D → List ℕ
  unfolding report_lines tags_line
  tags_text fmt w peer port s = report_lines fmt (tags_line w peer port) s

  unfoldable pub console_text :
      DoubleFormat D → StatsWriter → List ℕ → List ℕ → ℕ → Stats D → ℕ → List ℕ
  unfolding decimal as_int
  console_text fmt w guid peer port s now = written (
      codes "{"
      ∷ json_field (codes "time") (decimal now)
      ∷ codes ","
      ∷ json_field (codes "from_host") peer
      ∷ codes ","
      ∷ json_field (codes "from_port") (decimal port)
      ∷ codes ","
      ∷ json_field (codes "to_host") w.receive_hostname
      ∷ codes ","
      ∷ json_field (codes "to_port") (decimal w.listen_port)
      ∷ codes ","
      ∷ json_field (codes "guid") guid
      ∷ codes ","
      ∷ json_field (codes "count") (as_int s.count)
      ∷ codes ","
      ∷ json_field (codes "targetCount") (as_int s.target_count)
      ∷ codes ","
      ∷ json_field (codes "sum") (fmt.printf_lf s.sum)
      ∷ codes ","
      ∷ json_field (codes "sumOfSquares") (fmt.printf_lf s.sum_of_squares)
      ∷ codes ","
      ∷ json_field (codes "max") (fmt.printf_lf s.max)
      ∷ codes "}"
      ∷ (10 ∷ [])
      ∷ [])

-- What one call writes: on the console, and the datagrams with their addresses.
pub record Output : Type 0 where
  pub console : Option (List ℕ)
  pub statsd : Option (ℕ × List ℕ)
  pub tags : Option (ℕ × List ℕ)

-- `sendto` where the pointer is not null.
unfoldable pub send : Pointer → List ℕ → Run (Option (ℕ × List ℕ))
send null text = returns none
send (to address) text = returns (some (address, text))
send wild text = crashes

unfoldable pub write_stats :
    {D : Type 0} → DoubleFormat D → StatsWriter → List ℕ → List ℕ → ℕ → Stats D → ℕ → Run Output
unfolding underscored send console_text statsd_text tags_text
write_stats fmt w guid peer port s now = do
  let peer_copy = underscored peer
  statsd ← send w.statsd_sa (statsd_text fmt w peer_copy port s)
  tags ← send w.tags_sa (tags_text fmt w peer_copy port s)
  returns (record {
    console = if w.quiet then none else some (console_text fmt w guid peer_copy port s now);
    statsd = statsd;
    tags = tags;
  })
