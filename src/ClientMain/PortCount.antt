-- ===== src/ClientMain/PortCount.antt =====
-- A starting port with a number of ports.
use mathlib.Core.List.{append-nil}
use udping.Base.{
  ℕ, zero, suc, ◌+◌, ◌-◌, ◌<◌, ◌≤◌, ◌≡◌, refl, sym, ap, ◌∙◌, List, [], ◌∷◌, ◌++◌, true, false, ltb,
  arith, length, length-append, All,
}
use udping.Program.{returns}
use udping.Text.{pos, atoi, decimal}
use udping.Text.Decimal.{atoi-decimal, IsDigit, decimal-IsDigit, length-decimal}
use udping.Ports.{accepted, source_ports, ports_from}
use udping.Ports.Bounds.{IsPort}
use udping.Ports.Ranges.{span, source_ports-descriptor_text}
use udping.ClientMain.{is_number, expand_ports}

is_number-digits : (t : List ℕ) → All IsDigit t → is_number t ≡ true
unfolding is_number
is_number-digits [] h = refl
is_number-digits (c ∷ t) h = rw (h.0, is_number-digits t h.1) refl

read_back : (p : ℕ) → p ≤ 60000 → atoi (decimal p) ≡ pos p
read_back p h = ap atoi (sym (append-nil (decimal p))) ∙ atoi-decimal p [] (omega arith) tt

pub expand_ports-range :
    (p n : ℕ)
    → IsPort p
    → 0 < n
    → expand_ports (decimal p) n ≡ returns (decimal p ++ (45 ∷ decimal (p + n - 1)))
unfolding expand_ports
expand_ports-range p n h pos_n =
    let read = read_back p h.1 in
    let numeric = is_number-digits (decimal p) (decimal-IsDigit p) in
    let first : ltb 0 p ≡ true = ground arith in
    let second : ltb 0 n ≡ true = ground arith in
    let below : ltb 60000 p ≡ false = ground arith in
    let above : ltb p 1024 ≡ false = ground arith in
    rw (expand_ports, read, numeric, first, second, below, above) refl

decimal-short : (p : ℕ) → p < 100000 → length (decimal p) ≤ 5
decimal-short p h = length-decimal 4 p h

length-ports_from : (start count : ℕ) → length (ports_from start count) ≡ count
unfolding ports_from
length-ports_from start zero = refl
length-ports_from start (suc count) = ap suc (length-ports_from (start + 1) count)

-- A valid starting port P, given as its number, with a count n up to 5000 whose last port is valid,
-- gives the ports from P on, n of them.
pub expand_ports-ports_from :
    (p n : ℕ)
    → 1024 ≤ p
    → 0 < n
    → n ≤ 5000
    → p + n ≤ 60001
    → (t : List ℕ) × (expand_ports (decimal p) n ≡ returns t)
      × (source_ports t ≡ accepted (ports_from p n))
expand_ports-ports_from p n low pos_n few high =
    let end = p + n - 1 in
    let text = decimal p ++ (45 ∷ decimal end) in
    let valid : IsPort p × IsPort end × (p ≤ end) =
      ((low, omega arith), (omega arith, omega arith), omega arith) in
    let count : suc end - p ≡ n = omega arith in
    let size : length text < 1000 = omega (
      arith,
      length-append {0} (decimal p) (45 ∷ decimal end),
      decimal-short p (omega arith),
      decimal-short end (omega arith),
    ) in
    let all : ports_from p (suc end - p) ++ [] ≡ ports_from p n =
      append-nil (ports_from p (suc end - p)) ∙ ap (ports_from p) count in
    let fits : length (ports_from p (suc end - p) ++ []) ≤ 5000 =
      rw all (omega (arith, length-ports_from p n)) in
    (
      text,
      expand_ports-range p n (low, omega arith) pos_n,
      source_ports-descriptor_text (span p end ∷ []) (valid, tt) size fits ∙ ap accepted all,
    )
