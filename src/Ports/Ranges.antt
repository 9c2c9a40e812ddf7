-- ===== src/Ports/Ranges.antt =====
-- The descriptor that the usage text describes, printed, is read as the ports that it stands for.
use mathlib.Core.List.{append_assoc, append-nil}
use udping.Base.{
  ℕ, suc, ◌-◌, ◌<◌, ◌≤◌, ◌≡◌, refl, sym, ap, ◌∙◌, subst, List, [], ◌∷◌, ◌++◌, none, some, true,
  false, ◌||◌, ltb, ◌==◌, arith, length, length-append, All, All-map, All-append,
}
use udping.Text.{pos, atoi, decimal, is_digit}
use udping.Text.Decimal.{atoi-decimal, IsDigit, decimal-IsDigit, decimal-cons}
use udping.Ports.{
  accepted, is_descriptor, split_commas, token, ranges, split_dash, valid_port, end_text,
  ports_from, add_span, add_range, add_ranges, source_ports,
}
use udping.Ports.Bounds.{IsPort}

-- A part of a descriptor: a port, or a range of ports.
pub data Range : Type 0 where
  port : ℕ → Range
  span : ℕ → ℕ → Range

abbrev pub IsRange : Range → Type 0
IsRange (port p) = IsPort p
IsRange (span a b) = IsPort a × IsPort b × (a ≤ b)

abbrev pub range_text : Range → List ℕ
range_text (port p) = decimal p
range_text (span a b) = decimal a ++ (45 ∷ decimal b)

abbrev pub range_ports : Range → List ℕ
range_ports (port p) = ports_from p 1
range_ports (span a b) = ports_from a (suc b - a)

-- The parts with a comma between each two.
abbrev pub descriptor_text : List Range → List ℕ
descriptor_text [] = []
descriptor_text (r ∷ []) = range_text r
descriptor_text (r ∷ s ∷ rs) = range_text r ++ (44 ∷ descriptor_text (s ∷ rs))

abbrev pub all_ports : List Range → List ℕ
all_ports [] = []
all_ports (r ∷ rs) = range_ports r ++ all_ports rs

split_dash-none : (t : List ℕ) → All IsDigit t → split_dash t ≡ (t, none)
unfolding split_dash
split_dash-none [] h = refl
split_dash-none (c ∷ t) h =
    let plain : (c == 45) ≡ false = ground arith in rw (split_dash-none t h.1, plain) refl

split_dash-some : (t b : List ℕ) → All IsDigit t → split_dash (t ++ (45 ∷ b)) ≡ (t, some b)
unfolding split_dash
split_dash-some [] b h = refl
split_dash-some (c ∷ t) b h =
    let plain : (c == 45) ≡ false = ground arith in rw (split_dash-some t b h.1, plain) refl

atoi-port : (p : ℕ) → IsPort p → atoi (decimal p) ≡ pos p
atoi-port p h = ap atoi (sym (append-nil (decimal p))) ∙ atoi-decimal p [] (omega arith) tt

valid_port-IsPort : (p : ℕ) → IsPort p → valid_port (pos p) ≡ some p
unfolding valid_port
valid_port-IsPort p h = ground arith

-- The first and the last port of a part.
abbrev first : Range → ℕ
first (port p) = p
first (span a b) = a

abbrev last : Range → ℕ
last (port p) = p
last (span a b) = b

add_range-text :
    (ports : List ℕ) (r : Range)
    → IsRange r
    → add_range ports (range_text r) ≡ add_span ports (first r) (last r)
unfolding add_range end_text
add_range-text ports (port p) h =
    let alone = split_dash-none (decimal p) (decimal-IsDigit p) in
    let read = atoi-port p h in
    let valid = valid_port-IsPort p h in
    rw (add_range, alone, read, valid, alone, alone, read, valid) refl
add_range-text ports (span a b) h =
    let both = split_dash-some (decimal a) (decimal b) (decimal-IsDigit a) in
    let read_a = atoi-port a h.0 in
    let valid_a = valid_port-IsPort a h.0 in
    rw (add_range, both, read_a, valid_a, both, atoi-port b h.1, valid_port-IsPort b h.1) refl

add_span-fits :
    (ports : List ℕ) (r : Range)
    → IsRange r
    → length (ports ++ range_ports r) ≤ 5000
    → add_span ports (first r) (last r) ≡ some (ports ++ range_ports r)
unfolding add_span
add_span-fits ports (port p) h few =
    let one : suc p - p ≡ 1 = omega arith in
    let straight : ltb p p ≡ false = ground arith in
    let fits : ltb 5000 (length (ports ++ ports_from p 1)) ≡ false = ground arith in
    rw (one, straight, fits) refl
add_span-fits ports (span a b) h few =
    let straight : ltb b a ≡ false = ground arith in
    let fits : ltb 5000 (length (ports ++ ports_from a (suc b - a))) ≡ false = ground arith in
    rw (straight, fits) refl

texts : List Range → List (List ℕ)
texts [] = []
texts (r ∷ rs) = range_text r ∷ texts rs

add_ranges-texts :
    (ports : List ℕ) (rs : List Range)
    → All IsRange rs
    → length (ports ++ all_ports rs) ≤ 5000
    → add_ranges ports (texts rs) ≡ some (ports ++ all_ports rs)
unfolding add_ranges texts
add_ranges-texts ports [] h few = ap some (sym (append-nil ports))
add_ranges-texts ports (r ∷ rs) h few =
    let here : length (ports ++ range_ports r) ≤ 5000 = omega (
      arith,
      length-append {0} ports (range_ports r ++ all_ports rs),
      length-append {0} (range_ports r) (all_ports rs),
      length-append {0} ports (range_ports r),
    ) in
    let there : length ((ports ++ range_ports r) ++ all_ports rs) ≤ 5000 =
      rw (append_assoc ports (range_ports r) (all_ports rs)) few in
    rw (add_ranges, add_range-text ports r h.0, add_span-fits ports r h.0 here)
      (add_ranges-texts (ports ++ range_ports r) rs h.1 there
        ∙ ap some (append_assoc ports (range_ports r) (all_ports rs)))

-- A character of a part.
abbrev IsRangeChar : ℕ → Type 0
IsRangeChar c = ((c == 44) ≡ false) × ((is_digit c || (c == 44 || c == 45)) ≡ true)

digits-IsRangeChar : (t : List ℕ) → All IsDigit t → All IsRangeChar t
digits-IsRangeChar = All-map λ c h. (ground arith, ground arith)

range_text-IsRangeChar : (r : Range) → All IsRangeChar (range_text r)
range_text-IsRangeChar (port p) = digits-IsRangeChar (decimal p) (decimal-IsDigit p)
range_text-IsRangeChar (span a b) =
    All-append IsRangeChar (decimal a) (45 ∷ decimal b)
      (digits-IsRangeChar (decimal a) (decimal-IsDigit a))
      ((refl, refl), digits-IsRangeChar (decimal b) (decimal-IsDigit b))

range_text-cons : (r : Range) → (c : ℕ) × (cs : List ℕ) × (range_text r ≡ c ∷ cs)
range_text-cons (port p) = decimal-cons p
range_text-cons (span a b) =
    let (c, cs, e) = decimal-cons a in
    (c, cs ++ (45 ∷ decimal b), ap (λ t. t ++ (45 ∷ decimal b)) e)

is_descriptor-append :
    (t rest : List ℕ) → All IsRangeChar t → is_descriptor (t ++ rest) ≡ is_descriptor rest
unfolding is_descriptor
is_descriptor-append [] rest h = refl
is_descriptor-append (c ∷ t) rest h = rw (h.0.1, is_descriptor-append t rest h.1) refl

is_descriptor-text : (rs : List Range) → is_descriptor (descriptor_text rs) ≡ true
unfolding is_descriptor
is_descriptor-text [] = refl
is_descriptor-text (r ∷ []) =
    ap is_descriptor (sym (append-nil (range_text r)))
    ∙ is_descriptor-append (range_text r) [] (range_text-IsRangeChar r)
is_descriptor-text (r ∷ s ∷ rs) =
    is_descriptor-append (range_text r) (44 ∷ descriptor_text (s ∷ rs)) (range_text-IsRangeChar r)
    ∙ is_descriptor-text (s ∷ rs)

split_commas-last : (t : List ℕ) → All IsRangeChar t → split_commas t ≡ (t, [])
unfolding split_commas
split_commas-last [] h = refl
split_commas-last (c ∷ t) h = rw (split_commas-last t h.1, h.0.0) refl

split_commas-next :
    (t rest : List ℕ) → All IsRangeChar t → split_commas (t ++ (44 ∷ rest)) ≡ (t, ranges rest)
unfolding split_commas ranges
split_commas-next [] rest h = refl
split_commas-next (c ∷ t) rest h = rw (split_commas-next t rest h.1, h.0.0) refl

token-range : (r : Range) (rest : List (List ℕ)) → token (range_text r) rest ≡ range_text r ∷ rest
token-range r rest =
    let (c, cs, e) = range_text-cons r in subst (λ t. token t rest ≡ t ∷ rest) (sym e) refl

ranges-text : (rs : List Range) → ranges (descriptor_text rs) ≡ texts rs
unfolding ranges texts split_commas
ranges-text [] = refl
ranges-text (r ∷ []) =
    ap (λ p. token p.0 p.1) (split_commas-last (range_text r) (range_text-IsRangeChar r))
    ∙ token-range r []
ranges-text (r ∷ s ∷ rs) =
    ap (λ p. token p.0 p.1)
      (split_commas-next (range_text r) (descriptor_text (s ∷ rs)) (range_text-IsRangeChar r))
    ∙ token-range r (ranges (descriptor_text (s ∷ rs)))
    ∙ ap (◌∷◌ (range_text r)) (ranges-text (s ∷ rs))

-- A printed descriptor of valid ports and ranges, shorter than 1000 characters and with 5000 ports
-- at most, is read as all its ports in their order.
pub source_ports-descriptor_text :
    (rs : List Range)
    → All IsRange rs
    → length (descriptor_text rs) < 1000
    → length (all_ports rs) ≤ 5000
    → source_ports (descriptor_text rs) ≡ accepted (all_ports rs)
unfolding source_ports
source_ports-descriptor_text rs h short few =
    let fits : ltb (length (descriptor_text rs)) 1000 ≡ true = ground arith in
    rw (is_descriptor-text rs, fits, ranges-text rs, add_ranges-texts [] rs h few) refl
