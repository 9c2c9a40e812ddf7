-- ===== src/Mac/Scan.antt =====
-- The C library's `%hhx` conversions, as `sscanf` makes them.
use udping.Base.{
  ℕ, zero, suc, ◌+◌, ◌-◌, ◌*◌, ◌/◌, ◌%◌, ◌^◌, List, [], ◌∷◌, Option, none, some, Bool, ◌&&◌, ◌||◌,
  ltb, leb, ◌==◌, if◌then◌else◌,
}
use udping.Text.{is_digit, is_space}

-- The value of a hexadecimal digit.
unfoldable pub hex_value : ℕ → Option ℕ
hex_value c =
    if is_digit c
    then some (c - 48)
    else if leb 97 c && leb c 102
    then some (c - 87)
    else if leb 65 c && leb c 70
    then some (c - 55)
    else none

abbrev pub ulong_max : ℕ
ulong_max = 2 ^ 64 - 1

-- The digits in front, after a value that saturates, and what follows them.
unfoldable pub hex_digits : ℕ → List ℕ → ℕ × List ℕ
hex_digits acc [] = (acc, [])
hex_digits acc (c ∷ cs) = elim (hex_value c) [
  | none ↦ (acc, c ∷ cs)
  | some v ↦ hex_digits (if ltb ulong_max (acc * 16 + v) then ulong_max else acc * 16 + v) cs
]

-- At least one digit, behind an optional "0x".
unfoldable pub scan_digits : List ℕ → Option (ℕ × List ℕ)
scan_digits [] = none
scan_digits (c ∷ cs) = elim (hex_value c) [ none ↦ none | some v ↦ some (hex_digits 0 (c ∷ cs)) ]

abbrev pub is_x : ℕ → Bool
is_x c = c == 120 || c == 88

unfoldable pub scan_prefixed : List ℕ → Option (ℕ × List ℕ)
scan_prefixed [] = none
scan_prefixed (c ∷ []) = scan_digits (c ∷ [])
scan_prefixed (c ∷ x ∷ cs) = if c == 48 && is_x x then scan_digits cs else scan_digits (c ∷ x ∷ cs)

abbrev pub negated : Option (ℕ × List ℕ) → Option (ℕ × List ℕ)
negated none = none
negated (some (v, rest)) = some ((2 ^ 64 - v) % 2 ^ 64, rest)

-- One `%hhx`: blanks, a sign, the digits; the value keeps its low byte.
unfoldable pub scan_number : List ℕ → Option (ℕ × List ℕ)
scan_number [] = none
scan_number (c ∷ cs) =
    if is_space c
    then scan_number cs
    else if c == 45
    then negated (scan_prefixed cs)
    else if c == 43
    then scan_prefixed cs
    else scan_prefixed (c ∷ cs)

-- A colon, then the fields that `more` reads.
unfoldable pub with_rest : (List ℕ → Option (List ℕ)) → ℕ → List ℕ → Option (List ℕ)
with_rest more b [] = none
with_rest more b (c ∷ cs) =
    if c == 58 then elim (more cs) [ none ↦ none | some bs ↦ some (b ∷ bs) ] else none

-- `n + 1` conversions with a colon between each two.
unfoldable pub scan_fields : ℕ → List ℕ → Option (List ℕ)
scan_fields zero s = elim (scan_number s) [ none ↦ none | some (v, rest) ↦ some ((v % 256) ∷ []) ]
scan_fields (suc n) s =
    let more = scan_fields n in
    elim (scan_number s) [ none ↦ none | some (v, rest) ↦ with_rest more (v % 256) rest ]

-- The six fields of an address; fewer than six is a failure.
unfoldable pub scan_mac : List ℕ → Option (List ℕ)
scan_mac s = scan_fields 5 s

-- "%02x" of a byte.
abbrev pub hex_char : ℕ → ℕ
hex_char d = if ltb d 10 then 48 + d else 87 + d

unfoldable pub hex_text : ℕ → List ℕ
hex_text b = hex_char (b / 16) ∷ hex_char (b % 16) ∷ []
