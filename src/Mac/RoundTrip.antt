-- ===== src/Mac/RoundTrip.antt =====
-- Printed addresses, joined by commas, are parsed back.
use udping.Base.{
  ℕ, zero, suc, ◌+◌, ◌*◌, ◌/◌, ◌%◌, ◌<◌, ◌≡◌, refl, ap, ◌∙◌, List, [], ◌∷◌, ◌++◌, none, some, false,
  arith, length, ◌==◌, ltb, if◌then◌else◌, IsBytes,
}
use udping.Text.{is_space}
use udping.Mac.{to_string}
use udping.Mac.Scan.{
  hex_value, hex_digits, scan_digits, scan_prefixed, scan_number, scan_fields, with_rest, hex_char,
  hex_text, is_x, ulong_max,
}

-- The text does not go on with a hexadecimal digit.
abbrev pub StopsHex : List ℕ → Type 0
StopsHex [] = Unit
StopsHex (c ∷ cs) = hex_value c ≡ none

hex_value-hex_char : (d : ℕ) → d < 16 → hex_value (hex_char d) ≡ some d
unfolding hex_value
hex_value-hex_char d h = ground arith

-- A hexadecimal digit is none of the characters that the scanner treats apart.
pub hex_char-IsPlain :
    (d : ℕ)
    → d < 16
    → (is_space (hex_char d) ≡ false)
      × (is_x (hex_char d) ≡ false)
      × ((hex_char d == 45) ≡ false)
      × ((hex_char d == 43) ≡ false)
      × ((hex_char d == 44) ≡ false)
hex_char-IsPlain d h = (ground arith, ground arith, ground arith, ground arith, ground arith)

hex_digits-stops : (acc : ℕ) (rest : List ℕ) → StopsHex rest → hex_digits acc rest ≡ (acc, rest)
unfolding hex_digits
hex_digits-stops acc [] h = refl
hex_digits-stops acc (c ∷ cs) h = rw (h, hex_digits) refl

abbrev saturated : ℕ → ℕ
saturated v = if ltb ulong_max v then ulong_max else v

hex_digits-step :
    (acc c v : ℕ) (cs : List ℕ)
    → hex_value c ≡ some v
    → hex_digits acc (c ∷ cs) ≡ hex_digits (saturated (acc * 16 + v)) cs
unfolding hex_digits
hex_digits-step acc c v cs h = rw (h, hex_digits) refl

hex_digits-hex_text :
    (b : ℕ) (rest : List ℕ)
    → b < 256
    → StopsHex rest
    → hex_digits 0 (hex_text b ++ rest) ≡ (b, rest)
unfolding hex_text
hex_digits-hex_text b rest hb h =
    let high = hex_value-hex_char (b / 16) (omega arith) in
    let low = hex_value-hex_char (b % 16) (omega arith) in
    let value : saturated (saturated (0 * 16 + b / 16) * 16 + b % 16) ≡ b = ground arith in
    hex_digits-step 0 (hex_char (b / 16)) (b / 16) (hex_char (b % 16) ∷ rest) high
    ∙ hex_digits-step (saturated (0 * 16 + b / 16)) (hex_char (b % 16)) (b % 16) rest low
    ∙ ap (λ v. hex_digits v rest) value
    ∙ hex_digits-stops b rest h

scan_digits-hex_text :
    (b : ℕ) (rest : List ℕ)
    → b < 256
    → StopsHex rest
    → scan_digits (hex_text b ++ rest) ≡ some (b, rest)
unfolding scan_digits hex_text
scan_digits-hex_text b rest hb h =
    let high = hex_value-hex_char (b / 16) (omega arith) in
    rw (high, scan_digits) (ap some (hex_digits-hex_text b rest hb h))

scan_number-hex_text :
    (b : ℕ) (rest : List ℕ)
    → b < 256
    → StopsHex rest
    → scan_number (hex_text b ++ rest) ≡ some (b, rest)
unfolding scan_number scan_prefixed hex_text
scan_number-hex_text b rest hb h =
    let high = hex_char-IsPlain (b / 16) (omega arith) in
    let low = hex_char-IsPlain (b % 16) (omega arith) in
    ground (arith, high, low, scan_digits-hex_text b rest hb h)

colon-StopsHex : hex_value 58 ≡ none
unfolding hex_value
colon-StopsHex = refl

pub scan_fields-to_string :
    (n : ℕ) (bs rest : List ℕ)
    → length bs ≡ suc n
    → IsBytes bs
    → StopsHex rest
    → scan_fields n (to_string bs ++ rest) ≡ some bs
unfolding scan_fields to_string with_rest hex_text
scan_fields-to_string n [] rest e p h = absurd (omega arith)
scan_fields-to_string zero (b ∷ []) rest e p h =
    rw (scan_number-hex_text b rest p.0 h, scan_fields) (ap (λ x. some (x ∷ [])) (omega arith))
scan_fields-to_string zero (b ∷ c ∷ bs) rest e p h = absurd (omega arith)
scan_fields-to_string (suc n) (b ∷ []) rest e p h = absurd (omega arith)
scan_fields-to_string (suc n) (b ∷ c ∷ bs) rest e p h =
    let ih = scan_fields-to_string n (c ∷ bs) rest (omega arith) p.1 h in
    rw
      (
        scan_number-hex_text b (58 ∷ (to_string (c ∷ bs) ++ rest)) p.0 colon-StopsHex,
        scan_fields,
        ih,
      )
      (ap (λ x. some (x ∷ c ∷ bs)) (omega arith))
