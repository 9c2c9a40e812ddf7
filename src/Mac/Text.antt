-- ===== src/Mac/Text.antt =====
-- A list of addresses as the text of the -a option, and the constructor on that text.
use mathlib.Core.List.{append_assoc, append-nil}
use udping.Base.{
  ℕ, suc, ◌+◌, ◌/◌, ◌%◌, ◌≡◌, refl, sym, ap, ◌∙◌, List, [], ◌∷◌, ◌++◌, none, some, false, arith,
  length, ◌==◌, IsBytes, All,
}
use mathlib.Core.Path.{ap₂}
use udping.Mac.{MacList, to_string, new_mac_list, parse_macs, count_macs, count_commas, from_comma}
use udping.Mac.Scan.{hex_text, hex_value, scan_mac, scan_fields}
use udping.Mac.RoundTrip.{hex_char-IsPlain, scan_fields-to_string}

-- Six bytes.
abbrev pub IsMac : List ℕ → Type 0
IsMac mac = (length mac ≡ 6) × IsBytes mac

-- The addresses' texts, with a comma between each two.
unfoldable pub text_of : List (List ℕ) → List ℕ
text_of [] = []
text_of (m ∷ []) = to_string m
text_of (m ∷ n ∷ ms) = to_string m ++ (44 ∷ text_of (n ∷ ms))

abbrev HasNoComma : List ℕ → Type 0
HasNoComma = All (λ c. (c == 44) ≡ false)

to_string-HasNoComma : (bs : List ℕ) → IsBytes bs → HasNoComma (to_string bs)
unfolding to_string hex_text
to_string-HasNoComma [] p = tt
to_string-HasNoComma (b ∷ []) p =
    let high = hex_char-IsPlain (b / 16) (omega arith) in
    let low = hex_char-IsPlain (b % 16) (omega arith) in (high.4, (low.4, tt))
to_string-HasNoComma (b ∷ c ∷ bs) p =
    let high = hex_char-IsPlain (b / 16) (omega arith) in
    let low = hex_char-IsPlain (b % 16) (omega arith) in
    (high.4, (low.4, (refl, to_string-HasNoComma (c ∷ bs) p.1)))

count_commas-append : (xs ys : List ℕ) → HasNoComma xs → count_commas (xs ++ ys) ≡ count_commas ys
unfolding count_commas
count_commas-append [] ys h = refl
count_commas-append (x ∷ xs) ys h = rw h.0 (count_commas-append xs ys h.1)

from_comma-append : (xs ys : List ℕ) → HasNoComma xs → from_comma (xs ++ (44 ∷ ys)) ≡ some (44 ∷ ys)
unfolding from_comma
from_comma-append [] ys h = refl
from_comma-append (x ∷ xs) ys h = rw h.0 (from_comma-append xs ys h.1)

count_commas-text_of :
    (m : List ℕ) (ms : List (List ℕ))
    → All IsMac (m ∷ ms)
    → count_commas (text_of (m ∷ ms)) ≡ length ms
unfolding text_of count_commas
count_commas-text_of m [] h =
    ap count_commas (sym (append-nil (to_string m)))
    ∙ count_commas-append (to_string m) [] (to_string-HasNoComma m h.0.1)
count_commas-text_of m (n ∷ ms) h =
    count_commas-append (to_string m) (44 ∷ text_of (n ∷ ms)) (to_string-HasNoComma m h.0.1)
    ∙ ap suc (count_commas-text_of n ms h.1)

abbrev StartsPlain : List ℕ → Type 0
StartsPlain t = (c : ℕ) × (cs : List ℕ) × (t ≡ c ∷ cs) × ((c == 44) ≡ false)

to_string-StartsPlain : (m : List ℕ) → IsMac m → StartsPlain (to_string m)
unfolding to_string hex_text
to_string-StartsPlain [] h = absurd (omega arith)
to_string-StartsPlain (b ∷ []) h = absurd (omega arith)
to_string-StartsPlain (b ∷ c ∷ bs) h =
    let high = hex_char-IsPlain (b / 16) (omega arith) in (_, _, refl, high.4)

text_of-StartsPlain : (m : List ℕ) (ms : List (List ℕ)) → IsMac m → StartsPlain (text_of (m ∷ ms))
unfolding text_of
text_of-StartsPlain m [] h = to_string-StartsPlain m h
text_of-StartsPlain m (n ∷ ms) h =
    let (c, cs, e, plain) = to_string-StartsPlain m h in
    (c, cs ++ (44 ∷ text_of (n ∷ ms)), ap (λ t. t ++ (44 ∷ text_of (n ∷ ms))) e, plain)

count_macs-StartsPlain : (t : List ℕ) → StartsPlain t → count_macs t ≡ suc (count_commas t)
unfolding count_macs count_commas
count_macs-StartsPlain [] (c, cs, e, plain) = cc
count_macs-StartsPlain (d ∷ ds) (c, cs, e, plain) =
    let same : (d == 44) ≡ false = cc in rw same (omega arith)

-- The text begins with a digit, so the count starts behind it and misses no comma.
count_macs-text_of :
    (m : List ℕ) (ms : List (List ℕ))
    → All IsMac (m ∷ ms)
    → count_macs (text_of (m ∷ ms)) ≡ suc (length ms)
count_macs-text_of m ms h =
    count_macs-StartsPlain (text_of (m ∷ ms)) (text_of-StartsPlain m ms h.0)
    ∙ ap suc (count_commas-text_of m ms h)

comma-StopsHex : hex_value 44 ≡ none
unfolding hex_value
comma-StopsHex = refl

abbrev filled : ℕ → List (List ℕ) → MacList
filled n macs = record { num_macs = n; cur_mac = n; macs = macs }

parse_macs-text_of :
    (m : List ℕ) (ms : List (List ℕ)) (index : ℕ) (done : List (List ℕ))
    → All IsMac (m ∷ ms)
    → parse_macs (suc (length ms)) index done (some (text_of (m ∷ ms)))
      ≡ filled (index + suc (length ms)) (done ++ (m ∷ ms))
unfolding parse_macs text_of scan_mac
parse_macs-text_of m [] index done h =
    let scanned =
      ap (scan_fields 5) (sym (append-nil (to_string m)))
      ∙ scan_fields-to_string 5 m [] h.0.0 h.0.1 tt in
    rw (scanned, parse_macs) refl
parse_macs-text_of m (n ∷ ms) index done h =
    let rest = 44 ∷ text_of (n ∷ ms) in
    let scanned = scan_fields-to_string 5 m rest h.0.0 h.0.1 comma-StopsHex in
    let comma = from_comma-append (to_string m) (text_of (n ∷ ms)) (to_string-HasNoComma m h.0.1) in
    rw (scanned, parse_macs, comma)
      (parse_macs-text_of n ms (index + 1) (done ++ (m ∷ [])) h.1
        ∙ ap₂ filled (omega arith) (append_assoc done (m ∷ []) (n ∷ ms)))

-- The constructor, on the text of a list of one address or more, each of six bytes, gives those
-- addresses, byte for byte, and leaves the index at their count, so that the first call hands out
-- the first address.
pub new_mac_list-text_of :
    (m : List ℕ) (ms : List (List ℕ))
    → All IsMac (m ∷ ms)
    → new_mac_list (text_of (m ∷ ms))
      ≡ record { num_macs = suc (length ms); cur_mac = suc (length ms); macs = m ∷ ms }
unfolding new_mac_list
new_mac_list-text_of m ms h =
    ap (λ n. parse_macs n 0 [] (some (text_of (m ∷ ms)))) (count_macs-text_of m ms h)
    ∙ parse_macs-text_of m ms 0 [] h
    ∙ ap (λ n. filled n (m ∷ ms)) (omega arith)
