-- ===== src/Tests/Macs.antt =====
-- Next-hop addresses, and numbers in decimal.
use udping.Base.{ℕ, ◌%◌, ◌≡◌, refl, List, [], ◌∷◌, arith, get_elem?}
use udping.Text.{codes}
use udping.Mac.{
  MacList, new_mac_list, next_mac, parse_macs, count_macs, count_commas, from_comma, to_string,
}
use udping.Mac.Scan.{
  scan_mac, scan_fields, scan_number, scan_prefixed, scan_digits, hex_value, with_rest, hex_digits,
  hex_text,
}
use udping.Mac.Text.{text_of, new_mac_list-text_of}
use udping.Mac.Rotation.{after_calls, next_mac-rotation}

abbrev mac_a : List ℕ
mac_a = 0 ∷ 0x1b ∷ 0x21 ∷ 0xaa ∷ 0xff ∷ 9 ∷ []

abbrev mac_b : List ℕ
mac_b = 2 ∷ 3 ∷ 4 ∷ 5 ∷ 6 ∷ 7 ∷ []

abbrev two_macs : MacList
two_macs = record { num_macs = 2; cur_mac = 2; macs = mac_a ∷ mac_b ∷ [] }

-- Upper case and missing zeros are read too, and an address with five fields is refused.
parsed :
    (new_mac_list (codes "0:1B:21:aa:FF:9,2:3:4:5:6:7") ≡ two_macs)
    × ((new_mac_list (codes "0:1b:21:aa:ff")).num_macs ≡ 0)
unfolding new_mac_list parse_macs count_macs count_commas scan_mac scan_fields scan_number
    scan_prefixed scan_digits hex_value with_rest hex_digits from_comma
parsed = (refl, refl)

printed : text_of (mac_a ∷ mac_b ∷ []) ≡ codes "00:1b:21:aa:ff:09,02:03:04:05:06:07"
unfolding text_of to_string hex_text
printed = refl

new_mac_list-text_of_example : new_mac_list (text_of (mac_a ∷ mac_b ∷ [])) ≡ two_macs
new_mac_list-text_of_example = new_mac_list-text_of mac_a (mac_b ∷ []) (omega arith)

next_mac-rotation_example :
    (next_mac (after_calls 3 two_macs)).0 ≡ get_elem? (mac_a ∷ mac_b ∷ []) (3 % 2)
next_mac-rotation_example =
    next_mac-rotation 3 two_macs
      (record { nonempty = omega arith; complete = refl; six_bytes = omega arith }) refl
