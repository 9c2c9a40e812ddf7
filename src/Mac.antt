-- ===== src/Mac.antt =====
-- `MacList` of src/maclist.cc: the next-hop addresses, parsed from a text and handed out in turn.
pub mod Scan
pub mod RoundTrip
pub mod Text
pub mod Rotation
pub mod Filled
use mathlib.Core.Option
use udping.Base.{
  ℕ, zero, suc, ◌+◌, ◌-◌, ◌*◌, ◌/◌, ◌%◌, ◌^◌, List, [], ◌∷◌, ◌++◌, Option, none, some, Bool, true,
  false, ◌&&◌, ◌||◌, ltb, leb, ◌==◌, if◌then◌else◌, length, get_elem?, drop,
}
use udping.Program.{Run, returns, crashes}
use Scan.{scan_mac, hex_text}

-- `cur_mac` and the addresses; where `num_macs` is 0 the list is invalid.
pub record MacList : Type 0 where
  pub num_macs : ℕ
  pub cur_mac : ℕ
  pub macs : List (List ℕ)

-- `strchr (s, ',')`: the text from the first comma on.
unfoldable pub from_comma : List ℕ → Option (List ℕ)
from_comma [] = none
from_comma (c ∷ cs) = if c == 44 then some (c ∷ cs) else from_comma cs

unfoldable pub count_commas : List ℕ → ℕ
count_commas [] = 0
count_commas (c ∷ cs) = let rest = count_commas cs in if c == 44 then suc rest else rest

-- The number of addresses of a text that is not empty: a comma in the first place is not counted.
-- For an empty text the search starts behind the terminator: `make_mac_list` has that case.
unfoldable pub count_macs : List ℕ → ℕ
count_macs [] = 1
count_macs (c ∷ cs) = 1 + count_commas cs

-- The loop of the constructor: `left` addresses from `index` on, read at `mls`. At a text that is
-- not there (`strchr` found no comma) nothing is read any more: `none` for the pointer.
unfoldable pub parse_macs : ℕ → ℕ → List (List ℕ) → Option (List ℕ) → MacList
parse_macs zero index done mls = record { num_macs = index; cur_mac = index; macs = done }
parse_macs (suc left) index done none = record { num_macs = 0; cur_mac = index; macs = done }
parse_macs (suc left) index done (some s) =
    let failed : MacList = record { num_macs = 0; cur_mac = index; macs = done } in
    let next = λ (mac : List ℕ).
      parse_macs left (index + 1) (done ++ (mac ∷ []))
        (Option.map (λ t. drop 1 t) (from_comma s)) in
    elim (scan_mac s) [ none ↦ failed | some mac ↦ next mac ]

-- The list of a text that is not empty.
unfoldable pub new_mac_list : List ℕ → MacList
new_mac_list text = parse_macs (count_macs text) 0 [] (some text)

-- The constructor: an empty text is read past its terminator.
unfoldable pub make_mac_list : List ℕ → Run MacList
unfolding new_mac_list
make_mac_list [] = crashes
make_mac_list (c ∷ cs) = returns (new_mac_list (c ∷ cs))

-- The next address and the list afterwards; no address is the null pointer.
unfoldable pub next_mac : MacList → Option (List ℕ) × MacList
next_mac l =
    if l.num_macs == 0
    then (none, l)
    else (let cur = if leb l.num_macs (l.cur_mac + 1) then 0 else l.cur_mac + 1 in
        (get_elem? l.macs cur, record l { cur_mac = cur }))

-- The text of an address, "%02x:%02x:%02x:%02x:%02x:%02x".
unfoldable pub to_string : List ℕ → List ℕ
to_string [] = []
to_string (b ∷ []) = hex_text b
to_string (b ∷ c ∷ bs) = hex_text b ++ (58 ∷ to_string (c ∷ bs))
