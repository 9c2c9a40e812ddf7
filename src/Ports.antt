-- ===== src/Ports.antt =====
-- The source port descriptor that the constructor of `ClientSessionList` reads, in
-- src/clientsession.cc, and the sessions that it makes.
pub mod Bounds
pub mod Start
pub mod Order
pub mod Ranges
use udping.Base.{
  ℕ, zero, suc, ◌+◌, ◌-◌, List, [], ◌∷◌, ◌++◌, Option, none, some, Bool, true, false, ◌&&◌, ◌||◌,
  ltb, leb, ◌==◌, if◌then◌else◌, length,
}
use udping.Constants.{min_port, max_port, max_sockets}
use udping.Text.{ℤ, pos, negsuc, atoi, is_digit}
use udping.Mac.{MacList}
use udping.Client.{ClientSession, ClientList, Random, new_client_session}

-- `refused` is an exit with a message; `overrun` is a descriptor that fills the buffer of 1000
-- bytes, which strncpy then leaves without its terminator.
pub data Parsed : Type 0 where
  accepted : List ℕ → Parsed
  refused : Parsed
  overrun : Parsed

-- No character but digits, commas and dashes, as `find_first_not_of` tests it.
unfoldable pub is_descriptor : List ℕ → Bool
is_descriptor [] = true
is_descriptor (c ∷ cs) = (is_digit c || (c == 44 || c == 45)) && is_descriptor cs

-- strtok_r passes over empty tokens.
abbrev pub token : List ℕ → List (List ℕ) → List (List ℕ)
token [] rest = rest
token (c ∷ cs) rest = (c ∷ cs) ∷ rest

-- The text up to the first comma, and the tokens behind it.
unfoldable pub split_commas : List ℕ → List ℕ × List (List ℕ)
split_commas [] = ([], [])
split_commas (c ∷ cs) =
    let (cur, rest) = split_commas cs in if c == 44 then ([], token cur rest) else (c ∷ cur, rest)

unfoldable pub ranges : List ℕ → List (List ℕ)
unfolding split_commas
ranges text = let (cur, rest) = split_commas text in token cur rest

-- The text before the first dash, and the text behind it if there is one.
unfoldable pub split_dash : List ℕ → List ℕ × Option (List ℕ)
split_dash [] = ([], none)
split_dash (c ∷ cs) =
    let (before, behind) = split_dash cs in if c == 45 then ([], some cs) else (c ∷ before, behind)

-- `isValidPort`, with the port as the result; `none` is its exit.
unfoldable pub valid_port : ℤ → Option ℕ
valid_port (pos n) = if ltb n min_port then none else if ltb max_port n then none else some n
valid_port (negsuc n) = none

unfoldable pub end_text : List ℕ → Option (List ℕ) → List ℕ
end_text start none = start
end_text start (some text) = text

-- `count` ports from `start` on.
unfoldable pub ports_from : ℕ → ℕ → List ℕ
ports_from start zero = []
ports_from start (suc count) = start ∷ ports_from (start + 1) count

-- The ports with those of a range added; `none` is an exit.
unfoldable pub add_span : List ℕ → ℕ → ℕ → Option (List ℕ)
unfolding ports_from
add_span ports start end =
    let added = ports ++ ports_from start (suc end - start) in
    if ltb end start then none else if ltb max_sockets (length added) then none else some added

-- One round of the loop over the ranges.
unfoldable pub add_range : List ℕ → List ℕ → Option (List ℕ)
unfolding split_dash valid_port end_text add_span atoi
add_range ports range =
    let (start_text, behind) = split_dash range in
    elim (valid_port (atoi start_text)) [
      | none ↦ none
      | some start ↦ elim (valid_port (atoi (end_text start_text behind))) [
        | none ↦ none
        | some end ↦ add_span ports start end
      ]
    ]

unfoldable pub add_ranges : List ℕ → List (List ℕ) → Option (List ℕ)
unfolding add_range
add_ranges ports [] = some ports
add_ranges ports (range ∷ rest) = elim (add_range ports range) [
  | none ↦ none
  | some added ↦ add_ranges added rest
]

abbrev pub as_parsed : Option (List ℕ) → Parsed
as_parsed none = refused
as_parsed (some ports) = accepted ports

unfoldable pub source_ports : List ℕ → Parsed
unfolding is_descriptor ranges add_ranges
source_ports text =
    if is_descriptor text
    then (if ltb (length text) 1000 then as_parsed (add_ranges [] (ranges text)) else overrun)
    else refused

-- A session for each port, in order; `now` is the clock at the making of each.
unfoldable pub new_sessions : List ℕ → MacList → (ℕ → ℕ) → Random → List ClientSession × Random
new_sessions [] macs now r = ([], r)
new_sessions (port ∷ ports) macs now r =
    let (s, r1) = new_client_session port macs (now port) r in
    let (rest, r2) = new_sessions ports macs now r1 in (s ∷ rest, r2)

-- What the constructor leaves for the ports that it read; the addresses come from the resolver
-- and the interface.
unfoldable pub new_client_list :
    (max_packet_size interval src_ip dst_ip : ℕ)
    → List ℕ
    → ℕ
    → List ℕ
    → MacList
    → (ℕ → ℕ)
    → Random
    → ClientList × Random
unfolding new_sessions
new_client_list max_packet_size interval src_ip dst_ip src_mac dst_port ports macs now r =
    let (sessions, r1) = new_sessions ports macs now r in
    (
      record {
        max_packet_size = max_packet_size;
        interval = interval;
        src_ip = src_ip;
        dst_ip = dst_ip;
        src_mac = src_mac;
        dst_port = dst_port;
        sessions = sessions;
        cur_session = 0;
      },
      r1,
    )
