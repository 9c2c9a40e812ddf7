-- ===== src/Ports/Bounds.antt =====
-- The ports that a descriptor can give.
use udping.Base.{
  Option-cases, ℕ, zero, suc, ◌+◌, ◌-◌, ◌<◌, ◌≤◌, ◌≡◌, ◌⊎◌, inl, inr, refl, List, [], ◌∷◌, ◌++◌,
  Option, none, some, true, ltb, arith, length, length-replicate, replicate, All, All-append,
  Bool-cases, subst,
}
use udping.Constants.{max_sockets}
use udping.Text.{ℤ, pos, negsuc, atoi}
use udping.Ports.{
  accepted, refused, overrun, valid_port, ports_from, add_span, add_range, add_ranges, as_parsed,
  source_ports, split_dash, end_text, is_descriptor, ranges, split_commas,
}

abbrev pub IsPort : ℕ → Type 0
IsPort p = (1024 ≤ p) × (p ≤ 60000)

pub record IsPortList (ports : List ℕ) : Type 0 where
  pub in_range : All IsPort ports
  pub few : length ports ≤ 5000

ports_from-IsPort :
    (start count : ℕ) → 1024 ≤ start → start + count ≤ 60001 → All IsPort (ports_from start count)
unfolding ports_from
ports_from-IsPort start zero low high = tt
ports_from-IsPort start (suc count) low high =
    ((low, omega arith), ports_from-IsPort (start + 1) count (omega arith) (omega arith))

add_span-IsPortList :
    (ports : List ℕ) (start end : ℕ) (out : List ℕ)
    → IsPortList ports
    → IsPort start
    → IsPort end
    → add_span ports start end ≡ some out
    → IsPortList out
unfolding add_span
add_span-IsPortList ports start end out h hs he e =
    let added = ports ++ ports_from start (suc end - start) in
    elim (Bool-cases (ltb end start)) [
      | inl crossed ↦ absurd (cc)
      | inr straight ↦ elim (Bool-cases (ltb max_sockets (length added))) [
        | inl many ↦ absurd (cc)
        | inr fits ↦
            let same : added ≡ out = cc in
            let count : length added ≤ 5000 = ground arith in
            let order : start ≤ end = ground arith in
            subst IsPortList same (record {
              in_range =
                  All-append IsPort ports _ h.in_range
                    (ports_from-IsPort start (suc end - start) hs.0 (omega arith));
              few = count;
            })
      ]
    ]

valid_port-cases : (v : ℤ) → (valid_port v ≡ none) ⊎ ((p : ℕ) × (valid_port v ≡ some p) × IsPort p)
unfolding valid_port
valid_port-cases (pos n) = elim (Bool-cases (ltb n 1024)) [
  | inl low ↦ inl (rw low refl)
  | inr enough ↦ elim (Bool-cases (ltb 60000 n)) [
    | inl high ↦ inl (rw (enough, high) refl)
    | inr below ↦ inr (n, rw (enough, below) refl, (ground arith, ground arith))
  ]
]
valid_port-cases (negsuc n) = inl refl

add_range-IsPortList :
    (ports range out : List ℕ)
    → IsPortList ports
    → add_range ports range ≡ some out
    → IsPortList out
unfolding add_range
add_range-IsPortList ports range out h e =
    let (start_text, behind) = split_dash range in
    elim (valid_port-cases (atoi start_text)) [
      | inl bad ↦ let stop : none ≡ some out = rw (add_range, bad) at e in absurd (cc)
      | inr (start, ok_start, hs) ↦ elim (valid_port-cases (atoi (end_text start_text behind))) [
        | inl bad ↦ let stop : none ≡ some out = rw (add_range, ok_start, bad) at e in absurd (cc)
        | inr (end, ok_end, he) ↦
            let span : add_span ports start end ≡ some out =
              rw (add_range, ok_start, ok_end) at e in
            add_span-IsPortList ports start end out h hs he span
      ]
    ]

add_ranges-IsPortList :
    (ports : List ℕ) (rest : List (List ℕ)) (out : List ℕ)
    → IsPortList ports
    → add_ranges ports rest ≡ some out
    → IsPortList out
unfolding add_ranges
add_ranges-IsPortList ports [] out h e = let same : ports ≡ out = cc in subst IsPortList same h
add_ranges-IsPortList ports (range ∷ rest) out h e = elim (Option-cases (add_range ports range)) [
  | inl bad ↦ let stop : none ≡ some out = rw (add_ranges, bad) at e in absurd (cc)
  | inr (added, good) ↦
      let next : add_ranges added rest ≡ some out = rw (add_ranges, good) at e in
      add_ranges-IsPortList added rest out (add_range-IsPortList ports range added h good) next
]

accepted-injective : (a b : List ℕ) → accepted a ≡ accepted b → a ≡ b
accepted-injective a b e = cc

as_parsed-IsPortList :
    (o : Option (List ℕ)) (out : List ℕ)
    → ((ports : List ℕ) → o ≡ some ports → IsPortList ports)
    → as_parsed o ≡ accepted out
    → IsPortList out
as_parsed-IsPortList none out f e = absurd (cc)
as_parsed-IsPortList (some ports) out f e =
    subst IsPortList (accepted-injective ports out e) (f ports refl)

-- Whatever descriptor is accepted, each source port is from 1024 to 60000, and there are 5000 at
-- most.
pub source_ports-IsPortList :
    (text out : List ℕ) → source_ports text ≡ accepted out → IsPortList out
unfolding source_ports
source_ports-IsPortList text out e =
    let empty : IsPortList [] = record { in_range = tt; few = omega arith } in
    elim (Bool-cases (is_descriptor text)) [
      | inr bad ↦ let stop : refused ≡ accepted out = rw (source_ports, bad) at e in absurd (cc)
      | inl good ↦ elim (Bool-cases (ltb (length text) 1000)) [
        | inr long ↦
            let stop : overrun ≡ accepted out = rw (source_ports, good, long) at e in absurd (cc)
        | inl short ↦
            let parsed : as_parsed (add_ranges [] (ranges text)) ≡ accepted out =
              rw (source_ports, good, short) at e in
            as_parsed-IsPortList (add_ranges [] (ranges text)) out
              (λ ports f. add_ranges-IsPortList [] (ranges text) ports empty f) parsed
      ]
    ]

split_commas-commas : (n : ℕ) → split_commas (replicate n 44) ≡ ([], [])
unfolding split_commas
split_commas-commas zero = refl
split_commas-commas (suc n) = rw (split_commas-commas n) refl

is_descriptor-commas : (n : ℕ) → is_descriptor (replicate n 44) ≡ true
unfolding is_descriptor
is_descriptor-commas zero = refl
is_descriptor-commas (suc n) = is_descriptor-commas n

-- A descriptor that is empty, or of commas alone and shorter than 1000, is accepted with no port
-- at all: the check for this stands inside the loop over the ranges.
pub source_ports_commas : (n : ℕ) → n < 1000 → source_ports (replicate n 44) ≡ accepted []
unfolding source_ports ranges add_ranges
source_ports_commas n h =
    let short : ltb (length (replicate {A = ℕ} n 44)) 1000 ≡ true =
      ground (arith, length-replicate {A = ℕ} n 44) in
    rw (is_descriptor-commas n, short, ranges, split_commas-commas n) refl
