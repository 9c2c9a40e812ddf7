-- ===== src/Mac/Filled.antt =====
-- What the constructor leaves when it takes a text.
use mathlib.Core.Option
use udping.Base.{
  Bool-cases, ◌%◌, ◌==◌, sym, ap, ◌∙◌, All, All-append, ℕ, zero, suc, ◌+◌, ◌<◌, ◌≡◌, refl, List, [],
  ◌∷◌, ◌++◌, Option, none, some, inl, inr, arith, length, length-append, Option-cases, drop,
}
use udping.Mac.{parse_macs, new_mac_list, count_macs, from_comma}
use udping.Mac.Scan.{scan_mac, scan_fields, scan_number, with_rest}
use udping.Mac.Rotation.{IsFilled}

abbrev IsSix : List ℕ → Type 0
IsSix mac = length mac ≡ 6

with_rest-length :
    (n b : ℕ) (more : List ℕ → Option (List ℕ)) (s bs : List ℕ)
    → ((t cs : List ℕ) → more t ≡ some cs → length cs ≡ n)
    → with_rest more b s ≡ some bs
    → length bs ≡ suc n
unfolding with_rest
with_rest-length n b more [] bs each e = absurd (cc)
with_rest-length n b more (c ∷ s) bs each e = elim (Bool-cases (c == 58)) [
  | inr other ↦ let stop : none ≡ some bs = rw (with_rest, other) at e in absurd (cc)
  | inl colon ↦ elim (Option-cases (more s)) [
    | inl bad ↦ let stop : none ≡ some bs = rw (with_rest, colon, bad) at e in absurd (cc)
    | inr (cs, good) ↦
        let run : some (b ∷ cs) ≡ some bs = rw (with_rest, colon, good) at e in
        let same : b ∷ cs ≡ bs = cc in ap length (sym same) ∙ ap suc (each s cs good)
  ]
]

scan_fields-length : (n : ℕ) (s bs : List ℕ) → scan_fields n s ≡ some bs → length bs ≡ suc n
unfolding scan_fields
scan_fields-length zero s bs e = elim (Option-cases (scan_number s)) [
  | inl bad ↦ let stop : none ≡ some bs = rw (scan_fields, bad) at e in absurd (cc)
  | inr ((v, rest), good) ↦
      let run : some ((v % 256) ∷ []) ≡ some bs = rw (scan_fields, good) at e in
      let same : (v % 256) ∷ [] ≡ bs = cc in ap length (sym same)
]
scan_fields-length (suc n) s bs e = elim (Option-cases (scan_number s)) [
  | inl bad ↦ let stop : none ≡ some bs = rw (scan_fields, bad) at e in absurd (cc)
  | inr ((v, rest), good) ↦
      let run : with_rest (scan_fields n) (v % 256) rest ≡ some bs = rw (scan_fields, good) at e in
      with_rest-length (suc n) (v % 256) (scan_fields n) rest bs (scan_fields-length n) run
]

parse_macs-IsFilled :
    (left index : ℕ) (done : List (List ℕ)) (s : Option (List ℕ))
    → length done ≡ index
    → All IsSix done
    → 0 < (parse_macs left index done s).num_macs
    → IsFilled (parse_macs left index done s)
unfolding parse_macs scan_mac
parse_macs-IsFilled zero index done s e six h = record {
  nonempty = h;
  complete = e;
  six_bytes = six;
}
parse_macs-IsFilled (suc left) index done none e six h = absurd (omega (arith, h))
parse_macs-IsFilled (suc left) index done (some s) e six h = elim (Option-cases (scan_mac s)) [
  | inl bad ↦ let stop : 0 < 0 = rw (parse_macs, bad) at h in absurd (omega (arith, stop))
  | inr (mac, good) ↦
      let rest = Option.map (λ t. drop 1 t) (from_comma s) in
      let more = done ++ (mac ∷ []) in
      let next : 0 < (parse_macs left (index + 1) more rest).num_macs =
        rw (parse_macs, good) at h in
      rw (parse_macs, good)
        (parse_macs-IsFilled left (index + 1) more rest
          (omega (arith, length-append done (mac ∷ [])))
          (All-append IsSix done (mac ∷ []) six (scan_fields-length 5 s mac good, tt)) next)
]

-- A list that the constructor does not mark as invalid has an address for each number below its
-- count, each of six bytes.
pub new_mac_list-IsFilled :
    (text : List ℕ) → 0 < (new_mac_list text).num_macs → IsFilled (new_mac_list text)
unfolding new_mac_list
new_mac_list-IsFilled text h = parse_macs-IsFilled (count_macs text) 0 [] (some text) refl tt h
