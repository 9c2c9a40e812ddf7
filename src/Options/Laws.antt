-- ===== src/Options/Laws.antt =====
-- What the options give.
use udping.Base.{
  ℕ, ◌≤◌, ◌≡◌, ◌≢◌, ◌⊎◌, inl, inr, refl, List, [], ◌∷◌, Option, some, Bool, true, false, ◌==◌,
  if◌then◌else◌, arith, All,
}
use udping.Program.{returns, exits, crashes}
use udping.Text.{ℤ, pos, negsuc, atoi}
use udping.Options.{
  Value, unset, flag, text, Options, Parsed, value_of, set_option, parse_loop, check_range,
  parse_int_option, get_string_option,
}

check_range-returns :
    (v : ℤ) (min max n : ℕ) → check_range v min max ≡ returns n → (min ≤ n) × (n ≤ max)
unfolding check_range
check_range-returns (pos v) min max n e = ground arith
check_range-returns (negsuc v) min max n e = absurd (cc)

-- An option that is given has its number in range.
abbrev pub IsChecked : Options → ℕ → Bool → ℕ → ℕ → ℕ → Type 0
IsChecked o index required min max n =
    ((min ≤ n) × (n ≤ max)) ⊎ ((required ≡ false) × (o index ≡ unset) × (n ≡ 0))

by_value :
    (o : Options) (index : ℕ) (required : Bool) (min max n : ℕ) (v : Value)
    → o index ≡ v
    → parse_int_option o index required min max ≡ returns n
    → IsChecked o index required min max n
unfolding parse_int_option
by_value o index true min max n unset h e =
    let stop : exits 255 ≡ returns n = rw (parse_int_option, h) at e in absurd (cc)
by_value o index false min max n unset h e =
    let zeroed : returns 0 ≡ returns n = rw (parse_int_option, h) at e in
    let same : n ≡ 0 = cc in inr (refl, h, same)
by_value o index required min max n flag h e =
    let stop : crashes ≡ returns n = rw (parse_int_option, h) at e in absurd (cc)
by_value o index required min max n (text s) h e =
    let run : check_range (atoi s) min max ≡ returns n = rw (parse_int_option, h) at e in
    inl (check_range-returns (atoi s) min max n run)

-- A number that an option gives is in the range that the caller names, or 0 where the option is
-- neither required nor given.
pub parse_int_option-returns :
    (o : Options) (index : ℕ) (required : Bool) (min max n : ℕ)
    → parse_int_option o index required min max ≡ returns n
    → IsChecked o index required min max n
parse_int_option-returns o index required min max n e =
    by_value o index required min max n (o index) refl e

-- In a closed range.
abbrev pub IsBetween : ℕ → ℕ → ℕ → Type 0
IsBetween min max n = (min ≤ n) × (n ≤ max)

pub required-IsBetween :
    (o : Options) (index min max n : ℕ)
    → parse_int_option o index true min max ≡ returns n
    → IsBetween min max n
required-IsBetween o index min max n e = given (parse_int_option-returns o index true min max n e)
  where
    given :
        IsBetween min max n ⊎ ((true ≡ false) × (o index ≡ unset) × (n ≡ 0)) → IsBetween min max n
    given (inl h) = h
    given (inr h) = absurd (cc)

-- A required text is never the null pointer.
pub get_string_option-required :
    (o : Options) (index : ℕ) (s : Option (List ℕ))
    → get_string_option o index true ≡ returns s
    → (t : List ℕ) × (s ≡ some t)
unfolding get_string_option
get_string_option-required o index s e = by_text (o index) refl
  where
    by_text : (v : Value) → o index ≡ v → (t : List ℕ) × (s ≡ some t)
    by_text unset h =
        let stop : exits 255 ≡ returns s = rw (get_string_option, h) at e in absurd (cc)
    by_text flag h =
        let stop : exits 255 ≡ returns s = rw (get_string_option, h) at e in absurd (cc)
    by_text (text t) h =
        let run : returns (some t) ≡ returns s = rw (get_string_option, h) at e in
        let same : s ≡ some t = cc in (t, same)

-- The results of `getopt` without an error.
abbrev pub IsKnown : Parsed → Type 0
IsKnown p = p.opt ≢ 63

-- The value that the last of the results for an option leaves.
abbrev pub last_value : List Parsed → ℕ → Value → Value
last_value [] c v = v
last_value (p ∷ ps) c v = last_value ps c (if c == p.opt then value_of p.optarg else v)

-- The table holds for each option what its last occurrence gave.
pub parse_loop-last :
    (ps : List Parsed) (o : Options)
    → All IsKnown ps
    → (o' : Options) × (parse_loop ps o ≡ returns o') × ((c : ℕ) → o' c ≡ last_value ps c (o c))
unfolding parse_loop
parse_loop-last [] o h = (o, refl, λ c. refl)
parse_loop-last (p ∷ ps) o h =
    let (o', run, each) = parse_loop-last ps (set_option o p.opt (value_of p.optarg)) h.1 in
    let known : (p.opt == 63) ≡ false = ground arith in (o', rw known run, each)
