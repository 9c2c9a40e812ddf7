-- ===== src/Options.antt =====
-- `Options` of src/options.cc. `getopt` is a parameter: the options that it returns, in order.
pub mod Laws
use udping.Base.{
  ℕ, List, [], ◌∷◌, Option, none, some, Bool, true, false, not, ◌&&◌, ltb, leb, ◌==◌, if◌then◌else◌,
}
use udping.Program.{Run, returns, exits, crashes, ◌>>=◌, ◌>>◌}
use udping.Text.{ℤ, pos, negsuc, atoi}

-- An entry of the table: a null pointer, the pointer 1 for an option without an argument, or the
-- argument's text.
pub data Value : Type 0 where
  unset : Value
  flag : Value
  text : List ℕ → Value

abbrev pub Options : Type 0
Options = ℕ → Value

-- What `getopt` returns, and `optarg`: null for an option without an argument.
pub record Parsed : Type 0 where
  pub opt : ℕ
  pub optarg : Option (List ℕ)

abbrev pub value_of : Option (List ℕ) → Value
value_of none = flag
value_of (some s) = text s

abbrev pub set_option : Options → ℕ → Value → Options
set_option options opt v c = if c == opt then v else options c

-- The constructor's loop; `getopt` returns '?' for an option that it does not know, or that lacks
-- its argument.
unfoldable pub parse_loop : List Parsed → Options → Run Options
parse_loop [] options = returns options
parse_loop (p ∷ ps) options =
    let rest = parse_loop ps (set_option options p.opt (value_of p.optarg)) in
    if p.opt == 63 then exits 255 else rest

unfoldable pub new_options : List Parsed → Run Options
unfolding parse_loop
new_options ps = parse_loop ps (λ c. unset)

-- The test of a number against its range; all ranges of the program begin at 0 or above.
unfoldable pub check_range : ℤ → ℕ → ℕ → Run ℕ
check_range (pos n) min max =
    if ltb n min then exits 255 else if ltb max n then exits 255 else returns n
check_range (negsuc n) min max = exits 255

-- `atoi` of the pointer 1 is a read of memory that is not there.
unfoldable pub parse_int_option : Options → ℕ → Bool → ℕ → ℕ → Run ℕ
unfolding check_range atoi
parse_int_option options index required min max = elim (options index) [
  | unset ↦ if required then exits 255 else returns 0
  | flag ↦ crashes
  | text s ↦ check_range (atoi s) min max
]

-- `none` is the null pointer.
unfoldable pub get_string_option : Options → ℕ → Bool → Run (Option (List ℕ))
get_string_option options index required = elim (options index) [
  | unset ↦ if required then exits 255 else returns none
  | flag ↦ if required then exits 255 else returns none
  | text s ↦ returns (some s)
]

unfoldable pub get_flag_option : Options → ℕ → Bool
get_flag_option options index = elim (options index) [ unset ↦ false | flag ↦ true | text s ↦ true ]

-- `getQuiet` and `getVerbose`.
unfoldable pub get_quiet : Options → Bool
unfolding get_flag_option
get_quiet options = get_flag_option options 113

unfoldable pub get_verbose : Options → Bool
unfolding get_flag_option
get_verbose options = get_flag_option options 118

-- A std::string made from a pointer; the null pointer throws.
abbrev pub to_string : Option (List ℕ) → Run (List ℕ)
to_string none = crashes
to_string (some s) = returns s
