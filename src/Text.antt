-- ===== src/Text.antt =====
-- Text as the bytes of a C string: decimal printing and `atoi` of the C library.
pub mod Decimal
pub mod Signed
use Prim.Native.Char.{code}
use Prim.Native.String.{String}
use udping.Base.{
  ℕ, suc, ◌+◌, ◌-◌, ◌*◌, ◌/◌, ◌%◌, ◌^◌, ◌≤◌, ◌<◌, Bool, true, false, ◌&&◌, ◌||◌, List, [], ◌∷◌,
  ◌++◌, ltb, leb, ◌==◌, if◌then◌else◌, dite, dec_lt, Acc, WellFounded, lt_wf, arith,
}

-- The bytes of a literal.
abbrev pub codes : String → List ℕ
codes String.[] = []
codes (String.◌∷◌ c s) = code c ∷ codes s

-- The decimal digits of a number, as `%d` and `<<` print it.
unfoldable pub decimal_acc : (n : ℕ) → Acc ◌<◌ n → List ℕ
decimal_acc n (Acc.intro _ smaller) =
    dite (dec_lt 9 n)
      (λ h. decimal_acc (n / 10) (smaller (n / 10) (omega arith)) ++ ((48 + n % 10) ∷ []))
      (λ _. (48 + n) ∷ [])

unfoldable pub decimal : ℕ → List ℕ
unfolding decimal_acc lt_wf dec_lt
decimal n = decimal_acc n (lt_wf.apply n)

-- An `int`: `negsuc n` is -(n + 1).
pub data ℤ : Type 0 where
  pos : ℕ → ℤ
  negsuc : ℕ → ℤ

abbrev pub neg : ℕ → ℤ
neg n = if n == 0 then pos 0 else negsuc (n - 1)

-- The low 32 bits of a long, read as an int.
abbrev pub int_of_bits : ℕ → ℤ
int_of_bits w = if ltb w (2 ^ 31) then pos w else negsuc (2 ^ 32 - w - 1)

abbrev pub is_digit : ℕ → Bool
is_digit c = leb 48 c && leb c 57

abbrev pub is_space : ℕ → Bool
is_space c = c == 32 || (leb 9 c && leb c 13)

-- The value of the digits in front, after those that `acc` stands for.
unfoldable pub digits_value : ℕ → List ℕ → ℕ
digits_value acc [] = acc
digits_value acc (c ∷ cs) =
    let rest = digits_value (acc * 10 + (c - 48)) cs in if is_digit c then rest else acc

-- `(int) strtol(s, 0, 10)`: the value saturates at the bounds of long, then keeps its low 32 bits.
abbrev pub long_max : ℕ
long_max = 2 ^ 63 - 1

unfoldable pub positive_int : ℕ → ℤ
positive_int v =
    if ltb long_max v then int_of_bits (long_max % 2 ^ 32) else int_of_bits (v % 2 ^ 32)

unfoldable pub negative_int : ℕ → ℤ
negative_int v = if ltb (2 ^ 63) v then int_of_bits 0 else int_of_bits ((2 ^ 64 - v) % 2 ^ 32)

unfoldable pub after_sign : List ℕ → ℤ
unfolding digits_value positive_int negative_int
after_sign [] = pos 0
after_sign (c ∷ cs) =
    if c == 45
    then negative_int (digits_value 0 cs)
    else if c == 43
    then positive_int (digits_value 0 cs)
    else positive_int (digits_value 0 (c ∷ cs))

unfoldable pub atoi : List ℕ → ℤ
unfolding after_sign
atoi [] = pos 0
atoi (c ∷ cs) = if is_space c then atoi cs else after_sign (c ∷ cs)
