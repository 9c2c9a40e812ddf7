-- ===== src/Text/Decimal.antt =====
-- Reading a printed number gives it back.
use native.Mathlib.Bridge.{le_prop}
use native.Mathlib.Nat.{pow-suc}
use udping.Base.{
  ℕ, ◌+◌, ◌-◌, ◌*◌, ◌/◌, ◌%◌, ◌^◌, ◌<◌, ◌≡◌, refl, ap, sym, ◌∙◌, true, false, List, [], ◌∷◌, ◌++◌,
  dec_lt, Acc, lt_wf, arith, All, All-append, zero, suc, ◌≤◌, length, length-append, subst,
}
use mathlib.Core.Logic.{dif_pos, dif_neg}
use mathlib.Core.List.{append_assoc}
use udping.Text.{decimal_acc, decimal, pos, digits_value, atoi, after_sign, positive_int, is_digit}

-- The text does not go on with a digit.
abbrev pub StopsDigits : List ℕ → Type 0
StopsDigits [] = Unit
StopsDigits (c ∷ cs) = is_digit c ≡ false

decimal_acc-above :
    (n : ℕ) (smaller : (m : ℕ) → m < n → Acc ◌<◌ m) (h : 9 < n)
    → decimal_acc n (Acc.intro n smaller)
      ≡ decimal_acc (n / 10) (smaller (n / 10) (omega arith)) ++ ((48 + n % 10) ∷ [])
unfolding decimal_acc
decimal_acc-above n smaller h = dif_pos (dec_lt 9 n) le_prop h _ _

decimal_acc-below : (n : ℕ) (w : Acc ◌<◌ n) → n < 10 → decimal_acc n w ≡ (48 + n) ∷ []
unfolding decimal_acc
decimal_acc-below n (Acc.intro _ smaller) h = dif_neg (dec_lt 9 n) (omega arith) _ _

digits_value-digit :
    (n : ℕ) (rest : List ℕ) → digits_value (n / 10) ((48 + n % 10) ∷ rest) ≡ digits_value n rest
unfolding digits_value
digits_value-digit n rest =
    let same : n / 10 * 10 + (48 + n % 10 - 48) ≡ n = omega arith in
    let digit : is_digit (48 + n % 10) ≡ true = ground arith in
    rw digit (ap (λ v. digits_value v rest) same)

digits_value-single :
    (n : ℕ) (rest : List ℕ) → n < 10 → digits_value 0 ((48 + n) ∷ rest) ≡ digits_value n rest
unfolding digits_value
digits_value-single n rest h =
    let same : 0 * 10 + (48 + n - 48) ≡ n = omega arith in
    let digit : is_digit (48 + n) ≡ true = ground arith in
    rw digit (ap (λ v. digits_value v rest) same)

digits_value-decimal_acc :
    (n : ℕ) (w : Acc ◌<◌ n) (rest : List ℕ)
    → digits_value 0 (decimal_acc n w ++ rest) ≡ digits_value n rest
unfolding digits_value
digits_value-decimal_acc n (Acc.intro _ smaller) rest = elim (dec_lt 9 n) [
  | yes h ↦
      ap (λ t. digits_value 0 (t ++ rest)) (decimal_acc-above n smaller h)
      ∙ ap (digits_value 0) (
          append_assoc (decimal_acc (n / 10) (smaller (n / 10) (omega arith))) ((48 + n % 10) ∷ [])
            rest)
      ∙ digits_value-decimal_acc (n / 10) (smaller (n / 10) (omega arith)) ((48 + n % 10) ∷ rest)
      ∙ digits_value-digit n rest
  | no h ↦
      ap (λ t. digits_value 0 (t ++ rest)) (decimal_acc-below n (Acc.intro n smaller) (omega arith))
      ∙ digits_value-single n rest (omega arith)
]

digits_value-stops : (n : ℕ) (rest : List ℕ) → StopsDigits rest → digits_value n rest ≡ n
unfolding digits_value
digits_value-stops n [] h = refl
digits_value-stops n (c ∷ cs) h = ground arith

-- The digits of a number are read back as the number.
pub digits_value-decimal :
    (n : ℕ) (rest : List ℕ) → StopsDigits rest → digits_value 0 (decimal n ++ rest) ≡ n
unfolding decimal
digits_value-decimal n rest h =
    digits_value-decimal_acc n (lt_wf.apply n) rest ∙ digits_value-stops n rest h

-- A printed number begins with a digit.
decimal_acc-head :
    (n : ℕ) (w : Acc ◌<◌ n)
    → (c : ℕ) × (cs : List ℕ) × (decimal_acc n w ≡ c ∷ cs) × (is_digit c ≡ true)
decimal_acc-head n (Acc.intro _ smaller) = elim (dec_lt 9 n) [
  | yes h ↦
      let (c, cs, e, d) = decimal_acc-head (n / 10) (smaller (n / 10) (omega arith)) in
      (
        c,
        cs ++ ((48 + n % 10) ∷ []),
        decimal_acc-above n smaller h ∙ ap (λ t. t ++ ((48 + n % 10) ∷ [])) e,
        d,
      )
  | no h ↦ (48 + n, [], decimal_acc-below n (Acc.intro n smaller) (omega arith), ground arith)
]

atoi-digit :
    (c : ℕ) (cs : List ℕ)
    → is_digit c ≡ true
    → atoi (c ∷ cs) ≡ positive_int (digits_value 0 (c ∷ cs))
unfolding atoi after_sign
atoi-digit c cs h = ground arith

positive_int-small : (n : ℕ) → n < 2 ^ 31 → positive_int n ≡ pos n
unfolding positive_int
positive_int-small n h = ground arith

-- `atoi` reads back a printed int, whatever follows that is not a digit.
pub atoi-decimal :
    (n : ℕ) (rest : List ℕ) → n < 2 ^ 31 → StopsDigits rest → atoi (decimal n ++ rest) ≡ pos n
unfolding decimal
atoi-decimal n rest h stops =
    let (c, cs, e, d) = decimal_acc-head n (lt_wf.apply n) in
    ap (λ t. atoi (t ++ rest)) e
    ∙ atoi-digit c (cs ++ rest) d
    ∙ ap (λ t. positive_int (digits_value 0 (t ++ rest))) (sym e)
    ∙ ap positive_int (digits_value-decimal n rest stops)
    ∙ positive_int-small n h

-- A digit's character.
abbrev pub IsDigit : ℕ → Type 0
IsDigit c = is_digit c ≡ true

decimal_acc-IsDigit : (n : ℕ) (w : Acc ◌<◌ n) → All IsDigit (decimal_acc n w)
decimal_acc-IsDigit n (Acc.intro _ smaller) = elim (dec_lt 9 n) [
  | yes h ↦
      let last : is_digit (48 + n % 10) ≡ true = ground arith in
      subst (All IsDigit) (sym (decimal_acc-above n smaller h)) (
        All-append IsDigit _ ((48 + n % 10) ∷ [])
          (decimal_acc-IsDigit (n / 10) (smaller (n / 10) (omega arith))) (last, tt))
  | no h ↦
      let only : is_digit (48 + n) ≡ true = ground arith in
      subst (All IsDigit) (sym (decimal_acc-below n (Acc.intro n smaller) (omega arith))) (only, tt)
]

-- A printed number has digits only, and at least one.
pub decimal-IsDigit : (n : ℕ) → All IsDigit (decimal n)
unfolding decimal
decimal-IsDigit n = decimal_acc-IsDigit n (lt_wf.apply n)

pub decimal-cons : (n : ℕ) → (c : ℕ) × (cs : List ℕ) × (decimal n ≡ c ∷ cs)
unfolding decimal
decimal-cons n = let (c, cs, e, d) = decimal_acc-head n (lt_wf.apply n) in (c, cs, e)

length-snoc : (k : ℕ) (t : List ℕ) (c : ℕ) → length t ≤ k → length (t ++ (c ∷ [])) ≤ suc k
length-snoc k t c h = omega (arith, length-append t (c ∷ []))

length-decimal_acc : (k n : ℕ) (w : Acc ◌<◌ n) → n < 10 ^ suc k → length (decimal_acc n w) ≤ suc k
length-decimal_acc zero n w h =
    subst (λ t. length t ≤ 1) (sym (decimal_acc-below n w (omega arith))) (omega arith)
length-decimal_acc (suc k) n (Acc.intro _ smaller) h = elim (dec_lt 9 n) [
  | yes big ↦
      subst (λ t. length t ≤ suc (suc k)) (sym (decimal_acc-above n smaller big))
        (length-snoc (suc k) _ (48 + n % 10)
          (length-decimal_acc k (n / 10) _ (omega (arith, pow-suc 10 (suc k)))))
  | no small ↦
      subst (λ t. length t ≤ suc (suc k))
        (sym (decimal_acc-below n (Acc.intro n smaller) (omega arith))) (omega arith)
]

-- A number below a power of ten has at most that power's digits.
pub length-decimal : (k n : ℕ) → n < 10 ^ suc k → length (decimal n) ≤ suc k
unfolding decimal
length-decimal k n h = length-decimal_acc k n (lt_wf.apply n) h
