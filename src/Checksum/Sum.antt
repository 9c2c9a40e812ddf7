-- ===== src/Checksum/Sum.antt =====
-- The 32-bit accumulator against the true sum of the 16-bit words.
use udping.Base.{ℕ, ◌+◌, ◌*◌, ◌^◌, ◌≤◌, ◌<◌, ◌≡◌, List, [], ◌∷◌, ◌++◌, arith, u32, IsBytes, length}
use udping.Checksum.{sum_words}

-- The sum of the little-endian 16-bit words, with no wrap-around; an odd byte counts as a word.
unfoldable pub word_sum : List ℕ → ℕ
word_sum [] = 0
word_sum (b ∷ []) = b
word_sum (lo ∷ hi ∷ rest) = lo + 256 * hi + word_sum rest

pub sum_words-eq : (s : ℕ) (bs : List ℕ) → s < 2 ^ 32 → sum_words s bs ≡ u32 (s + word_sum bs)
unfolding sum_words word_sum
sum_words-eq s [] h = omega arith
sum_words-eq s (b ∷ []) h = omega arith
sum_words-eq s (lo ∷ hi ∷ rest) h =
    omega (arith, sum_words-eq (u32 (s + (lo + 256 * hi))) rest (omega arith))

-- A list of bytes in pairs: its length is even.
abbrev pub IsPaired : List ℕ → Type 0
IsPaired [] = Unit
IsPaired (b ∷ []) = ⊥
IsPaired (lo ∷ hi ∷ rest) = IsPaired rest

pub word_sum-append :
    (xs ys : List ℕ) → IsPaired xs → word_sum (xs ++ ys) ≡ word_sum xs + word_sum ys
unfolding word_sum
word_sum-append [] ys p = omega arith
word_sum-append (b ∷ []) ys p = absurd p
word_sum-append (lo ∷ hi ∷ rest) ys p = omega (arith, word_sum-append rest ys p)

pub word_sum-le : (bs : List ℕ) → IsBytes bs → word_sum bs ≤ 32768 * (length bs + 1)
unfolding word_sum
word_sum-le [] p = omega arith
word_sum-le (b ∷ []) p = omega arith
word_sum-le (lo ∷ hi ∷ rest) p = omega (arith, word_sum-le rest p.1.1)

-- Up to 100,000 bytes, more than any IP packet has, the 32-bit accumulator does not wrap: the sum
-- is that of the words as plain numbers.
pub sum_words-no_wrap :
    (bs : List ℕ) → IsBytes bs → length bs ≤ 100000 → sum_words 0 bs ≡ word_sum bs
sum_words-no_wrap bs p h = omega (arith, sum_words-eq 0 bs (omega arith), word_sum-le bs p)

pub word_sum-lt : (bs : List ℕ) → IsBytes bs → length bs ≤ 100000 → word_sum bs < 2 ^ 32
word_sum-lt bs p h = omega (arith, word_sum-le bs p)
