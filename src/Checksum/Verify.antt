-- ===== src/Checksum/Verify.antt =====
-- The receiver's check of RFC 1071: over data that carries its own checksum the result is zero.
use udping.Base.{
  ℕ, ◌+◌, ◌/◌, ◌%◌, ◌≤◌, ◌<◌, ◌≡◌, List, ◌∷◌, ◌++◌, arith, IsBytes, IsByte, All-append, length,
  length-append,
}
use udping.Checksum.{checksum, fold_carries, complement16}
use udping.Checksum.Fold.{complement16-fold_zero, complement16-fold_completes}
use udping.Checksum.Sum.{word_sum, sum_words-no_wrap, word_sum-lt, word_sum-append, IsPaired}

pub checksum-eq :
    (bs : List ℕ)
    → IsBytes bs
    → length bs ≤ 100000
    → checksum bs ≡ complement16 (fold_carries (word_sum bs))
unfolding checksum
checksum-eq bs p h = ap_complement (sum_words-no_wrap bs p h)
  where
    ap_complement :
        {a b : ℕ} → a ≡ b → complement16 (fold_carries a) ≡ complement16 (fold_carries b)
    ap_complement e = cc

pub checksum-lt : (bs : List ℕ) → checksum bs < 65536
unfolding checksum
checksum-lt bs = omega arith

-- The checksum of some bytes is zero where their word sum is a positive multiple of 65535.
pub checksum_zero :
    (bs : List ℕ)
    → IsBytes bs
    → length bs ≤ 100000
    → 0 < word_sum bs
    → word_sum bs % 65535 ≡ 0
    → checksum bs ≡ 0
checksum_zero bs p h pos e =
    omega
      (arith, checksum-eq bs p h, complement16-fold_zero (word_sum bs) (word_sum-lt bs p h) pos e)

checksum_completes :
    (bs : List ℕ)
    → IsBytes bs
    → length bs ≤ 100000
    → (0 < checksum bs + word_sum bs) × ((checksum bs + word_sum bs) % 65535 ≡ 0)
checksum_completes bs p h =
    rw (checksum-eq bs p h) (complement16-fold_completes (word_sum bs) (word_sum-lt bs p h))

-- Data with the two bytes of the 16-bit field `c`, as the host stores them, after `pre`.
abbrev pub with_field : List ℕ → ℕ → List ℕ → List ℕ
with_field pre c post = pre ++ ((c % 256) ∷ (c / 256 % 256) ∷ post)

pub word_sum-with_field :
    (pre post : List ℕ) (c : ℕ)
    → c < 65536
    → IsPaired pre
    → word_sum (with_field pre c post) ≡ word_sum pre + (c + word_sum post)
unfolding word_sum
word_sum-with_field pre post c h p =
    omega (arith, word_sum-append pre ((c % 256) ∷ (c / 256 % 256) ∷ post) p)

with_field-IsBytes :
    (pre post : List ℕ) (c : ℕ)
    → c < 65536
    → IsBytes pre
    → IsBytes post
    → IsBytes (with_field pre c post)
with_field-IsBytes pre post c h p q = All-append IsByte pre _ p (omega arith, (omega arith, q))

-- If a checksum is computed over at most 90,000 bytes with a zero in its own field, at an even
-- place, and then written to that field, the data check to zero.
pub checksum_verifies :
    (pre post : List ℕ)
    → IsPaired pre
    → IsBytes pre
    → IsBytes post
    → length pre + length post ≤ 90000
    → checksum (with_field pre (checksum (with_field pre 0 post)) post) ≡ 0
checksum_verifies pre post even p q h =
    let bytes : (c : ℕ) → c < 65536 → IsBytes (with_field pre c post) =
      λ c b. with_field-IsBytes pre post c b p q in
    let short : (c : ℕ) → length (with_field pre c post) ≤ 100000 =
      λ c. omega (arith, length-append pre ((c % 256) ∷ (c / 256 % 256) ∷ post)) in
    let c = checksum (with_field pre 0 post) in
    let c_lt = checksum-lt (with_field pre 0 post) in
    let sums = λ (x : ℕ) (b : x < 65536). word_sum-with_field pre post x b even in
    let complete = checksum_completes (with_field pre 0 post) (bytes 0 (omega arith)) (short 0) in
    checksum_zero (with_field pre c post) (bytes c c_lt) (short c)
      (omega (arith, sums c c_lt, sums 0 (omega arith), complete.0))
      (omega (arith, sums c c_lt, sums 0 (omega arith), complete.1))
