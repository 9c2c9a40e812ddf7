-- ===== src/Checksum.antt =====
-- `checksum` of src/protocol.cc: the internet checksum over the bytes at `addr`.
pub mod Fold
pub mod Sum
pub mod Verify
use udping.Base.{
  ℕ, zero, suc, ◌+◌, ◌-◌, ◌*◌, ◌/◌, ◌%◌, ◌^◌, ◌<◌, List, [], ◌∷◌, u16, u32, dite, dec_lt, arith,
  Acc, lt_wf,
}

-- The `while (count > 1)` loop and the left-over byte; a 16-bit load takes the low byte first.
unfoldable pub sum_words : ℕ → List ℕ → ℕ
sum_words sum [] = sum
sum_words sum (b ∷ []) = u32 (sum + b)
sum_words sum (lo ∷ hi ∷ rest) = sum_words (u32 (sum + (lo + 256 * hi))) rest

-- `while (sum >> 16) sum = (sum & 0xffff) + (sum >> 16);`, which ends since the sum falls.
fold_carries_acc : (sum : ℕ) → Acc ◌<◌ sum → ℕ
fold_carries_acc sum (Acc.intro _ smaller) =
    dite (dec_lt 65535 sum)
      (λ h. fold_carries_acc (u32 (sum % 65536 + sum / 65536)) (smaller _ (omega arith))) (λ _. sum)

unfoldable pub fold_carries : ℕ → ℕ
unfolding fold_carries_acc lt_wf dec_lt
fold_carries sum = fold_carries_acc sum (lt_wf.apply sum)

-- `answer = ~sum`, cut to 16 bits.
abbrev pub complement16 : ℕ → ℕ
complement16 sum = u16 (2 ^ 32 - 1 - sum)

unfoldable pub checksum : List ℕ → ℕ
unfolding sum_words fold_carries
checksum bytes = complement16 (fold_carries (sum_words 0 bytes))
