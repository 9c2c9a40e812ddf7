-- ===== src/Checksum/Fold.antt =====
-- What `fold_carries` computes: the residue modulo 65535 in 16 bits, zero only for a zero sum.
use udping.Base.{ℕ, ◌+◌, ◌/◌, ◌%◌, ◌^◌, ◌≤◌, ◌<◌, ◌≡◌, arith, u32, Acc, lt_wf}
use udping.Checksum.{fold_carries_acc, fold_carries, complement16}

-- The carry loop ends with a 16-bit value of the same residue modulo 65535, which is positive
-- where the sum is.
pub record IsFolded (sum out : ℕ) : Type 0 where
  pub fits : out < 65536
  pub shrinks : out ≤ sum
  pub residue : out % 65535 ≡ sum % 65535
  pub positive : 0 < sum → 0 < out

fold_carries_acc-IsFolded :
    (sum : ℕ) (w : Acc ◌<◌ sum) → sum < 2 ^ 32 → IsFolded sum (fold_carries_acc sum w)
unfolding fold_carries_acc
fold_carries_acc-IsFolded sum (Acc.intro _ smaller) h = grind (
  arith,
  λ (p : u32 (sum % 65536 + sum / 65536) < sum).
      fold_carries_acc-IsFolded (u32 (sum % 65536 + sum / 65536)) (smaller _ p),
)

pub fold_carries-IsFolded : (sum : ℕ) → sum < 2 ^ 32 → IsFolded sum (fold_carries sum)
unfolding fold_carries
fold_carries-IsFolded sum h = fold_carries_acc-IsFolded sum (lt_wf.apply sum) h

-- A sum that is a positive multiple of 65535 complements to zero, and no other sum does.
pub complement16-fold_zero :
    (sum : ℕ) → sum < 2 ^ 32 → 0 < sum → sum % 65535 ≡ 0 → complement16 (fold_carries sum) ≡ 0
complement16-fold_zero sum h pos e =
    let f = fold_carries-IsFolded sum h in omega (arith, f.fits, f.residue, f.positive pos)

pub complement16-fold_residue :
    (sum : ℕ) → sum < 2 ^ 32 → complement16 (fold_carries sum) ≡ 0 → sum % 65535 ≡ 0
complement16-fold_residue sum h e =
    let f = fold_carries-IsFolded sum h in omega (arith, f.fits, f.residue)

-- What the complement adds to the sum makes it a positive multiple of 65535.
pub complement16-fold_completes :
    (sum : ℕ)
    → sum < 2 ^ 32
    → (0 < complement16 (fold_carries sum) + sum)
      × ((complement16 (fold_carries sum) + sum) % 65535 ≡ 0)
complement16-fold_completes sum h =
    let f = fold_carries-IsFolded sum h in
    (omega (arith, f.shrinks, f.fits, f.residue, f.positive), omega (arith, f.fits, f.residue))
