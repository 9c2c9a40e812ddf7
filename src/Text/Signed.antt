-- ===== src/Text/Signed.antt =====
-- Signed numbers in decimal, as `%d` and `<<` print an int.
use udping.Base.{ℕ, ◌+◌, List, ◌∷◌}
use udping.Text.{ℤ, pos, negsuc, decimal}

unfoldable pub print_int : ℤ → List ℕ
unfolding decimal
print_int (pos n) = decimal n
print_int (negsuc n) = b'-' ∷ decimal (n + 1)
