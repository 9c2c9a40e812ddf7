-- ===== src/Base/Words.antt =====
-- Machine words: wrap-around is written out, and memory is the bytes of a little-endian host.
use Prim.Native.Nat.{ℕ, suc, zero, ◌+◌, ◌-◌, ◌*◌, ◌/◌, ◌%◌, ◌^◌, ◌<◌}
use mathlib.Core.List.{List, [], ◌∷◌}
use udping.Base.Lists.{All}

abbrev pub u8 : ℕ → ℕ
u8 x = x % 2 ^ 8

abbrev pub u16 : ℕ → ℕ
u16 x = x % 2 ^ 16

abbrev pub u32 : ℕ → ℕ
u32 x = x % 2 ^ 32

abbrev pub u64 : ℕ → ℕ
u64 x = x % 2 ^ 64

-- Unsigned 32-bit subtraction; the modulus is added first since `-` stops at 0.
abbrev pub sub32 : ℕ → ℕ → ℕ
sub32 a b = u32 (a + 2 ^ 32 - b)

abbrev pub IsByte : ℕ → Type 0
IsByte b = b < 256

abbrev pub IsBytes : List ℕ → Type 0
IsBytes = All IsByte

-- A value stored in `k` bytes, the low byte first.
abbrev pub le_bytes : ℕ → ℕ → List ℕ
le_bytes zero x = []
le_bytes (suc k) x = (x % 256) ∷ le_bytes k (x / 256)

-- The value that those bytes load as.
abbrev pub le_load : List ℕ → ℕ
le_load [] = 0
le_load (b ∷ bs) = b + 256 * le_load bs

-- htons on a little-endian host: the two bytes change places.
abbrev pub htons : ℕ → ℕ
htons x = u16 x / 256 + x % 256 * 256
