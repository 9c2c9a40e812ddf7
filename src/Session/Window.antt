-- ===== src/Session/Window.antt =====
-- `recordSeq` against counters that do not wrap: a session that holds the two ends of a range of
-- true packet numbers, modulo 2^32, follows an ideal range.
use udping.Base.{ℕ, ◌+◌, ◌-◌, ◌^◌, ◌≤◌, ◌<◌, ◌≡◌, ◌&&◌, ltb, if◌then◌else◌, u32, arith}
use udping.Session.{ServerSession, record_seq, target_count}

-- The packet numbers from `low` to `high`, counted without wrap-around.
pub record Range : Type 0 where
  pub low : ℕ
  pub high : ℕ

-- A number up to 9 above the range moves its upper end, one up to 9 below it the lower end, and
-- any other leaves the range as it is.
unfoldable pub extend : Range → ℕ → Range
extend r n = record {
  low = if ltb n r.low && ltb r.low (n + 10) then n else r.low;
  high = if ltb r.high n && ltb n (r.high + 10) then n else r.high;
}

-- The session's two counters are the ends of the range in 32 bits.
pub record Follows {D : Type 0} (s : ServerSession D) (r : Range) : Type 0 where
  pub ordered : r.low ≤ r.high
  pub low_end : s.min_seq ≡ u32 r.low
  pub high_end : s.max_seq ≡ u32 r.high

-- A packet number is near enough to the range for 32-bit arithmetic to place it.
pub record IsNear (r : Range) (n : ℕ) : Type 0 where
  pub narrow : r.high + 10 ≤ r.low + 2 ^ 32
  pub not_above : n + 10 ≤ r.low + 2 ^ 32
  pub not_below : r.high + 10 ≤ n + 2 ^ 32

module _ {D : Type 0} where
  -- With a number that is near, the session follows the range, also across the wrap of the counters.
  pub record_seq-Follows :
      (s : ServerSession D) (r : Range) (n : ℕ)
      → Follows s r
      → IsNear r n
      → Follows (record_seq s (u32 n)) (extend r n)
  unfolding record_seq extend
  record_seq-Follows s r n f near = ground arith

  -- The target count is the number of packet numbers in the range.
  pub target_count-Follows :
      (s : ServerSession D) (r : Range)
      → Follows s r
      → r.high < r.low + 2 ^ 32 - 1
      → target_count s ≡ r.high - r.low + 1
  target_count-Follows s r f h = omega arith
