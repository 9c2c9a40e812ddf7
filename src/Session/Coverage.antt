-- ===== src/Session/Coverage.antt =====
-- A stream whose numbers arrive in any order, with neither gap nor lag of more than 9: the target
-- count is the number of packets that the client sent between the first and the last seen.
use Prim.Native.Nat.{min, max}
use udping.Base.{ℕ, ◌+◌, ◌-◌, ◌^◌, ◌≤◌, ◌<◌, ◌≡◌, List, [], ◌∷◌, map, u32, arith, subst}
use udping.Packet.{Packet}
use udping.Stats.{DoubleOps}
use udping.Session.{ServerSession, new_session, record_seq, record_all, target_count}
use udping.Session.Window.{Range, extend, Follows, record_seq-Follows, target_count-Follows}

-- The least range that holds a range and a number.
abbrev pub hull : Range → ℕ → Range
hull r n = record { low = min r.low n; high = max r.high n }

abbrev pub hull_all : Range → List ℕ → Range
hull_all r [] = r
hull_all r (n ∷ ns) = hull_all (hull r n) ns

-- Each number is at most 9 outside the range of those before it.
abbrev pub IsSteady : Range → List ℕ → Type 0
IsSteady r [] = Unit
IsSteady r (n ∷ ns) = (r.low < n + 10) × (n < r.high + 10) × IsSteady (hull r n) ns

hull_all-grows :
    (r : Range) (ns : List ℕ) → ((hull_all r ns).low ≤ r.low) × (r.high ≤ (hull_all r ns).high)
hull_all-grows r [] = omega arith
hull_all-grows r (n ∷ ns) = omega (arith, hull_all-grows (hull r n) ns)

extend-hull : (r : Range) (n : ℕ) → r.low < n + 10 → n < r.high + 10 → extend r n ≡ hull r n
unfolding extend
extend-hull r n h k = ground arith

-- The numbers of the range, and that of the first packet alone.
abbrev pub single : ℕ → Range
single n = record { low = n; high = n }

module _ {D : Type 0} where
  record_all-Follows :
      (s : ServerSession D) (r : Range) (ns : List ℕ)
      → Follows s r
      → IsSteady r ns
      → (hull_all r ns).high + 20 ≤ (hull_all r ns).low + 2 ^ 32
      → Follows (record_all s (map (λ n. u32 n) ns)) (hull_all r ns)
  unfolding record_all
  record_all-Follows s r [] f steady narrow = f
  record_all-Follows s r (n ∷ ns) f (above, below, rest) narrow =
      let grows = hull_all-grows (hull r n) ns in
      let step = record_seq-Follows s r n f (omega (arith, grows)) in
      record_all-Follows (record_seq s (u32 n)) (hull r n) ns
        (subst (Follows (record_seq s (u32 n))) (extend-hull r n above below) step) rest narrow

  -- For a session that began with packet `n` and a steady stream `ns` after it, as long as the
  -- numbers seen span less than 2^32 - 20, the target count is the width of the range from the
  -- lowest to the highest number seen, whether or not the 32-bit numbers wrapped.
  pub target_count_steady :
      (ops : DoubleOps D) (guid peer : List ℕ) (port n : ℕ) (p : Packet) (ns : List ℕ)
      → p.seq_num ≡ u32 n
      → IsSteady (single n) ns
      → (hull_all (single n) ns).high + 20 ≤ (hull_all (single n) ns).low + 2 ^ 32
      → target_count (record_all (new_session ops guid peer port p) (map (λ k. u32 k) ns))
        ≡ (hull_all (single n) ns).high - (hull_all (single n) ns).low + 1
  unfolding new_session
  target_count_steady ops guid peer port n p ns e steady narrow =
      let s = new_session ops guid peer port p in
      target_count-Follows _ _
        (record_all-Follows s (single n) ns
          (record { ordered = omega arith; low_end = e; high_end = e }) steady narrow)
        (omega arith)
