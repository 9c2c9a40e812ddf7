-- ===== src/Session/Adjacent.antt =====
-- A session closed up to the first number of the session that follows it, and that session.
use udping.Base.{ℕ, ◌+◌, ◌-◌, ◌^◌, ◌≤◌, ◌≡◌, refl, List, [], ◌∷◌, ◌++◌, map, u32, arith, All}
use udping.Packet.{Packet}
use udping.Stats.{DoubleOps}
use udping.Session.{new_session, record_all, target_count}
use udping.Session.Window.{Range}
use udping.Session.Coverage.{IsSteady, hull, hull_all, single, target_count_steady}

hull_all-closed :
    (r : Range) (n k : ℕ) (ns : List ℕ)
    → r.low ≡ n
    → n ≤ k
    → r.high ≤ k
    → All (λ j. (n ≤ j) × (j ≤ k)) ns
    → ((hull_all r (ns ++ (k ∷ []))).low ≡ n) × ((hull_all r (ns ++ (k ∷ []))).high ≡ k)
hull_all-closed r n k [] low order high within = omega (arith, low, order, high)
hull_all-closed r n k (j ∷ ns) low order high ((above, below), rest) =
    hull_all-closed (hull r j) n k ns (omega (arith, low, above)) order (omega (arith, high, below))
      rest

hull_all-above :
    (r : Range) (n : ℕ) (ns : List ℕ) → r.low ≡ n → All (λ j. n ≤ j) ns → (hull_all r ns).low ≡ n
hull_all-above r n [] low within = low
hull_all-above r n (j ∷ ns) low (above, rest) =
    hull_all-above (hull r j) n ns (omega (arith, low, above)) rest

hull_all-high : (r : Range) (ns : List ℕ) → r.high ≤ (hull_all r ns).high
hull_all-high r [] = omega arith
hull_all-high r (n ∷ ns) = omega (arith, hull_all-high (hull r n) ns)

-- If the numbers of a session lie from its first, `n`, to `k`, and those of the session that
-- follows it behind `k`, with its first number k + 1, and both streams are steady and span less than
-- 2^32 - 20 numbers, then the target count of the first, closed at `k`, and that of the second add
-- up to the width of the range from `n` to the highest number of the second.
pub target_count-adjacent :
    {D : Type 0} (ops : DoubleOps D) (guid next_guid peer : List ℕ) (port n k : ℕ) (p q : Packet)
    (ns ms : List ℕ)
    → p.seq_num ≡ u32 n
    → q.seq_num ≡ u32 (k + 1)
    → n ≤ k
    → All (λ j. (n ≤ j) × (j ≤ k)) ns
    → All (λ j. k + 1 ≤ j) ms
    → IsSteady (single n) (ns ++ (k ∷ []))
    → IsSteady (single (k + 1)) ms
    → k + 20 ≤ n + 2 ^ 32
    → (hull_all (single (k + 1)) ms).high + 20 ≤ k + 1 + 2 ^ 32
    → target_count
          (record_all (new_session ops guid peer port p) (map (λ j. u32 j) (ns ++ (k ∷ []))))
        + target_count (record_all (new_session ops next_guid peer port q) (map (λ j. u32 j) ms))
      ≡ (hull_all (single (k + 1)) ms).high - n + 1
target_count-adjacent ops guid next_guid peer port n k p q ns ms first second order within behind
      steady steady_next narrow narrow_next =
    let (low, high) = hull_all-closed (single n) n k ns refl order order within in
    let low_next = hull_all-above (single (k + 1)) (k + 1) ms refl behind in
    let grows = hull_all-high (single (k + 1)) ms in
    let one =
      target_count_steady ops guid peer port n p (ns ++ (k ∷ [])) first steady
        (omega (arith, low, high, narrow)) in
    let two =
      target_count_steady ops next_guid peer port (k + 1) q ms second steady_next
        (omega (arith, low_next, narrow_next)) in
    omega (arith, one, two, low, high, low_next, order, grows)
