-- ===== src/Session/Bursts.antt =====
-- A jump of the packet numbers by 10 or more, as after the loss of ten packets in a row.
use udping.Base.{ℕ, ◌+◌, ◌^◌, ◌≤◌, ◌≡◌, refl, ◌∙◌, List, [], ◌∷◌, map, All, u32, arith, ap}
use udping.Session.{ServerSession, record_seq, record_all}
use udping.Session.Window.{Range, Follows}

-- The number is 10 or more above the range, and no nearer to it across the wrap.
abbrev pub IsBeyond : Range → ℕ → Type 0
IsBeyond r n = (r.high + 10 ≤ n) × (n + 10 ≤ r.low + 2 ^ 32)

module _ {D : Type 0} where
  record_seq_beyond :
      (s : ServerSession D) (r : Range) (n : ℕ)
      → Follows s r
      → IsBeyond r n
      → record_seq s (u32 n) ≡ s
  unfolding record_seq
  record_seq_beyond s r n f far = ground arith

  -- If a session's counters are the ends of a range, then however many packets arrive that lie
  -- beyond a jump from that range, the session and so its target count stay as they were.
  pub record_all_beyond :
      (s : ServerSession D) (r : Range) (ns : List ℕ)
      → Follows s r
      → All (IsBeyond r) ns
      → record_all s (map (λ n. u32 n) ns) ≡ s
  unfolding record_all
  record_all_beyond s r [] f far = refl
  record_all_beyond s r (n ∷ ns) f far =
      let same = record_seq_beyond s r n f far.0 in
      ap (λ t. record_all t (map (λ k. u32 k) ns)) same ∙ record_all_beyond s r ns f far.1
