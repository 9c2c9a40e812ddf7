-- ===== src/Manager/Interrupt/Sparse.antt =====
-- Statements with at most one alarm among them.
use udping.Base.{
  ℕ, ◌≤◌, ◌≡◌, ◌≢◌, refl, sym, if◌then◌else◌, ap, ◌∙◌, List, [], ◌∷◌, ◌++◌, false, ◌==◌, length,
  arith, subst,
}
use udping.Map.Keys.{string_key, nat_key}
use udping.Manager.Dangling.{ok-injective}
use udping.Manager.{Manager, Outcome, ok, fault, ◌>>=◌, handle_alarm, sweep_server_sessions}
use udping.Manager.Interrupt.{Alarms, all_of, first, later, Action, with_alarms, run_actions}
use udping.Manager.Interrupt.Commute.{set_count, counting_at, Commutes}

-- At most one alarm, and none where the count is 0.
abbrev pub IsSparse : List ℕ → ℕ → Type 0
IsSparse [] c = Unit
IsSparse (t ∷ ts) c = (c ≢ 0) × (ts ≡ [])

-- The count behind some alarms.
abbrev pub left : List ℕ → ℕ → ℕ
left [] c = c
left (t ∷ ts) c = 0

IsSparse-append :
    (ts us : List ℕ) (c : ℕ)
    → IsSparse (ts ++ us) c
    → IsSparse ts c × IsSparse us (left ts c) × (left (ts ++ us) c ≡ left us (left ts c))
IsSparse-append [] us c h = (tt, h, refl)
IsSparse-append (t ∷ []) [] c h = (h, tt, refl)
IsSparse-append (t ∷ []) (u ∷ us) c h = absurd (cc)
IsSparse-append (t ∷ s ∷ ts) us c h = absurd (cc)

all_of-split : (als : Alarms) → all_of als ≡ first als ++ all_of (later als)
all_of-split [] = refl
all_of-split (ts ∷ als) = refl

pub length-IsSparse : (ts : List ℕ) (c : ℕ) → length ts ≤ 1 → c ≢ 0 → IsSparse ts c
length-IsSparse [] c h pos = tt
length-IsSparse (t ∷ []) c h pos = (pos, refl)
length-IsSparse (t ∷ s ∷ ts) c h pos = absurd (omega (arith, h))

module _ {D : Type 0} where
  reset_count :
      (o : Outcome (Manager D)) (n : Manager D)
      → (do swept ← o; ok (set_count 0 swept)) ≡ ok n
      → n.interval_packets_received ≡ 0
  reset_count (ok k) n e =
      ap (λ (x : Manager D). x.interval_packets_received) (sym (ok-injective e))
  reset_count fault n e = absurd (cc)

  handle_alarm-count :
      (t : ℕ) (m n : Manager D) → handle_alarm t m ≡ ok n → n.interval_packets_received ≡ 0
  unfolding handle_alarm
  handle_alarm-count t m n e =
      reset_count (if m.interval_packets_received == 0 then sweep_server_sessions t m else ok m) n e

  -- Alarms do not raise the count.
  pub with_alarms-count :
      (ts : List ℕ) (m n : Manager D)
      → with_alarms ts m ≡ ok n
      → n.interval_packets_received ≤ m.interval_packets_received
  unfolding with_alarms
  with_alarms-count [] m n e =
      let same : m ≡ n = ok-injective e in
      subst (λ (x : Manager D). x.interval_packets_received ≤ m.interval_packets_received) same
        (omega arith)
  with_alarms-count (t ∷ ts) m n e = by_outcome (handle_alarm t m) refl (with_alarms-count ts)
    where
      by_outcome :
          (o : Outcome (Manager D))
          → handle_alarm t m ≡ o
          → ((k l : Manager D)
              → with_alarms ts k ≡ ok l
              → l.interval_packets_received ≤ k.interval_packets_received)
          → n.interval_packets_received ≤ m.interval_packets_received
      by_outcome (ok k) h rest =
          let run : with_alarms ts k ≡ ok n = rw (with_alarms, h) at e in
          omega (arith, rest k n run, handle_alarm-count t m k h)
      by_outcome fault h rest = let stuck : fault ≡ ok n = rw (with_alarms, h) at e in absurd (cc)

  pub with_alarms-sparse :
      (ts : List ℕ) (m : Manager D)
      → IsSparse ts m.interval_packets_received
      → with_alarms ts m ≡ ok (set_count (left ts m.interval_packets_received) m)
  unfolding with_alarms handle_alarm
  with_alarms-sparse [] m h = refl
  with_alarms-sparse (t ∷ ts) m (pos, one) =
      let busy : (m.interval_packets_received == 0) ≡ false = ground (arith, pos) in
      rw (one, busy) refl

  abbrev pub AllCommute : List (Action D) → Type 0
  AllCommute [] = Unit
  AllCommute (f ∷ fs) = Commutes f × AllCommute fs

  -- What follows a step, if the step's count is set.
  counting_at-then :
      (k l : ℕ) (o : Outcome (ℕ × Manager D)) (f g : ℕ → Manager D → Outcome (ℕ × Manager D))
      → ((b : ℕ) (n : Manager D) → f b (set_count k n) ≡ counting_at l (g b n))
      → (do (b, n) ← counting_at k o; f b n) ≡ counting_at l (do (b, n) ← o; g b n)
  counting_at-then k l (ok (b, n)) f g e = e b n
  counting_at-then k l fault f g e = refl

  pub run_actions-counting :
      (fs : List (Action D)) (k a : ℕ) (m : Manager D)
      → AllCommute fs
      → run_actions fs [] a (set_count k m) ≡ counting_at k (run_actions fs [] a m)
  unfolding run_actions with_alarms
  run_actions-counting [] k a m h = refl
  run_actions-counting (f ∷ fs) k a m (c, cs) =
      ap (λ o. do (b, n) ← o; run_actions fs [] b n) (c k a m)
      ∙ counting_at-then k k (f a m) (run_actions fs []) (run_actions fs [])
          (λ b n. run_actions-counting fs k b n cs)

  counting_at-twice :
      (k l : ℕ) (o : Outcome (ℕ × Manager D)) → counting_at k (counting_at l o) ≡ counting_at k o
  counting_at-twice k l (ok (a, n)) = refl
  counting_at-twice k l fault = refl

  -- Alarms among statements have the effect of their count behind them.
  pub run_actions-sparse :
      (fs : List (Action D)) (als : Alarms) (a : ℕ) (m : Manager D)
      → AllCommute fs
      → IsSparse (all_of als) m.interval_packets_received
      → run_actions fs als a m
        ≡ counting_at (left (all_of als) m.interval_packets_received) (run_actions fs [] a m)
  unfolding run_actions with_alarms
  run_actions-sparse [] als a m cs h = rw (with_alarms-sparse (all_of als) m h) refl
  run_actions-sparse (f ∷ fs) als a m (c, cs) h =
      let count = m.interval_packets_received in
      let whole = all_of-split als in
      let (before, behind, total) =
        IsSparse-append (first als) (all_of (later als)) count
          (subst (λ ts. IsSparse ts count) whole h) in
      let k = left (first als) count in
      let rest = left (all_of (later als)) k in
      rw (with_alarms-sparse (first als) m before, whole, total)
        (ap (λ o. do (b, n) ← o; run_actions fs (later als) b n) (c k a m)
          ∙ counting_at-then k rest (f a m) (run_actions fs (later als)) (run_actions fs []) (λ b n.
            run_actions-sparse fs (later als) b (set_count k n) cs behind
            ∙ ap (counting_at rest) (run_actions-counting fs k b n cs)
            ∙ counting_at-twice rest k (run_actions fs [] b n)))
