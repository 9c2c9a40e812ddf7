-- ===== src/Manager/Counters.antt =====
-- What a session holds after its packets: the counters of their delays, and the range of their
-- numbers.
use udping.Base.{ℕ, ◌≡◌, refl, ap, List, [], ◌∷◌, ◌++◌, map, arith, if◌then◌else◌}
use udping.Session.{ServerSession, record_seq, record_all, target_count, is_ahead}
use udping.Stats.{DoubleOps, add_all}
use udping.Manager.{record_packet, elapsed_ms}
use udping.Manager.Events.{Received, record_packets}

abbrev pub seqs : List Received → List ℕ
seqs = map (λ r. r.ph.seq_num)

module _ {D : Type 0} where
  -- The same range of numbers.
  pub record IsAlike (s t : ServerSession D) : Type 0 where
    pub min_same : s.min_seq ≡ t.min_seq
    pub max_same : s.max_seq ≡ t.max_seq

  record_seq-IsAlike :
      (s t : ServerSession D) (n : ℕ) → IsAlike s t → IsAlike (record_seq s n) (record_seq t n)
  unfolding record_seq
  record_seq-IsAlike s t n v = record {
    min_same = ap (λ x. if is_ahead x n then n else x) v.min_same;
    max_same = ap (λ x. if is_ahead n x then n else x) v.max_same;
  }

  pub record_all-IsAlike :
      (s t : ServerSession D) (ns : List ℕ)
      → IsAlike s t
      → IsAlike (record_all s ns) (record_all t ns)
  unfolding record_all
  record_all-IsAlike s t [] v = v
  record_all-IsAlike s t (n ∷ ns) v =
      record_all-IsAlike (record_seq s n) (record_seq t n) ns (record_seq-IsAlike s t n v)

  pub record_all-append :
      (s : ServerSession D) (ns ks : List ℕ)
      → record_all s (ns ++ ks) ≡ record_all (record_all s ns) ks
  unfolding record_all
  record_all-append s [] ks = refl
  record_all-append s (n ∷ ns) ks = record_all-append (record_seq s n) ns ks

  pub target_count-IsAlike : (s t : ServerSession D) → IsAlike s t → target_count s ≡ target_count t
  target_count-IsAlike s t v = omega (arith, v.min_same, v.max_same)

module _ {D : Type 0} (ops : DoubleOps D) where
  -- The delay of a packet in milliseconds: its time of receipt less the time at which it was sent,
  -- the difference of the nanoseconds first.
  abbrev pub delay : Received → D
  delay r =
      let nanos = ops.sub (ops.of_int r.nsec) (ops.of_int r.ph.sent_nsec) in
      let seconds = ops.add (ops.div nanos (ops.of_int 1000000000)) (ops.of_int r.sec) in
      ops.mul (ops.sub seconds (ops.of_int r.ph.sent_sec)) (ops.of_int 1000)

  abbrev pub delays : List Received → List D
  delays = map delay

  pub record_packets-stats :
      (s : ServerSession D) (rs : List Received)
      → (record_packets ops s rs).stats ≡ add_all ops s.stats (delays rs)
  unfolding record_packets record_packet add_all record_seq elapsed_ms
  record_packets-stats s [] = refl
  record_packets-stats s (r ∷ rs) =
      record_packets-stats (record_packet ops r.sec r.nsec r.arrival r.ph s) rs

  pub record_packets-names :
      (s : ServerSession D) (rs : List Received)
      → ((record_packets ops s rs).guid ≡ s.guid)
        × ((record_packets ops s rs).peer ≡ s.peer)
        × ((record_packets ops s rs).port ≡ s.port)
  unfolding record_packets record_packet record_seq
  record_packets-names s [] = (refl, refl, refl)
  record_packets-names s (r ∷ rs) =
      record_packets-names (record_packet ops r.sec r.nsec r.arrival r.ph s) rs

  record_packet-IsAlike :
      (s t : ServerSession D) (r : Received)
      → IsAlike s t
      → IsAlike (record_packet ops r.sec r.nsec r.arrival r.ph s) (record_seq t r.ph.seq_num)
  unfolding record_packet record_seq
  record_packet-IsAlike s t r v =
      let w = record_seq-IsAlike s t r.ph.seq_num v in
      record { min_same = w.min_same; max_same = w.max_same }

  pub record_packets-IsAlike :
      (s t : ServerSession D) (rs : List Received)
      → IsAlike s t
      → IsAlike (record_packets ops s rs) (record_all t (seqs rs))
  unfolding record_packets record_all
  record_packets-IsAlike s t [] v = v
  record_packets-IsAlike s t (r ∷ rs) v =
      record_packets-IsAlike (record_packet ops r.sec r.nsec r.arrival r.ph s)
        (record_seq t r.ph.seq_num) rs (record_packet-IsAlike s t r v)
