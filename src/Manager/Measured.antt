-- ===== src/Manager/Measured.antt =====
-- The report of a stream of datagrams, as its session gives it.
use mathlib.Core.List.{map-append, foldl}
use udping.Base.{
  ℕ, suc, ◌+◌, ◌-◌, ◌^◌, ◌≤◌, ◌≡◌, refl, sym, ap, ◌∙◌, List, [], ◌∷◌, ◌++◌, none, arith, map,
  length, u32, sub32, subst, ◌⊎◌,
}
use udping.Map.{find}
use udping.Map.Keys.{string_key, nat_key}
use udping.Session.{ServerSession, new_session, record_seq, record_all, target_count, with_target}
use udping.Session.Coverage.{IsSteady, hull_all, single, target_count_steady}
use udping.Stats.{DoubleOps, IsOrdered, Stats, init, add_all, add_data_point}
use udping.Stats.Laws.{add_all-counters, add_all-max, IsAbove, Occurs}
use udping.Manager.{Manager, Report, record_packet, elapsed_ms}
use udping.Manager.Events.{Received, record_packets}
use udping.Manager.Closing.{IsClosed, IsFollowed, unknown, followed}
use udping.Manager.Counters.{
  seqs, delay, delays, record_packets-stats, record_packets-names, IsAlike, record_packets-IsAlike,
  record_all-IsAlike, record_all-append, target_count-IsAlike,
}
use udping.Manager.Beginning.{begun}

module _ {D : Type 0} where
  -- How a stream ends: no session follows it, or one whose first packet has the number behind `k`
  -- in 32 bits. `ks` are the numbers that are recorded at the end.
  pub data IsEnd (now : ℕ) (s : ServerSession D) (m : Manager D) (ks : List ℕ) : Type 0 where
    last : find s.successor m.session_map ≡ none → ks ≡ [] → IsEnd now s m ks
    next :
        (t : ServerSession D) (k : ℕ)
        → IsFollowed now s m t
        → t.min_seq ≡ u32 (k + 1)
        → ks ≡ k ∷ []
        → IsEnd now s m ks

  pub end-IsClosed :
      (now : ℕ) (s : ServerSession D) (m : Manager D) (ks : List ℕ)
      → IsEnd now s m ks
      → IsClosed now s m (record_all s (map (λ k. u32 k) ks))
  unfolding record_all
  end-IsClosed now s m ks (last e none_left) =
      unknown e (ap (λ (l : List ℕ). record_all s (map (λ k. u32 k) l)) none_left)
  end-IsClosed now s m ks (next t k f number one) =
      let before : u32 k ≡ sub32 t.min_seq 1 = omega (arith, number) in
      followed t f
        (ap (λ (l : List ℕ). record_all s (map (λ j. u32 j) l)) one ∙ ap (record_seq s) before)

  record_all-kept :
      (s : ServerSession D) (ns : List ℕ)
      → ((record_all s ns).stats ≡ s.stats)
        × ((record_all s ns).guid ≡ s.guid)
        × ((record_all s ns).peer ≡ s.peer)
        × ((record_all s ns).port ≡ s.port)
        × ((record_all s ns).last_arrival ≡ s.last_arrival)
  unfolding record_all record_seq
  record_all-kept s [] = (refl, refl, refl, refl, refl)
  record_all-kept s (n ∷ ns) = record_all-kept (record_seq s n) ns

module _ {D : Type 0} (ops : DoubleOps D) where
  -- The report of a stream that began with packet `r`, with `rs` after it: `width` is its target
  -- count.
  pub record IsMeasured (r : Received) (rs : List Received) (width now : ℕ) (report : Report D)
      : Type 0 where
    pub guid_same : report.session.guid ≡ r.guid
    pub peer_same : report.session.peer ≡ r.peer
    pub port_same : report.session.port ≡ r.port
    pub time_same : report.time ≡ now
    pub target : report.session.stats.target_count ≡ width
    pub count : report.session.stats.count ≡ u32 (length (r ∷ rs))
    pub sum : report.session.stats.sum ≡ foldl ops.add (ops.of_int 0) (delays ops (r ∷ rs))
    pub squares :
        report.session.stats.sum_of_squares
        ≡ foldl (λ acc d. ops.add acc (ops.mul d d)) (ops.of_int 0) (delays ops (r ∷ rs))
    pub max_above : IsAbove ops report.session.stats.max (delays ops (r ∷ rs))
    pub max_occurs :
        (report.session.stats.max ≡ ops.lowest)
        ⊎ Occurs ops report.session.stats.max (delays ops (r ∷ rs))

  begun-IsAlike : (r : Received) → IsAlike (begun ops r) (new_session ops r.guid r.peer r.port r.ph)
  unfolding record_packet record_seq new_session
  begun-IsAlike r = record { min_same = ground arith; max_same = ground arith }

  -- The target count of a session that has recorded the stream and its end.
  target_count-stream :
      (r : Received) (rs : List Received) (s : ServerSession D) (n : ℕ) (ns ks : List ℕ)
      → IsAlike s (record_packets ops (begun ops r) rs)
      → r.ph.seq_num ≡ u32 n
      → seqs rs ≡ map (λ k. u32 k) ns
      → IsSteady (single n) (ns ++ ks)
      → (hull_all (single n) (ns ++ ks)).high + 20 ≤ (hull_all (single n) (ns ++ ks)).low + 2 ^ 32
      → target_count (record_all s (map (λ k. u32 k) ks))
        ≡ (hull_all (single n) (ns ++ ks)).high - (hull_all (single n) (ns ++ ks)).low + 1
  target_count-stream r rs s n ns ks alike first numbers steady narrow =
      let ends = map (λ k. u32 k) ks in
      let new = new_session ops r.guid r.peer r.port r.ph in
      let v = record_packets-IsAlike ops (begun ops r) new rs (begun-IsAlike r) in
      let all : IsAlike s (record_all new (seqs rs)) = record {
        min_same = alike.min_same ∙ v.min_same;
        max_same = alike.max_same ∙ v.max_same;
      } in
      target_count-IsAlike (record_all s ends) (record_all (record_all new (seqs rs)) ends)
        (record_all-IsAlike s (record_all new (seqs rs)) ends all)
      ∙ ap target_count (
          sym (record_all-append new (seqs rs) ends)
          ∙ ap (λ (l : List ℕ). record_all new (l ++ ends)) numbers
          ∙ ap (record_all new) (sym (map-append (λ k. u32 k) ns ks)))
      ∙ target_count_steady ops r.guid r.peer r.port n r.ph (ns ++ ks) first steady narrow

  begun-facts :
      (r : Received)
      → ((begun ops r).stats ≡ (add_data_point ops (init ops) (delay ops r)).0)
        × ((begun ops r).guid ≡ r.guid)
        × ((begun ops r).peer ≡ r.peer)
        × ((begun ops r).port ≡ r.port)
  unfolding record_packet record_seq new_session elapsed_ms
  begun-facts r = (refl, refl, refl, refl)

  length-delays : (rs : List Received) → length (delays ops rs) ≡ length rs
  length-delays [] = refl
  length-delays (r ∷ rs) = ap suc (length-delays rs)

  -- The counters of a stream.
  record IsTotal (ds : List D) (s : Stats D) : Type 0 where
    count : s.count ≡ u32 (length ds)
    sum : s.sum ≡ foldl ops.add (ops.of_int 0) ds
    squares : s.sum_of_squares ≡ foldl (λ acc d. ops.add acc (ops.mul d d)) (ops.of_int 0) ds
    max_above : IsAbove ops s.max ds
    max_occurs : (s.max ≡ ops.lowest) ⊎ Occurs ops s.max ds

  add_all-IsTotal :
      IsOrdered ops → (d : D) (ds : List D) → IsTotal (d ∷ ds) (add_all ops (init ops) (d ∷ ds))
  unfolding init
  add_all-IsTotal ord d ds =
      let (count, sum, squares, _) = add_all-counters ops (init ops) (d ∷ ds) (omega arith) in
      let (above, occurs) = add_all-max ops ord (init ops) (d ∷ ds) in
      record {
        count = omega (arith, count);
        sum = sum;
        squares = squares;
        max_above = above;
        max_occurs = occurs;
      }

  begun-add_all :
      (r : Received) (rs : List Received)
      → add_all ops (begun ops r).stats (delays ops rs)
        ≡ add_all ops (init ops) (delays ops (r ∷ rs))
  unfolding add_all
  begun-add_all r rs = ap (λ x. add_all ops x (delays ops rs)) (begun-facts r).0

  -- The session in front of its report, and the report.
  pub closed-IsMeasured :
      IsOrdered ops
      → (r : Received) (rs : List Received) (s : ServerSession D) (now n : ℕ) (ns ks : List ℕ)
      → s ≡ record (record_packets ops (begun ops r) rs) { successor = s.successor }
      → r.ph.seq_num ≡ u32 n
      → seqs rs ≡ map (λ k. u32 k) ns
      → IsSteady (single n) (ns ++ ks)
      → (hull_all (single n) (ns ++ ks)).high + 20 ≤ (hull_all (single n) (ns ++ ks)).low + 2 ^ 32
      → IsMeasured r rs
          ((hull_all (single n) (ns ++ ks)).high - (hull_all (single n) (ns ++ ks)).low + 1)
          now
          (record { session = with_target (record_all s (map (λ k. u32 k) ks)); time = now })
  unfolding with_target
  closed-IsMeasured ord r rs s now n ns ks same first numbers steady narrow =
      let ks' = map (λ k. u32 k) ks in
      let (stats_kept, guid_kept, peer_kept, port_kept, _) = record_all-kept s ks' in
      let (guid_rec, peer_rec, port_rec) = record_packets-names ops (begun ops r) rs in
      let (_, guid_one, peer_one, port_one) = begun-facts r in
      let total : (record_all s ks').stats ≡ add_all ops (init ops) (delays ops (r ∷ rs)) =
        stats_kept
        ∙ ap (λ (x : ServerSession D). x.stats) same
        ∙ record_packets-stats ops (begun ops r) rs
        ∙ begun-add_all r rs in
      let v =
        subst (IsTotal (delays ops (r ∷ rs))) (sym total)
          (add_all-IsTotal ord (delay ops r) (delays ops rs)) in
      record {
        guid_same = guid_kept ∙ ap (λ (x : ServerSession D). x.guid) same ∙ guid_rec ∙ guid_one;
        peer_same = peer_kept ∙ ap (λ (x : ServerSession D). x.peer) same ∙ peer_rec ∙ peer_one;
        port_same = port_kept ∙ ap (λ (x : ServerSession D). x.port) same ∙ port_rec ∙ port_one;
        time_same = refl;
        target =
            target_count-stream r rs s n ns ks
              (record {
                min_same = ap (λ (x : ServerSession D). x.min_seq) same;
                max_same = ap (λ (x : ServerSession D). x.max_seq) same;
              })
              first numbers steady narrow;
        count = v.count ∙ ap u32 (length-delays (r ∷ rs));
        sum = v.sum;
        squares = v.squares;
        max_above = v.max_above;
        max_occurs = v.max_occurs;
      }
