-- ===== src/Tests/Sessions.antt =====
-- Statistics and the sequence range of one session.
use udping.Base.{ℕ, ◌+◌, ◌≡◌, refl, List, [], ◌∷◌, map, arith, u32}
use udping.Stats.{Stats, add_all}
use udping.Stats as Counters
use udping.Session.{target_count, ServerSession, new_session, record_all}
use udping.Session.Window.{Follows}
use udping.Session.Coverage.{single}
use udping.Session.Adjacent.{target_count-adjacent}
use udping.Session.Bursts.{record_all_beyond}
use udping.Tests.Data.{nat_ops, packet_at, guid_text}

abbrev fresh : ServerSession ℕ
fresh = new_session nat_ops guid_text [] 5000 (packet_at 4294967290)

abbrev points : List ℕ
points = 4 ∷ 9 ∷ 2 ∷ []

add_all_run : (add_all nat_ops (Counters.init nat_ops) points).max ≡ 9
unfolding add_all Counters.init
add_all_run = refl

fresh-Follows : Follows fresh (single 4294967290)
unfolding new_session
fresh-Follows = record { ordered = omega arith; low_end = refl; high_end = refl }

record_all_beyond_example :
    record_all fresh (map (λ k. u32 k) (4294967300 ∷ 4294967301 ∷ [])) ≡ fresh
record_all_beyond_example =
    record_all_beyond fresh (single 4294967290) (4294967300 ∷ 4294967301 ∷ []) fresh-Follows
      (omega arith)

-- The first session loses the last number before the second, and the second two numbers.
target_count-adjacent_example :
    target_count (record_all fresh (map (λ j. u32 j) (4294967292 ∷ 4294967298 ∷ [])))
      + target_count (
          record_all
            (new_session nat_ops (1 ∷ []) [] 5000 (packet_at 3))
            (map (λ j. u32 j) (4294967302 ∷ [])))
    ≡ 13
target_count-adjacent_example =
    target_count-adjacent nat_ops guid_text (1 ∷ []) [] 5000 4294967290 4294967298
      (packet_at 4294967290) (packet_at 3) (4294967292 ∷ []) (4294967302 ∷ []) refl refl
      (omega arith) (omega arith) (omega arith) (omega arith) (omega arith) (omega arith)
      (omega arith)
