-- ===== src/StatsWriter/Wild.antt =====
-- The addresses that the constructor does not set.
use udping.Base.{ℕ, ◌≡◌, refl, List, Option, none, Bool}
use udping.Program.{returns, crashes, ◌>>=◌}
use udping.Program.Ensures.{Ensures, Ensures-bind, Ensures-returns}
use udping.Host.{Host}
use udping.Stats.{Stats}
use udping.StatsWriter.{StatsWriter, OldMemory, Pointer, wild, new_stats_writer, set_address}
use udping.StatsWriter.Report.{DoubleFormat, write_stats, send}

new_stats_writer-old :
    (h : Host) (listen receive : List ℕ) (port : ℕ) (tag_info metric : Option (List ℕ))
    (quiet : Bool) (old : OldMemory)
    → Ensures
        (λ w. w.statsd_sa ≡ old.old_statsd)
        (new_stats_writer h listen receive port none tag_info metric quiet old)
unfolding new_stats_writer set_address
new_stats_writer-old h listen receive port tag_info metric quiet old = Ensures-bind _ _ (λ _ _.
    Ensures-bind _ _
      (λ statsd same. Ensures-bind _ _ (λ tags _. Ensures-returns _ (kept statsd same))))
  where
    kept : (p : Pointer) → returns old.old_statsd ≡ returns p → p ≡ old.old_statsd
    kept p e = cc

-- A writer made without the option for statsd keeps in `statsd_sa` what its memory held; where that
-- is neither null nor an address, every report that it writes has undefined behaviour.
pub write_stats_wild :
    {D : Type 0} (fmt : DoubleFormat D) (h : Host) (listen receive : List ℕ) (lport : ℕ)
    (tag_info metric : Option (List ℕ)) (quiet : Bool) (old : OldMemory) (w : StatsWriter)
    (guid peer : List ℕ) (port : ℕ) (s : Stats D) (now : ℕ)
    → new_stats_writer h listen receive lport none tag_info metric quiet old ≡ returns w
    → old.old_statsd ≡ wild
    → write_stats fmt w guid peer port s now ≡ crashes
unfolding write_stats send ◌>>=◌
write_stats_wild fmt h listen receive lport tag_info metric quiet old w guid peer port s now made
      garbage =
    let same = (new_stats_writer-old h listen receive lport tag_info metric quiet old).at w made in
    rw (write_stats, same, garbage) refl
