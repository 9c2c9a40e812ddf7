-- ===== src/Client/Run.antt =====
-- Any number of rounds of the sending loop.
use udping.Base.{suc, ◌^◌, ◌<◌, ◌≡◌, refl, ap, List, [], ◌∷◌, some, length, All}
use udping.Client.{ClientList, Random, Tick, Sent, send_rounds}
use udping.Client.Sending.{IsReady, IsSound}
use udping.Client.Rounds.{send_round-IsServed}

-- The nanoseconds of the clock fit their field.
abbrev pub IsClock : Tick → Type 0
IsClock t = t.nsec < 2 ^ 64

-- From a ready list any number of rounds, for any readings of the clock with nanoseconds below
-- 2^64, runs to its end and gives one sound frame for each round, and the list stays ready.
pub send_rounds-IsSound :
    (ts : List Tick) (l : ClientList) (r : Random)
    → All IsClock ts
    → IsReady l
    → (fs : List Sent) × (l' : ClientList) × (r' : Random) × (send_rounds ts l r
        ≡ some (fs, (l', r')))
      × (length fs ≡ length ts)
      × All IsSound fs
      × IsReady l'
unfolding send_rounds
send_rounds-IsSound [] l r clocks ready = ([], l, r, refl, refl, tt, ready)
send_rounds-IsSound (t ∷ ts) l r clocks ready =
    let here = send_round-IsServed t l r ready clocks.0 in
    let (fs, l', r', run, count, sound, ready') =
      send_rounds-IsSound ts here.l' here.r' clocks.1 here.ready in
    (
      here.f ∷ fs,
      l',
      r',
      rw (send_rounds, here.run, run) refl,
      ap suc count,
      (here.sound, sound),
      ready',
    )
