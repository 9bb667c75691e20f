-- ===== src/Gaze/Tests.antt =====
-- The durations of a short recording, with a sink that counts the intervals.
use carla.Prelude.{ℕ, ◌+◌, ◌-◌, ◌≤◌, refl, List, [], ◌∷◌, if◌then◌else◌}
use carla.Float.Example.{whole}
use carla.Exec.{ok, Exec}
use carla.Session.{Fault}
use carla.Gaze.{Interval, GazeDuration, credited, new, add}
use carla.Gaze.Laws.{Operation, adds, flushes, finishes, after_all, IsTiled, credit-IsTiled}
use carla.Gaze.Classified.{agrees, sample_bound}

abbrev counts : Interval → ℕ → Exec Fault ℕ Unit
counts row duration w = (ok tt, w + 1)

abbrev start : GazeDuration ℕ
start = new 1_000 0

-- Two samples on the tablet, one elsewhere, and the end.
abbrev recording : List Operation
recording =
    adds 2_000 1 10 "TABLET_BINOCULAR"
    ∷ (adds 9_000 2 20 "TABLET_BINOCULAR"
        ∷ (adds 11_000 3 30 "ROAD" ∷ (flushes ∷ (finishes 15_000 ∷ []))))

abbrev looked : GazeDuration ℕ
looked = after_all counts (adds 2_000 1 10 "TABLET_BINOCULAR" ∷ []) start

start-IsTiled : IsTiled 1_000 start
unfolding new
start-IsTiled = record { start_is = refl; tiled = refl }

credit-IsTiled_example :
    IsTiled 1_000 (after_all counts recording start)
    × (start.edge_ns ≤ (after_all counts recording start).edge_ns)
credit-IsTiled_example = credit-IsTiled counts recording 1_000 start start-IsTiled

sample_bound_example :
    credited "TABLET_BINOCULAR" (add counts 9_000 2 20 "TABLET_BINOCULAR" looked).1.nanoseconds
    ≤ credited "TABLET_BINOCULAR" looked.nanoseconds
      + (if agrees "TABLET_BINOCULAR" 9_000 2 20 "TABLET_BINOCULAR" looked
          then 9_000 - looked.edge_ns
          else 0)
sample_bound_example =
    sample_bound counts "TABLET_BINOCULAR" 9_000 2 20 "TABLET_BINOCULAR" looked refl
