-- ===== src/Timestamp/Laws.antt =====
-- `SessionClock` over any sequence of readings, those that it refuses included.
mod Tests
use carla.Prelude.{◌∙◌, ℕ, ◌≤◌, ◌≡◌, refl, Bool, true, false, ltb, arith, List, [], ◌∷◌}
use carla.Float.{Float}
use carla.Exec.{Result, ok, err}
use carla.Timestamp.{HostClockTimestamp, SessionClock, elapsed_seconds, project_elapsed_seconds}

module _ (F : Type 0) ⦃fl : Float F⦄ where
  -- The clock after the readings.
  unfoldable pub after_readings : List HostClockTimestamp → SessionClock → SessionClock
  after_readings [] clock = clock
  after_readings (t ∷ ts) clock = after_readings ts (elapsed_seconds {F = F} t clock).1

  reading_advances :
      (t : HostClockTimestamp) (clock : SessionClock)
      → (clock.latest_ns ≤ (elapsed_seconds {F = F} t clock).1.latest_ns)
        × ((elapsed_seconds {F = F} t clock).1.baseline_ns ≡ clock.baseline_ns)
  unfolding elapsed_seconds
  reading_advances t clock = ground arith

  readings_advance :
      (ts : List HostClockTimestamp) (clock : SessionClock)
      → (clock.latest_ns ≤ (after_readings ts clock).latest_ns)
        × ((after_readings ts clock).baseline_ns ≡ clock.baseline_ns)
  unfolding after_readings
  readings_advance [] clock = ground arith
  readings_advance (t ∷ ts) clock =
      let first = reading_advances t clock in
      let rest = readings_advance ts (elapsed_seconds {F = F} t clock).1 in ground arith

  -- An accepted reading leaves the clock at its time, which is not before the clock's.
  accepted_moves :
      (t : HostClockTimestamp) (clock : SessionClock) (x : F)
      → (elapsed_seconds t clock).0 ≡ ok x
      → (clock.latest_ns ≤ t.monotonic_ns)
        × ((elapsed_seconds {F = F} t clock).1.latest_ns ≡ t.monotonic_ns)
  unfolding elapsed_seconds
  accepted_moves t clock x h = ground arith

  accepted_projects :
      (t : HostClockTimestamp) (clock later : SessionClock) (x : F)
      → clock.baseline_ns ≤ clock.latest_ns
      → later.baseline_ns ≡ clock.baseline_ns
      → (elapsed_seconds t clock).0 ≡ ok x
      → project_elapsed_seconds t later ≡ ok x
  unfolding elapsed_seconds project_elapsed_seconds
  accepted_projects t clock later x h e k = ground arith

  -- Whatever a clock that is not before its baseline reads before, between and after two readings
  -- that it accepts, refused or not: the later of the two is not before the earlier one, and the
  -- projection of each from the baseline, at the end, is the elapsed time that it gave.
  pub elapsed_agrees :
      (ts us vs : List HostClockTimestamp) (t u : HostClockTimestamp) (clock : SessionClock)
      (x y : F)
      → clock.baseline_ns ≤ clock.latest_ns
      → (elapsed_seconds t (after_readings ts clock)).0 ≡ ok x
      → (elapsed_seconds u (after_readings (t ∷ us) (after_readings ts clock))).0 ≡ ok y
      → let end = after_readings (u ∷ vs) (after_readings (t ∷ us) (after_readings ts clock)) in
        (t.monotonic_ns ≤ u.monotonic_ns)
        × (project_elapsed_seconds t end ≡ ok x)
        × (project_elapsed_seconds u end ≡ ok y)
  unfolding after_readings
  elapsed_agrees ts us vs t u clock x y h k l =
      let c1 = after_readings ts clock in
      let c2 = (elapsed_seconds {F = F} t c1).1 in
      let c3 = after_readings us c2 in
      let c4 = (elapsed_seconds {F = F} u c3).1 in
      let before = readings_advance ts clock in
      let read = reading_advances t c1 in
      let between = readings_advance us c2 in
      let read_again = reading_advances u c3 in
      let after = readings_advance vs c4 in
      let first = accepted_moves t c1 x k in
      let second = accepted_moves u c3 y l in
      (
        omega (arith, first, between, second),
        accepted_projects t c1 _ x (omega (arith, before, h))
            (after.1 ∙ read_again.1 ∙ between.1 ∙ read.1) k,
        accepted_projects u c3 _ y (omega (arith, before, h, read, between))
            (after.1 ∙ read_again.1) l,
      )
