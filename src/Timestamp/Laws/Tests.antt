-- ===== src/Timestamp/Laws/Tests.antt =====
-- A clock that reads 3, 2 and 5 seconds, from the origin 1: the second is refused.
use carla.Prelude.{ℕ, ◌≤◌, ◌*◌, ◌≡◌, refl, [], ◌∷◌, none, arith}
use carla.Float.Example.{whole}
use carla.Exec.{ok}
use carla.Timestamp.{
  HostClockTimestamp, SessionClock, elapsed_seconds, project_elapsed_seconds, new_clock,
}
use carla.Timestamp.Laws.{after_readings, elapsed_agrees}

abbrev second : ℕ → HostClockTimestamp
second n = record { monotonic_ns = n * 1_000_000_000; utc_ns = 0; perf_counter_ns = none }

abbrev clock : SessionClock
clock = new_clock (second 1)

accepted :
    (elapsed_seconds {F = ℕ} (second 5) (after_readings ℕ (second 3 ∷ second 2 ∷ []) clock)).0
    ≡ ok 4_000_000_000
unfolding elapsed_seconds after_readings new_clock
accepted = refl

started : clock.baseline_ns ≤ clock.latest_ns
unfolding new_clock
started = omega arith

-- The later reading, at 9 seconds, after one at 4 seconds that is refused.
accepted_later :
    (elapsed_seconds {F = ℕ} (second 9) (
      after_readings ℕ
        (second 5 ∷ second 4 ∷ [])
        (after_readings ℕ (second 3 ∷ second 2 ∷ []) clock))).0
    ≡ ok 8_000_000_000
unfolding elapsed_seconds after_readings new_clock
accepted_later = refl

elapsed_agrees_example :
    let end = after_readings ℕ (second 9 ∷ second 7 ∷ []) (
      after_readings ℕ
        (second 5 ∷ second 4 ∷ [])
        (after_readings ℕ (second 3 ∷ second 2 ∷ []) clock)) in
    (5_000_000_000 ≤ 9_000_000_000)
    × (project_elapsed_seconds {F = ℕ} (second 5) end ≡ ok 4_000_000_000)
    × (project_elapsed_seconds {F = ℕ} (second 9) end ≡ ok 8_000_000_000)
elapsed_agrees_example =
    elapsed_agrees ℕ (second 3 ∷ second 2 ∷ []) (second 4 ∷ []) (second 7 ∷ []) (second 5)
      (second 9) clock 4_000_000_000 8_000_000_000 started accepted accepted_later
