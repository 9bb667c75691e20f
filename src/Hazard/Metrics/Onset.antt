-- ===== src/Hazard/Metrics/Onset.antt =====
-- When src/p7/metrics.py takes a driver's braking for the beginning of a response.
use carla.Prelude.{◌≡◌, Bool, false, ◌&&◌, not, Option, none, some, is_none, arith, if◌then◌else◌}
use carla.Float.{Float}
use carla.Interaction.{DriverInput}
use carla.Hazard.Metrics.{
  ResponseMetrics, note_brake, note_steer, note_response, note_candidate, is_valid_input,
  brakes_first, onsets, since_reveal, react, observe_input,
}

module _ {F : Type 0} ⦃fl : Float F⦄ where
  -- The pedal, at rest in an input at or after the reveal, is pressed in a valid one after that.
  abbrev pub is_pressed :
      F → Option (DriverInput F) → Option (DriverInput F) → Option F → Option F → Bool
  is_pressed now (some current) (some before) (some before_at) (some reveal) =
      is_valid_input (some current)
      && fl.is_finite now
      && not (fl.le now before_at)
      && not (fl.lt before_at reveal)
      && not (fl.le now reveal)
      && fl.eq before.brake (fl.of_ℕ 0)
      && fl.lt (fl.of_ℕ 0) current.brake
  is_pressed now _ _ _ _ = false

  onsets-brake :
      (now : F) (before current : DriverInput F) (m : ResponseMetrics F)
      → (onsets now before current m).1.first_brake_t
        ≡ (if brakes_first before current m then some now else m.first_brake_t)
  unfolding onsets note_brake note_steer note_response note_candidate
  onsets-brake now before current m = ground arith

  since-brake :
      (now : F) (current before : DriverInput F) (before_at : Option F) (reveal : F)
      (m : ResponseMetrics F)
      → (since_reveal now current before before_at reveal m).1.first_brake_t ≡ (
          if is_none m.first_brake_t
            && is_pressed now (some current) (some before) before_at (some reveal)
          then some now
          else m.first_brake_t)
  unfolding since_reveal brakes_first
  since-brake now current before none reveal m = ground arith
  since-brake now current before (some before_at) reveal m =
      let e = onsets-brake now before current m in ground arith

  react-brake :
      (now : F) (current before : Option (DriverInput F)) (before_at reveal : Option F)
      (m : ResponseMetrics F)
      → (react now current before before_at reveal m).1.first_brake_t ≡ (
          if is_none m.first_brake_t && is_pressed now current before before_at reveal
          then some now
          else m.first_brake_t)
  unfolding react
  react-brake now (some current) (some before) before_at (some reveal) m =
      since-brake now current before before_at reveal m
  react-brake now (some current) (some before) before_at none m = ground arith
  react-brake now (some current) none before_at reveal m = ground arith
  react-brake now none before before_at reveal m = ground arith

  -- An input sets the first time of braking to its own time if and only if there was none, and the
  -- pedal was at rest in an earlier input, not before the reveal, and is pressed in this one, which is
  -- valid and after the reveal; else the first time of braking stays as it was.
  pub brake_onset :
      (now : F) (current : Option (DriverInput F)) (m : ResponseMetrics F)
      → (observe_input now current m).1.first_brake_t ≡ (
          if is_none m.first_brake_t && is_pressed now current m.previous m.previous_at m.reveal_t
          then some now
          else m.first_brake_t)
  unfolding observe_input
  brake_onset now current m = react-brake now current m.previous m.previous_at m.reveal_t _
