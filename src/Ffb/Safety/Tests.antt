-- ===== src/Ffb/Safety/Tests.antt =====
-- The force feedback's machine on whole numbers: a wheel at rest, driven by hand.
use carla.Prelude.{ℕ, ◌+◌, ◌≡◌, refl, true, false, some, [], ◌∷◌, length}
use carla.Prelude.Strings.{has_text}
use carla.Float.Example.{whole}
use carla.Ffb.{
  FfbObservation, FfbParameters, manual, zero_parameters, same_context, wheel_in_range,
  speed_in_range, is_unit, min, max,
}
use carla.Ffb.Safety.{
  FfbSafety, FfbLimits, new, hold, enable_evaluation, fault, closed, is_evaluating, is_fault,
  is_closed, before, command, switch_off, stamp_problem,
}
use carla.Ffb.Safety.Step.{
  validate_observation, slew, slewed, deliver, approach, evaluate, with_target, gate, remember,
  remembered, boundary_of, with_observation, observe, step,
}
use carla.Ffb.Safety.Laws.{Operation, step_with, fault_with, close_at, perform}
use carla.Ffb.Safety.Runs.{after_all, off_unasked, numbered}
use carla.Ffb.Safety.Latch.{fault_latched, closed_final}

abbrev limits : FfbLimits ℕ
limits = record {
  max_spring = 1;
  max_damper = 1;
  rise_per_second = 1;
  fall_per_second = 1;
  wheel_max_age_s = 2;
  vehicle_max_age_s = 2;
  max_update_gap_s = 3;
}

abbrev sample : ℕ → FfbObservation ℕ
sample now = record {
  context = record {
    session_id = "s";
    stage_id = "m1";
    actor_id = "hero";
    device_generation = "1";
  };
  wheel_position = some 0;
  wheel_observed_at = some now;
  speed_kmh = some 80;
  vehicle_observed_at = some now;
  mode = manual;
  connected = true;
  session_active = true;
  stage_active = true;
}

abbrev target : FfbParameters ℕ
target = record { spring = 1; damper = 1; center = 0 }

abbrev held : ℕ → Operation ℕ
held now = step_with (some (sample now)) (some target) now hold

abbrev asked : ℕ → Operation ℕ
asked now = step_with (some (sample now)) (some target) now enable_evaluation

abbrev first : FfbSafety ℕ
first = new

turns_on : is_evaluating (after_all limits (held 1 ∷ asked 2 ∷ held 3 ∷ []) first).state ≡ true
unfolding after_all perform step observe with_observation validate_observation stamp_problem
    has_text wheel_in_range speed_in_range boundary_of same_context before remember remembered gate
    with_target evaluate is_unit approach slewed slew deliver min max command switch_off
    zero_parameters new
turns_on = refl

off_unasked_example :
    (is_evaluating
        (perform limits (held 3) (after_all limits (held 1 ∷ fault_with "x" 2 ∷ []) first)).1.state
      ≡ false)
    × ((perform limits
          (held 3)
          (after_all limits (held 1 ∷ fault_with "x" 2 ∷ []) first)).0.parameters
        ≡ zero_parameters)
unfolding new
off_unasked_example =
    off_unasked limits (held 1 ∷ fault_with "x" 2 ∷ []) (held 3) first (refl, (tt, tt)) refl refl

numbered_example :
    ((perform limits (held 3) (after_all limits (held 1 ∷ asked 2 ∷ []) first)).0.sequence
      ≡ first.sequence + length (held 1 ∷ asked 2 ∷ []) + 1)
    × ((perform limits (held 3) (after_all limits (held 1 ∷ asked 2 ∷ []) first)).0.state
        ≡ (perform limits (held 3) (after_all limits (held 1 ∷ asked 2 ∷ []) first)).1.state)
numbered_example = numbered limits (held 1 ∷ asked 2 ∷ []) (held 3) first

abbrev broken : FfbSafety ℕ
broken = record first { state = fault; reason = "DEVICE_DISCONNECTED" }

fault_latched_example :
    is_fault (after_all limits (asked 1 ∷ fault_with "x" 2 ∷ held 3 ∷ []) broken).state ≡ true
fault_latched_example =
    fault_latched limits (asked 1 ∷ fault_with "x" 2 ∷ held 3 ∷ []) broken (refl, (tt, (refl, tt)))
      refl

abbrev after_close : FfbSafety ℕ
after_close = record first { state = closed; reason = "CLOSED" }

closed_final_example :
    is_closed (after_all limits (asked 1 ∷ close_at 2 ∷ held 3 ∷ []) after_close).state ≡ true
closed_final_example = closed_final limits (asked 1 ∷ close_at 2 ∷ held 3 ∷ []) after_close refl
