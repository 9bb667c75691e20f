-- ===== src/Ffb/Protocol/Tests.antt =====
-- A dispatcher over an output that may refuse commands.
use carla.Prelude.{ℕ, ◌+◌, ◌≤◌, ◌≡◌, refl, Bool, true, false, some, none, [], if◌then◌else◌}
use carla.Float.Example.{whole}
use carla.Exec.{ok, err}
use carla.Context.{external}
use carla.Ffb.{
  FfbContext, FfbCurve, zero_parameters, calculate_parameters, FfbObservation, manual, same_context,
  wheel_in_range, speed_in_range, is_unit, min, max,
}
use carla.Prelude.Strings.{has_text}
use carla.Ffb.Safety.{
  FfbSafety, FfbLimits, new, hold, enable_evaluation, is_evaluating, before, command, switch_off,
  stamp_problem,
}
use carla.Ffb.Safety.Step.{
  validate_observation, slew, slewed, deliver, approach, evaluate, with_target, gate, remember,
  remembered, boundary_of, with_observation, observe, step,
}
use carla.Ffb.Safety.Laws.{step_with, perform}
use carla.Ffb.Safety.Runs.{after_all}
use carla.Ffb.Protocol.{
  FfbOutput, Dispatcher, is_valid_command, dispatcher_step, dispatch, send, settle, target,
}
use carla.Ffb.Protocol.Laws.{replay_refused, output_failure, evaluation_accepted}

abbrev limits : FfbLimits ℕ
limits = record {
  max_spring = 1;
  max_damper = 1;
  rise_per_second = 1;
  fall_per_second = 1;
  wheel_max_age_s = 2;
  vehicle_max_age_s = 2;
  max_update_gap_s = 3;
}

abbrev context : FfbContext
context = record { session_id = "s"; stage_id = "m1"; actor_id = "hero"; device_generation = "1" }

abbrev sample : FfbObservation ℕ
sample = record {
  context = context;
  wheel_position = some 0;
  wheel_observed_at = some 1;
  speed_kmh = some 0;
  vehicle_observed_at = some 1;
  mode = manual;
  connected = true;
  session_active = true;
  stage_active = true;
}

abbrev curve : FfbCurve ℕ
curve = record {
  reference_speed_kmh = 100;
  spring_at_rest = 0;
  spring_at_reference = 0;
  damper_at_rest = 0;
  damper_at_reference = 0;
}

abbrev output : Bool → FfbOutput ℕ ℕ
output works = record {
  apply = λ c now w. ((if works then ok tt else err (external "busy")), w + 1);
  disable = λ c w. (ok tt, w + 1);
  record_fault = λ reason w. (ok tt, w + 1);
  close_output = λ w. (ok tt, w + 1);
}

abbrev idle : FfbSafety ℕ
idle = new

abbrev started : Dispatcher ℕ ℕ
started = record {
  safety = idle;
  last_backend_error = none;
  backend_failure_count = 0;
  closed = false;
  world = 0;
}

replay_refused_example :
    is_valid_command
      (perform limits (step_with (some sample) none 1 hold) (after_all limits [] idle)).0
      1
      context
      (perform limits (step_with none none 2 hold) (
        after_all limits []
          (perform limits
            (step_with (some sample) none 1 hold)
            (after_all limits [] idle)).1)).0.sequence
      limits
    ≡ false
replay_refused_example =
    replay_refused limits [] [] (step_with (some sample) none 1 hold) (step_with none none 2 hold)
      idle 1 context

refuses :
    (send
      (output false)
      limits
      curve
      (step limits started.safety
        (some sample)
        (target (output false) limits curve (some sample))
        1
        enable_evaluation).0
      1
      0).0
    ≡ err (external "busy")
unfolding send target calculate_parameters step observe with_observation validate_observation
    stamp_problem has_text wheel_in_range speed_in_range boundary_of same_context before remember
    remembered gate with_target evaluate is_unit approach slewed slew deliver min max command
    switch_off zero_parameters new
refuses = refl

output_failure_example :
    let (r, d) =
      dispatcher_step (output false) limits curve (some sample) 1 enable_evaluation started in
    (is_evaluating r.state ≡ false)
    × (r.parameters ≡ zero_parameters)
    × (is_evaluating d.safety.state ≡ false)
    × (started.backend_failure_count + 1 ≤ d.backend_failure_count)
output_failure_example =
    output_failure (output false) limits curve (some sample) 1 enable_evaluation started
      (external "busy") refl refuses

goes_on :
    is_evaluating
      (dispatcher_step (output true) limits curve (some sample) 1 enable_evaluation started).0.state
    ≡ true
unfolding dispatcher_step dispatch settle send target calculate_parameters step observe
    with_observation validate_observation stamp_problem has_text wheel_in_range speed_in_range
    boundary_of same_context before remember remembered gate with_target evaluate is_unit approach
    slewed slew deliver min max command switch_off zero_parameters new
goes_on = refl

evaluation_accepted_example :
    ((dispatcher_step (output true) limits curve (some sample) 1 enable_evaluation started).0
      ≡ (step limits started.safety
          (some sample)
          (target (output true) limits curve (some sample))
          1
          enable_evaluation).0)
    × (((output true).apply
          (step limits started.safety
            (some sample)
            (target (output true) limits curve (some sample))
            1
            enable_evaluation).0
          1
          started.world).0
        ≡ ok tt)
evaluation_accepted_example =
    evaluation_accepted (output true) limits curve (some sample) 1 enable_evaluation started refl
      goes_on
