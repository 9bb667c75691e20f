-- ===== src/Hazard/Scenario/Tests.antt =====
-- A hazard scenario over whole numbers, with actors that count what they were asked.
use carla.Prelude.{
  if◌then◌else◌, is_none, ℕ, ◌+◌, Bool, true, false, ◌≡◌, refl, some, none, List, [], ◌∷◌, ◌&&◌,
  ◌||◌,
}
use carla.Prelude.Int.{pos}
use carla.Float.Example.{whole}
use carla.Exec.{ok, Exec, gets, lift, modify, pure, raise, when, zoom, ◌>>=◌}
use carla.Context.{module_2}
use carla.Session.{Fault}
use carla.Session.Segment.{final_hazard_assessment}
use carla.Timestamp.{TimestampEnvelope, new_clock, elapsed_seconds, project_elapsed_seconds}
use carla.Hazard.{HazardObservation, completed, ego_route_station}
use carla.Interaction.{DriverInput}
use carla.Hazard.Metrics.{ResponseMetrics}
use carla.Hazard.Metrics.Onset.{is_pressed, brake_onset}
use carla.Hazard.Scenario.{
  Environment, Scenario, new, arm, update, abort, station, on_world, tick, emit, emit_at, arm_in,
  set_arms, refuse, arm_refusal, abort_live, act, after_trigger, begin, complete, conclude,
  conclude_by, conclude_with, decide, decide_by, ended, first_invalid, follow, give_up,
  is_finite_observation, measure, note_lateral, note_lead, note_reveal, observe_driver,
  policy_conclude, proceed, refusal, respond, respond_to, start_moving, terminate,
  termination_outcome, termination_reason, waiting, watch, write_trigger,
}
use carla.Hazard.Metrics.{
  new_metrics, brakes_first, calculate_ttc, course_ttc, first_raw_response_t, is_candidate,
  is_valid_input, least, min, observe_geometry, observe_input, onsets, react, since_reveal,
  steers_first,
}
use carla.Session.Effects.{try_except}
use carla.Hazard.Scenario.States.{Reach, IsConsistent}
use carla.Hazard.Scenario.States.Updates.{
  arms_with, updates_with, after, after_all, scenario-Reach, Operation,
}
use carla.Hazard.Scenario.Termination.{is_terminal, is_seen, update_requests}

abbrev answers : Exec Fault ℕ Unit
answers w = (ok tt, w + 1)

abbrev env : Environment ℕ ℕ
env = record {
  config = record {
    enabled = true;
    trigger_source = ego_route_station;
    trigger_station_m = 100;
    lateral_onset_m = 1;
    observation_duration_s = 5;
    brake_candidate = 1;
    steer_candidate = 1;
  };
  module' = module_2;
  phase = final_hazard_assessment;
  claim = answers;
  prepare = λ t. answers;
  begin_reveal = λ t. answers;
  sink = λ e. answers;
  policy = none;
}

abbrev at_s : ℕ → TimestampEnvelope
at_s s = record { host = record { monotonic_ns = s; utc_ns = s; perf_counter_ns = none } }

-- Seen at a time, at a station, with a lateral offset of the lead vehicle.
abbrev seen : ℕ → ℕ → ℕ → Bool → HazardObservation ℕ
seen s station lateral shown = record {
  timestamp = at_s s;
  ego_station_m = station;
  lead_station_m = station + 30;
  lead_lateral_m = lateral;
  target_lane_id = pos 2;
  lead_complete = shown;
  reveal_clear = shown;
  distance_m = 40;
  closing_speed_mps = 3;
  ego_speed_mps = 20;
  collision_course = some true;
  driver_input = none;
  input_source = "keyboard";
  route_valid = true;
  actors_alive = true;
  obstacle_stationary = true;
  lead_path_clear = true;
  p5_active = false;
  collision_actor_id = none;
  collision_frame = none;
  collision_simulation_s = none;
  road_departure = false;
}

abbrev departs : HazardObservation ℕ
departs = record (seen 3 110 1 true) { road_departure = true }

abbrev start : Scenario ℕ ℕ
start = new env (new_clock (at_s 0).host) 0

-- Armed, triggered at the station, revealed, and ended by the time of observation.
abbrev drive : List (Operation ℕ)
drive =
    arms_with (seen 1 50 0 false)
    ∷ (updates_with (seen 2 100 0 false)
        ∷ (updates_with (seen 3 120 2 true) ∷ (updates_with (seen 9_000_000_009 200 2 true) ∷ [])))

start-IsConsistent : IsConsistent start
unfolding new new_metrics
start-IsConsistent = record { fit = refl }

drive_state : (after_all env drive start).state ≡ completed
unfolding new arm update abort after after_all new_clock elapsed_seconds project_elapsed_seconds
    try_except station on_world tick emit emit_at arm_in set_arms refuse arm_refusal abort_live act
    after_trigger begin complete conclude conclude_by conclude_with decide decide_by ended
    first_invalid follow give_up is_finite_observation measure note_lateral note_lead note_reveal
    observe_driver policy_conclude proceed refusal respond respond_to start_moving terminate
    termination_outcome termination_reason waiting watch write_trigger gets lift modify pure raise
    when zoom ◌>>=◌ new_metrics brakes_first calculate_ttc course_ttc first_raw_response_t
    is_candidate is_valid_input least min observe_geometry observe_input onsets react since_reveal
    steers_first
drive_state = refl

scenario-Reach_example :
    Reach start.state (after_all env drive start).state × IsConsistent (after_all env drive start)
scenario-Reach_example = scenario-Reach env drive start start-IsConsistent

abbrev on_the_way : Scenario ℕ ℕ
on_the_way =
    after_all env (arms_with (seen 1 50 0 false) ∷ (updates_with (seen 2 100 0 false) ∷ [])) start

update_requests_example :
    (update env departs on_the_way).1.termination_requested
    ≡ (on_the_way.termination_requested || (is_seen departs on_the_way && is_terminal departs))
update_requests_example = update_requests env departs on_the_way

departs_requested : (update env departs on_the_way).1.termination_requested ≡ true
unfolding new arm update abort after after_all new_clock elapsed_seconds project_elapsed_seconds
    try_except station on_world tick emit emit_at arm_in set_arms refuse arm_refusal abort_live act
    after_trigger begin complete conclude conclude_by conclude_with decide decide_by ended
    first_invalid follow give_up is_finite_observation measure note_lateral note_lead note_reveal
    observe_driver policy_conclude proceed refusal respond respond_to start_moving terminate
    termination_outcome termination_reason waiting watch write_trigger gets lift modify pure raise
    when zoom ◌>>=◌ new_metrics brakes_first calculate_ttc course_ttc first_raw_response_t
    is_candidate is_valid_input least min observe_geometry observe_input onsets react since_reveal
    steers_first
departs_requested = refl

abbrev pedal : ℕ → DriverInput ℕ
pedal brake = record {
  throttle = 0;
  brake = brake;
  steering = 0;
  steering_engaged = false;
  hand_brake = false;
  activation_requested = false;
  deactivation_requested = false;
  exit_confirm_requested = false;
  exit_reject_requested = false;
  lane_change_direction = none;
  lane_change_in_progress = false;
  stage = none;
}

-- The pedal is at rest a second after the reveal.
abbrev at_rest : ResponseMetrics ℕ
at_rest = record (new_metrics 1 1) {
  reveal_t = some 1;
  previous = some (pedal 0);
  previous_at = some 2;
}

brake_onset_example : (observe_input 3 (some (pedal 1)) at_rest).1.first_brake_t ≡ (
    if is_none at_rest.first_brake_t
      && is_pressed 3 (some (pedal 1)) at_rest.previous at_rest.previous_at at_rest.reveal_t
    then some 3
    else at_rest.first_brake_t)
brake_onset_example = brake_onset 3 (some (pedal 1)) at_rest

pressed_at : (observe_input 3 (some (pedal 1)) at_rest).1.first_brake_t ≡ some 3
unfolding new_metrics brakes_first calculate_ttc course_ttc first_raw_response_t is_candidate
    is_valid_input least min observe_geometry observe_input onsets react since_reveal steers_first
pressed_at = refl
