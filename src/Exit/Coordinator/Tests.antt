-- ===== src/Exit/Coordinator/Tests.antt =====
-- The coordinator over callbacks that answer, on a route of three points.
use carla.Prelude.{ℕ, ◌+◌, true, false, ◌≡◌, refl, some, none, List, [], ◌∷◌, arith}
use carla.Prelude.Int.{pos, negsuc}
use carla.Float.Example.{whole}
use carla.Exec.{ok, ◌>>=◌, zoom}
use carla.Context.{module_2, noa_l2}
use carla.Automation.{available, noa_active, AutomationState}
use carla.Interaction.{DriverInput}
use carla.Timestamp.{TimestampEnvelope}
use carla.Exit.{drive_module, presented, confirmed, off, ExitObservation, user_exit}
use carla.Exit.Route.{
  ExitRoute, RoutePoint, navigation_start, navigation_end, confirmation_start, confirmation_end,
  initiation_end,
}
use carla.Exit.Policy.{
  has_timed_out, is_confirmation_observation, is_navigation_observation, navigation_distance_m,
}
use carla.Exit.Coordinator.{Environment, Coordinator, new, confirm}
use carla.Exit.Coordinator.Signal.{is_confirm}
use carla.Exit.Coordinator.Emit.{
  core, set, on_world, set_journal, emit, offer, sink_result, ends_opportunity,
  eligibility_elapsed_seconds, elapsed_on,
}
use carla.Exit.Coordinator.Update.{
  driver_acts, update, update_confirmation, respond, answer, accept, execute, hand_over,
  emit_answer, decided,
}
use carla.Exit.Coordinator.Laws.{IsSound}
use carla.Exit.Coordinator.Laws.Consent.{IsUnasked}
use carla.Exit.Coordinator.Laws.Arming.{invited, may_confirm, asks_anew, uninvited_update}
use carla.Exit.Coordinator.Laws.Runs.{
  Operation, start, see, draw, drive, end, after_all, new-IsSound, new-IsUnasked, after_all-IsSound,
  presentation_once, confirmation_final, no_exit-IsUnasked,
}

abbrev point : ℕ → RoutePoint ℕ
point station = record {
  x = station;
  y = 0;
  yaw_rad = 0;
  distance_m = station;
  road_id = pos 1;
  section_id = pos 0;
  lane_id = negsuc 1;
  lane_width_m = 3;
}

abbrev route : ExitRoute ℕ
route = record {
  route_id = "exit";
  route_version = "1";
  map_name = "Town04";
  source_lane_id = negsuc 1;
  target_lane_id = negsuc 2;
  fork_distance_m = 100;
  points = point 0 ∷ point 50 ∷ point 100 ∷ [];
  through_segments = [];
  exit_segments = [];
  initiation_start_m = 20;
  initiation_end_m = none;
  completion_distance_m = none;
  navigation_start_m = none;
  navigation_end_m = none;
  confirmation_start_m = none;
  confirmation_end_m = none;
}

abbrev env : Environment ℕ ℕ
env = record {
  config = record {
    drive = module_2;
    condition = noa_l2;
    context = drive_module;
    lc_event_id = "exit_1";
    route = route;
    navigation_trigger_distance_m = 80;
    response_timeout_s = 5;
    lateral_onset_threshold_m = 1;
    steering_onset_threshold = 1;
    assisted_execution_enabled = true;
    eligibility_open_s = none;
    eligibility_close_s = none;
    signal_guided_exit = false;
  };
  navigation_text = λ guided km. "exit ahead";
  arm = λ r i w. (ok tt, w + 1);
  cancel = λ w. (ok tt, w + 1);
  event_sink = some (λ e w. (ok tt, w + 1));
  session_clock = none;
  assisted_submission = none;
  submission_clock = none;
  automatic_route_submission = none;
  automatic_route_cancellation = none;
  through_route_submission = none;
}

abbrev at : ℕ → TimestampEnvelope
at ns = record { host = record { monotonic_ns = ns; utc_ns = ns; perf_counter_ns = none } }

abbrev seen_at : ℕ → ExitObservation ℕ
seen_at station = record {
  timestamp = at station;
  route_distance_m = station;
  lateral_offset_m = some 0;
  road_id = some (pos 1);
  section_id = some (pos 0);
  lane_id = some (negsuc 1);
  carla_frame = some station;
  carla_simulation_seconds = none;
  indicator = off;
  lane_width_m = 3;
  route_matched = true;
  route_point_index = pos 1;
  target_boundary_valid = true;
  route_reference_distance_m = none;
  route_reference_half_width_m = none;
  right_lane_id = none;
}

abbrev automated : AutomationState
automated = record { availability = available; control_mode = noa_active }

abbrev idle : DriverInput ℕ
idle = record {
  throttle = 0;
  brake = 0;
  steering = 0;
  steering_engaged = false;
  hand_brake = false;
  activation_requested = false;
  deactivation_requested = false;
  exit_confirm_requested = false;
  exit_reject_requested = false;
  lane_change_direction = none;
  lane_change_in_progress = false;
  stage = none;
}

-- The driver asks for the exit and brakes.
abbrev torn : DriverInput ℕ
torn = record idle { exit_confirm_requested = true; brake = 1 }

abbrev first : Coordinator ℕ ℕ
first = new 0

-- A recommendation on the screen, half way along the route.
abbrev asked : Coordinator ℕ ℕ
asked = record first {
  core = record first.core {
    status = presented;
    t0 = some (at 50);
    frozen_mode = some noa_active;
    automated = true;
    recommendation_presented = true;
    latest_observation = some (seen_at 50);
  };
}

abbrev agreed : Coordinator ℕ ℕ
agreed = record first {
  core = record first.core {
    status = confirmed;
    t0 = some (at 50);
    frozen_mode = some noa_active;
    automated = true;
    recommendation_presented = true;
    decision = some confirm;
  };
}

abbrev approach : List (Operation ℕ)
approach =
    start (at 0)
    ∷ see (seen_at 30)
    ∷ draw automated
    ∷ drive idle automated (at 31) none false
    ∷ see (seen_at 60)
    ∷ end user_exit (at 70)
    ∷ []

no_exit-IsUnasked_example : IsUnasked (after_all env approach first).core
no_exit-IsUnasked_example =
    no_exit-IsUnasked env approach first (tt, (tt, (tt, (refl, (tt, (tt, tt)))))) (new-IsUnasked 0)

-- With the hands off, the same request is a confirmation, and arms the lane change.
arms :
    (update env
      (record torn { brake = 0 })
      automated
      (at 51)
      none
      false
      asked).1.core.route_was_armed
    ≡ true
unfolding update update_confirmation respond answer accept execute hand_over emit_answer decided
    driver_acts new core set on_world set_journal emit offer sink_result ends_opportunity
    eligibility_elapsed_seconds elapsed_on has_timed_out is_confirmation_observation
    is_navigation_observation navigation_distance_m navigation_start navigation_end
    confirmation_start confirmation_end initiation_end ◌>>=◌ zoom
arms = refl

torn_refused :
    may_confirm env torn automated
      (at 51)
      (asks_anew env torn automated (at 51) none asked.core)
      asked.core
    ≡ false
unfolding may_confirm invited driver_acts new
torn_refused = refl

asked-IsUnasked : IsUnasked asked.core
unfolding new
asked-IsUnasked = ground arith

uninvited_update_example : IsUnasked (update env torn automated (at 51) none false asked).1.core
uninvited_update_example =
    uninvited_update env torn automated (at 51) none false asked refl torn_refused asked-IsUnasked

agreed-IsSound : IsSound agreed.core
unfolding new
agreed-IsSound = ground arith

after_all-IsSound_example : IsSound (after_all env approach first).core
after_all-IsSound_example = after_all-IsSound env approach first (new-IsSound 0)

presentation_once_example : (after_all env approach agreed).core.t0 ≡ agreed.core.t0
presentation_once_example = presentation_once env approach agreed agreed-IsSound refl

confirmation_final_example : is_confirm (after_all env approach agreed).core.decision ≡ true
confirmation_final_example = confirmation_final env approach agreed agreed-IsSound refl
