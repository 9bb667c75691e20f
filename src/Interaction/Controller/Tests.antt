-- ===== src/Interaction/Controller/Tests.antt =====
-- The controller over collaborators that answer and a world that counts what they were asked.
use carla.Prelude.{ℕ, ◌+◌, true, false, ◌≡◌, refl, some, none, List, [], ◌∷◌, arith}
use carla.Float.Example.{whole}
use carla.Exec.{ok, ◌>>=◌, zoom}
use carla.Context.{module_2, noa_l2}
use carla.Automation.{unavailable, available, manual, noa_active, set_driving_control_mode}
use carla.Automation.Laws.{IsValid}
use carla.Automation.Runtime.{request_control_mode}
use carla.Interaction.{DriverInput, driver_brake, availability_lost}
use carla.Interaction.Gate.{Surroundings, observed}
use carla.Interaction.Gate
use carla.Interaction.Gate.Alignment.{lane_alignment_failure}
use carla.Interaction.Controller.{
  Environment, Controller, new, emit, set_driver_steering, gate_failure, refresh_availability,
  activate_unless, request_activation_before_gate, override, update_manual, update,
}
use carla.Interaction.Controller.Safety.{
  Operation, initialize_with, update_with, control_applied, external_availability, after_all,
  after_all-IsValid,
}
use carla.Interaction.Controller.Log.{IsQuiet, IsDisengaged, update_activates, brake_disengages}
use carla.Interaction.Controller.Trace.{IsFaithful, logged_mode, log-IsFaithful}

abbrev surroundings : Surroundings ℕ ℕ
surroundings = record {
  observe_with_context = λ w.
      (observed (record { lane_width_m = 8; lateral_error_m = 0; heading_error_rad = 0 }), w + 1);
  bounding_box = λ w. (
    ok (record { extent_x = 2; extent_y = 1; location_x = 0; location_y = 0; rotation_yaw = 0 }),
    w + 1,
  );
}

abbrev env : Environment ℕ ℕ
env = record {
  backend = record {
    enter_manual_control = λ w. (ok tt, w + 1);
    enter_noa_control = λ w. (ok tt, w + 1);
  };
  surroundings = surroundings;
  steering_target = some (λ v w. (ok tt, w + 1));
  event_sink = λ e w. (ok tt, w + 1);
  config = record {
    center_tolerance_m = 1;
    heading_tolerance_rad = 1;
    driver_brake_threshold = 5;
    button_deactivation_enabled = true;
    steering_deactivation_enabled = true;
    require_centered_activation = true;
  };
  cache_static_bounds = true;
}

abbrev idle : DriverInput ℕ
idle = record {
  throttle = 0;
  brake = 0;
  steering = 0;
  steering_engaged = false;
  hand_brake = false;
  activation_requested = false;
  deactivation_requested = false;
  exit_confirm_requested = false;
  exit_reject_requested = false;
  lane_change_direction = none;
  lane_change_in_progress = false;
  stage = none;
}

abbrev asks : DriverInput ℕ
asks = record idle { activation_requested = true }

abbrev brakes : DriverInput ℕ
brakes = record idle { brake = 6 }

abbrev parked : Controller ℕ ℕ
parked = new (record { availability = available; control_mode = manual }) 0

abbrev driven : Controller ℕ ℕ
driven = new (record { availability = available; control_mode = noa_active }) 0

activated : (update env asks parked).1.state.control_mode ≡ noa_active
unfolding update update_manual request_activation_before_gate activate_unless refresh_availability
    gate_failure emit override set_driver_steering zoom ◌>>=◌ request_control_mode
    set_driving_control_mode Gate.failure lane_alignment_failure new
activated = refl

update_activates_example :
    (asks.activation_requested ≡ true)
    × (whole.le env.config.driver_brake_threshold asks.brake ≡ false)
    × (asks.lane_change_in_progress ≡ false)
    × (parked.external_available ≡ true)
unfolding new
update_activates_example = update_activates env asks parked refl activated

quiet : IsQuiet env
unfolding set_driver_steering zoom
quiet = record {
  manual_ok = λ w. refl;
  noa_ok = λ w. refl;
  sink_ok = λ e w. refl;
  steering_ok = λ v c. refl;
}

brake_disengages_example :
    ((update env brakes driven).0 ≡ ok (update env brakes driven).1.state)
    × IsDisengaged env driver_brake none driven (update env brakes driven).1
unfolding new
brake_disengages_example = brake_disengages env quiet brakes driven refl refl

abbrev drive : List (Operation ℕ)
drive =
    update_with asks
    ∷ control_applied
    ∷ external_availability unavailable availability_lost none
    ∷ update_with asks
    ∷ external_availability available availability_lost none
    ∷ update_with brakes
    ∷ []

parked-IsValid : IsValid parked.state
unfolding new
parked-IsValid e = refl

after_all-IsValid_example :
    IsValid (after_all env (initialize_with module_2 noa_l2 false none ∷ drive) parked).state
after_all-IsValid_example =
    after_all-IsValid env (initialize_with module_2 noa_l2 false none ∷ drive) parked parked-IsValid

parked-IsFaithful : IsFaithful parked
unfolding new logged_mode
parked-IsFaithful = ground arith

log-IsFaithful_example : IsFaithful (after_all env drive parked)
log-IsFaithful_example =
    log-IsFaithful env quiet drive parked (tt, (tt, (tt, (tt, (tt, (tt, tt)))))) parked-IsValid
      parked-IsFaithful
